-- ===== src/Abi/Written.antt =====
-- What the base coders of src.ts/abi/coders write: the layout of the value, as new chunks.
use native.Mathlib.Nat.{mod-eq_of_lt, pow-le-pow_right}
use corebc_js.Utils.Maths.{BigNumberish, be_array, to_be_array, get_uint, get_big_int, max_value}
use corebc_js.Utils.Maths.Twos.{InRange, to_twos_low, to_twos_high}
use corebc_js.Common.Integers.{ℤ, pos, negsuc}
use corebc_js.Abi.{Coder, Value, number, boolean, int, flag}
use corebc_js.Abi.Writer.{Writer, joined, get_value, write_data, write_value}
use corebc_js.Abi.Encode.{encode, encode_number, in_bounds, to_pattern}
use corebc_js.Abi.Layout.{layout, word, pattern, FitsNumber}
use corebc_js.Abi.Words.{be_array-length}
use corebc_js.Common.{
  ℕ, ◌+◌, ◌-◌, ◌%◌, ◌^◌, ◌≤◌, ◌<◌, arith, ◌≡◌, refl, sym, ap, inl, inr, false, List, [], ◌∷◌, ◌++◌,
  append-nil, ◌==◌, if◌then◌else◌, le→leb, ==_iff, Bool-cases, length, replicate, ok, suc, ◌*◌,
  true, ◌>>=◌, Bool, ◌∙◌, ◌>>◌, assert, invalid_argument,
}
use mathlib.Core.Path.{subst}

-- The writer after `encode` of a value: `added` are its new chunks.
pub record Adds (w : Writer) (c : Coder) (v : Value) : Type 0 where
  pub result : Writer
  pub added : List (List ℕ)
  pub returns : encode c v w ≡ ok result
  pub appended : result.chunks ≡ w.chunks ++ added
  pub laid_out : joined added ≡ layout c v
  pub longer : result.data_length ≡ w.data_length + length (layout c v)

abbrev pub Writes : Coder → Value → Type 0
Writes c v = (w : Writer) → length (layout c v) ≤ max_value → Adds w c v

-- A coder that writes the layout as one chunk.
pub chunk-Adds :
    (c : Coder) (v : Value) (w : Writer)
    → encode c v w ≡ ok (write_data (layout c v) w)
    → Adds w c v
chunk-Adds c v w e = record {
  result = write_data (layout c v) w;
  added = layout c v ∷ [];
  returns = e;
  appended = refl;
  laid_out = append-nil (layout c v);
  longer = refl;
}

padded_value :
    (v : List ℕ)
    → length v ≤ 32
    → (if length v == 32 then v else replicate (32 - length v % 32) 0 ++ v)
      ≡ replicate (32 - length v) 0 ++ v
padded_value v h = elim (Bool-cases (length v == 32)) [
  | inl e ↦ let l = (==_iff (length v) 32).0 e in rw e (ap (λ k. replicate (32 - k) 0 ++ v) (sym l))
  | inr e ↦ rw e (ap (λ k. replicate (32 - k) 0 ++ v) (mod-eq_of_lt (less (length v) h e)))
]
  where
    less : (n : ℕ) → n ≤ 32 → (n == 32) ≡ false → n < 32
    less n h e = ground arith

pub get_value-word :
    (x : BigNumberish) (n : ℕ)
    → to_be_array x ≡ ok (be_array n)
    → n < 2 ^ 256
    → get_value x ≡ ok (word n)
unfolding get_value word
get_value-word x n e h =
    rw (e, le→leb (length (be_array n)) 32 (be_array-length n h))
      (ap ok (padded_value (be_array n) (be_array-length n h)))

pub write_value-word :
    (x : BigNumberish) (n : ℕ) (w : Writer)
    → to_be_array x ≡ ok (be_array n)
    → n < 2 ^ 256
    → write_value x w ≡ ok (write_data (word n) w)
unfolding write_value
write_value-word x n w e h = ap (λ m. m >>= λ v. ok (write_data v w)) (get_value-word x n e h)

pub number_bytes :
    (n : ℕ) → n ≤ max_value → to_be_array (BigNumberish.number (pos n)) ≡ ok (be_array n)
unfolding to_be_array get_uint get_big_int
number_bytes n h = rw (le→leb n max_value h)

bigint_bytes : (n : ℕ) → to_be_array (BigNumberish.bigint (pos n)) ≡ ok (be_array n)
unfolding to_be_array get_uint get_big_int
bigint_bytes n = refl

pub write_number :
    (n : ℕ) (w : Writer)
    → n ≤ max_value
    → write_value (BigNumberish.number (pos n)) w ≡ ok (write_data (word n) w)
write_number n w h =
    write_value-word (BigNumberish.number (pos n)) n w (number_bytes n h) (omega arith)

pub write_bigint :
    (n : ℕ) (w : Writer)
    → n < 2 ^ 256
    → write_value (BigNumberish.bigint (pos n)) w ≡ ok (write_data (word n) w)
write_bigint n w h = write_value-word (BigNumberish.bigint (pos n)) n w (bigint_bytes n) h

-- The number is in the bounds, and this is its pattern in 256 bits.
record HasPattern (size : ℕ) (signed : Bool) (z : ℤ) : Type 0 where
  bounded : in_bounds size signed z ≡ true
  converted : to_pattern signed z ≡ ok (BigNumberish.bigint (pos (pattern z)))
  word_sized : pattern z < 2 ^ 256

signed-HasPattern :
    (size w : ℕ) (z : ℤ) → w ≡ size * 8 - 1 → w ≤ 255 → InRange (suc w) z → HasPattern size true z
signed-HasPattern size w (pos n) e s h =
    let top = pow-le-pow_right {n = 2} (omega arith) s in
    let same = ap (λ b. 2 ^ b) e in
    let small : n < 2 ^ 255 = omega arith in
    record {
      bounded = le→leb n (2 ^ (size * 8 - 1) - 1) (omega arith);
      converted = ap (λ m. m >>= λ k. ok (BigNumberish.bigint (pos k))) (to_twos_low 255 n small);
      word_sized = omega arith;
    }
signed-HasPattern size w (negsuc n) e s h =
    let top = pow-le-pow_right {n = 2} (omega arith) s in
    let same = ap (λ b. 2 ^ b) e in
    let small : n < 2 ^ 255 = omega arith in
    record {
      bounded = le→leb (n + 1) (2 ^ (size * 8 - 1) - 1 + 1) (omega arith);
      converted = ap (λ m. m >>= λ k. ok (BigNumberish.bigint (pos k))) (to_twos_high 255 n small);
      word_sized = omega arith;
    }

fits-HasPattern :
    (size : ℕ) (signed : Bool) (z : ℤ)
    → 0 < size
    → size ≤ 32
    → FitsNumber size signed z
    → HasPattern size signed z
fits-HasPattern size false (negsuc n) lo hi h = elim h [ ]
fits-HasPattern size false (pos n) lo hi h =
    let bits : size * 8 ≤ 256 = omega arith in
    let top = pow-le-pow_right {n = 2} (omega arith) bits in
    record {
      bounded = le→leb n (2 ^ (size * 8) - 1) (omega arith);
      converted = refl;
      word_sized = omega arith;
    }
fits-HasPattern size true z lo hi h =
    let width : size * 8 ≡ suc (size * 8 - 1) = omega arith in
    signed-HasPattern size (size * 8 - 1) z refl (omega arith) (subst (λ b. InRange b z) width h)

pub number-Writes :
    (size : ℕ) (signed : Bool) (z : ℤ)
    → 0 < size
    → size ≤ 32
    → FitsNumber size signed z
    → Writes (number size signed) (int z)
unfolding encode encode_number get_big_int layout
number-Writes size signed z lo hi h w _ =
    let p = fits-HasPattern size signed z lo hi h in
    chunk-Adds (number size signed) (int z) w (
      ap (λ b. assert b invalid_argument >> (to_pattern signed z >>= λ n. write_value n w))
        p.bounded
      ∙ ap (λ m. m >>= λ n. write_value n w) p.converted
      ∙ write_bigint (pattern z) w p.word_sized)

pub boolean-Writes : (b : Bool) → Writes boolean (flag b)
unfolding encode layout
boolean-Writes true w _ = chunk-Adds boolean (flag true) w (write_number 1 w (omega arith))
boolean-Writes false w _ = chunk-Adds boolean (flag false) w (write_number 0 w (omega arith))
