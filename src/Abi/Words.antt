-- ===== src/Abi/Words.antt =====
-- Words and byte strings behind a prefix: what the reader of src.ts/abi/coders makes of them.
use corebc_js.Common.Integers.{pos}
use corebc_js.Utils.Data.Hex.{IsByte, IsBytes}
use corebc_js.Utils.Data.Pad.{zeros_value}
use corebc_js.Utils.Maths.{be_array, bytes_to_bigint, get_number, max_value}
use corebc_js.Utils.Maths.BigEndian.{be_array-Spelling, bytes_to_bigint_lem}
use corebc_js.Utils.Rlp.Lengths.{be_value}
use corebc_js.Transaction.Numbers.{length-be_array}
use corebc_js.Abi.Writer.{pad_right}
use corebc_js.Abi.Layout.{word}
use corebc_js.Abi.Reader.{
  Reader, next, call, aligned, peek_length, read_bytes, read_value, read_index, to_index,
}
use corebc_js.Common.{
  ℕ, zero, suc, ◌+◌, ◌-◌, ◌%◌, ◌^◌, ◌≤◌, ◌<◌, arith, ◌≡◌, refl, sym, ◌∙◌, ap, inl, inr, Bool, false,
  List, ◌++◌, ◌==◌, le→leb, ==_iff, Bool-cases, length, take, replicate, length-append,
  length-replicate, take-length, take_all, slice-append, length_three, All-append, All-replicate,
  ok,
}
use mathlib.Core.Path.{ap₂}

pub be_array-length : (n : ℕ) → n < 2 ^ 256 → length (be_array n) ≤ 32
unfolding be_array
be_array-length zero h = omega arith
be_array-length (suc n) h = length-be_array (suc n) (omega arith) h

pub length-word : (n : ℕ) → n < 2 ^ 256 → length (word n) ≡ 32
unfolding word
length-word n h = omega (
  arith,
  length-append (replicate (32 - length (be_array n)) 0) (be_array n),
  length-replicate {A = ℕ} (32 - length (be_array n)) 0,
  be_array-length n h,
)

pub word-IsBytes : (n : ℕ) → IsBytes (word n)
unfolding word
word-IsBytes n =
    All-append IsByte (replicate (32 - length (be_array n)) 0) (be_array n)
      (All-replicate IsByte (32 - length (be_array n)) 0 (omega arith)) (be_array-Spelling n).0

pub be_value-word : (n : ℕ) → be_value (word n) ≡ n
unfolding word
be_value-word n = zeros_value (32 - length (be_array n)) (be_array n) ∙ (be_array-Spelling n).1

abbrev pub at : Bool → List ℕ → ℕ → Reader
at loose v o = record { loose = loose; contents = v; offset = o }

-- Bytes behind a prefix, with their padding.
pub read_part :
    (n : ℕ) (l loose : Bool) (front part rest : List ℕ)
    → length part ≡ aligned n
    → read_bytes n l (at loose (front ++ (part ++ rest)) (length front))
      ≡ (ok (take n part), at loose (front ++ (part ++ rest)) (length front + length part))
unfolding read_bytes peek_length
read_part n l loose front part rest h =
    let v = front ++ (part ++ rest) in
    let o = length front in
    let fits : o + aligned n ≤ length v = omega (arith, length_three front part rest) in
    rw (le→leb (o + aligned n) (length v) fits) (
      ap (λ p. (ok (take n p), at loose v (o + length p)))
        (slice-append front part rest o (o + aligned n) refl (omega arith)))

take-word : (n : ℕ) → n < 2 ^ 256 → take 32 (word n) ≡ word n
take-word n h = ap (λ k. take k (word n)) (sym (length-word n h)) ∙ take_all (word n)

read_word :
    (n : ℕ) (loose : Bool) (front rest : List ℕ)
    → n < 2 ^ 256
    → read_bytes 32 false (at loose (front ++ (word n ++ rest)) (length front))
      ≡ (ok (word n), at loose (front ++ (word n ++ rest)) (length front + 32))
read_word n loose front rest h =
    read_part 32 false loose front (word n) rest (length-word n h)
    ∙ ap₂ (λ b k. (ok b, at loose (front ++ (word n ++ rest)) (length front + k))) (take-word n h)
        (length-word n h)

number_of_word : (n : ℕ) → bytes_to_bigint (word n) ≡ ok (pos n)
number_of_word n =
    bytes_to_bigint_lem (word n) (word-IsBytes n) ∙ ap (λ k. ok (pos k)) (be_value-word n)

pub read_value-word :
    (n : ℕ) (loose : Bool) (front rest : List ℕ)
    → n < 2 ^ 256
    → read_value (at loose (front ++ (word n ++ rest)) (length front))
      ≡ (ok (pos n), at loose (front ++ (word n ++ rest)) (length front + 32))
unfolding read_value
read_value-word n loose front rest h =
    ap (λ m. next m (λ b. call (bytes_to_bigint b))) (read_word n loose front rest h)
    ∙ ap (λ m. (m, at loose (front ++ (word n ++ rest)) (length front + 32))) (number_of_word n)

to_index-word : (n : ℕ) → n ≤ max_value → to_index (word n) ≡ ok n
unfolding get_number
to_index-word n h = rw (number_of_word n, to_index) (rw (le→leb n max_value h) refl)

pub read_index-word :
    (n : ℕ) (loose : Bool) (front rest : List ℕ)
    → n ≤ max_value
    → read_index (at loose (front ++ (word n ++ rest)) (length front))
      ≡ (ok n, at loose (front ++ (word n ++ rest)) (length front + 32))
unfolding read_index
read_index-word n loose front rest h =
    ap (λ m. next m (λ b. call (to_index b))) (read_word n loose front rest (omega arith))
    ∙ ap (λ m. (m, at loose (front ++ (word n ++ rest)) (length front + 32))) (to_index-word n h)

pub length-pad_right : (w : List ℕ) → length (pad_right w) ≡ aligned (length w)
length-pad_right w = elim (Bool-cases (length w % 32 == 0)) [
  | inl e ↦ rw e (omega (arith, (==_iff (length w % 32) 0).0 e))
  | inr e ↦ rw e (
      length-append w (replicate (32 - length w % 32) 0)
      ∙ ap (λ k. length w + k) (length-replicate {A = ℕ} (32 - length w % 32) 0)
      ∙ padded (length w) e)
]
  where
    padded : (n : ℕ) → (n % 32 == 0) ≡ false → n + (32 - n % 32) ≡ aligned n
    padded n e = ground arith

pub take-pad_right : (w : List ℕ) → take (length w) (pad_right w) ≡ w
take-pad_right w = elim (Bool-cases (length w % 32 == 0)) [
  | inl e ↦ rw e (take_all w)
  | inr e ↦ rw e (take-length w (replicate (32 - length w % 32) 0))
]

-- A byte string behind a prefix.
pub read_padded :
    (l loose : Bool) (front w rest : List ℕ)
    → read_bytes (length w) l (at loose (front ++ (pad_right w ++ rest)) (length front))
      ≡ (ok w, at loose (front ++ (pad_right w ++ rest)) (length front + length (pad_right w)))
read_padded l loose front w rest =
    read_part (length w) l loose front (pad_right w) rest (length-pad_right w)
    ∙ ap
        (λ b.
          (ok b, at loose (front ++ (pad_right w ++ rest)) (length front + length (pad_right w))))
        (take-pad_right w)
