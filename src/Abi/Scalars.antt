-- ===== src/Abi/Scalars.antt =====
-- What the base coders of src.ts/abi/coders read from the layout of a value: numbers, booleans and
-- addresses.
use native.Mathlib.Nat.{pow-le-pow_right, pow-suc, pow-zero, mod-eq_of_lt, add-mul-mod_self_right}
use corebc_js.Utils.Maths.{max_value, from_twos, bigint}
use corebc_js.Utils.Maths.Twos.{
  InRange, range_double, range_positive, from_twos_low, from_twos_high,
}
use corebc_js.Common.Integers.{ℤ, pos, negsuc}
use corebc_js.Abi.{Coder, Value, number, boolean, is_dynamic, int, flag}
use corebc_js.Abi.Reader.{Reader, next, ◌>>=◌, call, read_value}
use corebc_js.Abi.Decode.{decode, int_of, number_of, truth_of}
use corebc_js.Abi.Layout.{layout, word, pattern, flag_number, FitsNumber}
use corebc_js.Abi.Words.{at, read_value-word, length-word}
use corebc_js.Common.{
  ℕ, zero, suc, ◌+◌, ◌-◌, ◌*◌, ◌%◌, ◌^◌, ◌≤◌, ◌<◌, arith, ◌≡◌, sym, ◌∙◌, ap, Bool, false, List,
  ◌++◌, length, Result, ok, refl, true,
}
use mathlib.Core.Path.{subst}

-- The reader behind `front` gives the value back; behind a static one it has moved over its layout.
abbrev pub ReadsBack : Coder → Value → Type 0
ReadsBack c v =
    (loose : Bool) (whole front rest : List ℕ)
    → length whole ≤ max_value
    → whole ≡ front ++ (layout c v ++ rest)
    → (k : ℕ) × (decode c (at loose whole (length front)) ≡ (ok v, at loose whole k))
      × (is_dynamic c ≡ false → k ≡ length front + length (layout c v))

-- A coder that reads one word.
pub word-ReadsBack :
    (c : Coder) (v : Value) (f : ℤ → Result Value) (n : ℕ)
    → n < 2 ^ 256
    → layout c v ≡ word n
    → ((r : Reader) → decode c r ≡ (read_value >>= λ z. call (f z)) r)
    → f (pos n) ≡ ok v
    → ReadsBack c v
word-ReadsBack c v f n h l d e loose whole front rest _ g =
    let split : whole ≡ front ++ (word n ++ rest) = g ∙ ap (λ t. front ++ (t ++ rest)) l in
    let step : read_value (at loose whole (length front))
        ≡ (ok (pos n), at loose whole (length front + 32)) =
      rw split (read_value-word n loose front rest h) in
    (
      length front + 32,
      d (at loose whole (length front))
          ∙ ap (λ m. next m (λ z. call (f z))) step
          ∙ ap (λ m. (m, at loose whole (length front + 32))) e,
      λ s. ap (λ k. length front + k) (sym (ap length l ∙ length-word n h)),
    )

pow_add : (k w : ℕ) → 2 ^ (k + w) ≡ 2 ^ k * 2 ^ w
pow_add zero w =
    let z : 0 + w ≡ w = omega arith in rw (pow-zero 2) (ap (λ e. 2 ^ e) z ∙ omega arith)
pow_add (suc k) w = grind (arith, pow-suc 2 (k + w), pow-suc 2 k, pow_add k w)

multiple_less : (q p n : ℕ) → n < p → (suc q * p - (n + 1)) % p ≡ p - (n + 1)
multiple_less q p n h =
    ap (λ m. m % p) (shift q p n h)
    ∙ add-mul-mod_self_right (p - (n + 1)) q p
    ∙ mod-eq_of_lt (omega arith)
  where
    shift : (q p n : ℕ) → n < p → suc q * p - (n + 1) ≡ p - (n + 1) + q * p
    shift q p n h = grind arith

-- The low bits of the pattern of a negative number.
low_pattern : (k w n : ℕ) → n < 2 ^ w → (2 ^ (k + w) - (n + 1)) % 2 ^ w ≡ 2 ^ w - (n + 1)
low_pattern k w n h =
    let one = range_positive k in
    let q = 2 ^ k - 1 in
    let whole : 2 ^ k ≡ suc q = omega arith in
    ap (λ m. (m - (n + 1)) % 2 ^ w) (pow_add k w ∙ ap (λ m. m * 2 ^ w) whole)
    ∙ multiple_less q (2 ^ w) n h

pattern-lt : (w : ℕ) (z : ℤ) → w ≤ 256 → InRange (suc w) z → pattern z < 2 ^ 256
pattern-lt w (pos n) s h = omega (arith, pow-le-pow_right {n = 2} (omega arith) s)
pattern-lt w (negsuc n) s h = omega arith

-- A width in bits.
from_pattern :
    (w : ℕ) (z : ℤ)
    → suc w ≤ 256
    → InRange (suc w) z
    → from_twos (bigint (pos (pattern z % 2 ^ suc w))) (suc w) ≡ ok z
from_pattern w (pos n) s h =
    let d = range_double w in
    ap (λ m. from_twos (bigint (pos m)) (suc w)) (mod-eq_of_lt (omega arith)) ∙ from_twos_low w n h
from_pattern w (negsuc n) s h =
    let d = range_double w in
    let one = range_positive w in
    let split : (256 - suc w) + suc w ≡ 256 = omega arith in
    let low : (2 ^ 256 - (n + 1)) % 2 ^ suc w ≡ 2 ^ suc w - (n + 1) =
      ap (λ e. (2 ^ e - (n + 1)) % 2 ^ suc w) (sym split)
      ∙ low_pattern (256 - suc w) (suc w) n (omega arith) in
    ap (λ m. from_twos (bigint (pos m)) (suc w)) low
    ∙ from_twos_high w (2 ^ suc w - (n + 1)) (omega arith) (omega arith)
    ∙ ap (λ m. ok (negsuc m)) (omega arith)

-- The width of `size` bytes.
pub number_of-pattern :
    (size : ℕ) (signed : Bool) (z : ℤ)
    → 0 < size
    → size ≤ 32
    → FitsNumber size signed z
    → (pattern z < 2 ^ 256) × (number_of size signed (pos (pattern z)) ≡ ok (int z))
unfolding number_of
number_of-pattern size false (pos n) lo hi h = (
  omega (arith, pow-le-pow_right {n = 2} (omega arith) (bits size hi)),
  ap (λ m. ok (int (pos m))) (mod-eq_of_lt h),
)
  where
    bits : (s : ℕ) → s ≤ 32 → s * 8 ≤ 256
    bits s h = omega arith
number_of-pattern size false (negsuc n) lo hi h = elim h [ ]
number_of-pattern size true z lo hi h =
    let w = size * 8 - 1 in
    let width : size * 8 ≡ suc w = omega arith in
    let range : InRange (suc w) z = subst (λ b. InRange b z) width h in
    (
      pattern-lt w z (omega arith) range,
      ap int_of (
          subst (λ b. from_twos (bigint (pos (pattern z % 2 ^ b))) b ≡ ok z) (sym width)
            (from_pattern w z (omega arith) range)),
    )

pub number-ReadsBack :
    (size : ℕ) (signed : Bool) (z : ℤ)
    → 0 < size
    → size ≤ 32
    → FitsNumber size signed z
    → ReadsBack (number size signed) (int z)
unfolding decode layout
number-ReadsBack size signed z lo hi h =
    let (small, e) = number_of-pattern size signed z lo hi h in
    word-ReadsBack (number size signed) (int z) (number_of size signed) (pattern z) small refl
      (λ r. refl) e

flag_lem :
    (b : Bool) → (flag_number b < 2 ^ 256) × (ok (truth_of (pos (flag_number b))) ≡ ok (flag b))
flag_lem true = (omega arith, refl)
flag_lem false = (omega arith, refl)

pub boolean-ReadsBack : (b : Bool) → ReadsBack boolean (flag b)
unfolding decode layout
boolean-ReadsBack b =
    let (small, e) = flag_lem b in
    word-ReadsBack boolean (flag b) (λ z. ok (truth_of z)) (flag_number b) small refl (λ r. refl) e
