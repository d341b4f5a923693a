-- ===== src/Utils/Fixed/Tens.antt =====
-- `getTens` of src.ts/utils/fixednumber.ts is a power of ten.
use corebc_js.Common.Radix.{of_digits}
use corebc_js.Utils.Data.{hex_value}
use corebc_js.Utils.Fixed.Formats.{grow_zeros, get_tens}
use native.Mathlib.Nat.{pow-suc, pow-zero}
use corebc_js.Common.{
  ℕ, zero, suc, ◌+◌, ◌*◌, ◌^◌, ◌≤◌, ◌<◌, arith, ◌≡◌, refl, ◌∙◌, ap, ◌∷◌, ◌++◌, lt→ltb, le→ltb, take,
  replicate, length-replicate, true, false, Text, ltb, length,
}
use native.Mathlib.Decide.{dec_lt}

abbrev pub nulls : ℕ → Text
nulls n = replicate n b'0'

pub replicate-append : (m n : ℕ) (c : ℕ) → replicate m c ++ replicate n c ≡ replicate (m + n) c
replicate-append zero n c = let same : n ≡ zero + n = omega arith in ap (λ k. replicate k c) same
replicate-append (suc m) n c =
    let same : suc (m + n) ≡ suc m + n = omega arith in
    ap (λ t. c ∷ t) (replicate-append m n c) ∙ ap (λ k. replicate k c) same

grow_more :
    (fuel decimals : ℕ) (r : Text)
    → ltb (length r) decimals ≡ true
    → grow_zeros (suc fuel) decimals r ≡ grow_zeros fuel decimals (r ++ r)
unfolding grow_zeros
grow_more fuel decimals r h = rw (h, grow_zeros) refl

grow_done :
    (fuel decimals : ℕ) (r : Text)
    → ltb (length r) decimals ≡ false
    → grow_zeros (suc fuel) decimals r ≡ r
unfolding grow_zeros
grow_done fuel decimals r h = rw (h, grow_zeros) refl

-- The loop gives zeros, at least as many as asked for if the fuel is.
grow_zeros_lem :
    (fuel decimals m : ℕ)
    → 0 < m
    → decimals ≤ m + fuel
    → (k : ℕ) × (grow_zeros fuel decimals (nulls m) ≡ nulls k) × (decimals ≤ k)
unfolding grow_zeros
grow_zeros_lem zero decimals m p h = (m, refl, omega arith)
grow_zeros_lem (suc fuel) decimals m p h = elim (dec_lt m decimals) [
  | yes less ↦
      let (k, e, hk) = grow_zeros_lem fuel decimals (m + m) (omega arith) (omega arith) in
      (
        k,
        grow_more fuel decimals (nulls m) (lt→ltb (length (nulls m)) decimals (omega (arith, size)))
            ∙ ap (grow_zeros fuel decimals) (replicate-append m m b'0')
            ∙ e,
        hk,
      )
  | no enough ↦ (
    m,
    grow_done fuel decimals (nulls m) (le→ltb (length (nulls m)) decimals (omega (arith, size))),
    omega arith,
  )
]
  where
    size : length (nulls m) ≡ m
    size = length-replicate {A = ℕ} m b'0'

pub take-replicate : (d k : ℕ) (c : ℕ) → d ≤ k → take d (replicate k c) ≡ replicate d c
take-replicate zero k c h = refl
take-replicate (suc d) zero c h = absurd (omega arith)
take-replicate (suc d) (suc k) c h = ap (λ t. c ∷ t) (take-replicate d k c (omega arith))

-- Zeros behind a number multiply it.
pub spelled_zeros : (n d : ℕ) → of_digits 10 hex_value n (nulls d) ≡ n * 10 ^ d
spelled_zeros n zero = omega (arith, pow-zero 10)
spelled_zeros n (suc d) =
    spelled_zeros (n * 10 + 0) d ∙ tenfold (10 ^ d) (10 ^ suc d) (pow-suc 10 d)
  where
    tenfold : (p q : ℕ) → q ≡ p * 10 → (n * 10 + 0) * p ≡ n * q
    tenfold p q h = rw h (grind arith)

-- `getTens` of a number of decimals is the power of ten, also beyond the zeros at hand.
pub get_tens-pow : (decimals : ℕ) → get_tens decimals ≡ 10 ^ decimals
unfolding get_tens
get_tens-pow decimals =
    let (k, e, h) = grow_zeros_lem decimals decimals 128 (omega arith) (omega arith) in
    ap (λ t. of_digits 10 hex_value 1 (take decimals t)) e
    ∙ ap (of_digits 10 hex_value 1) (take-replicate decimals k b'0' h)
    ∙ spelled_zeros 1 decimals
    ∙ omega arith

pub power_positive : (d : ℕ) → 0 < 10 ^ d
power_positive zero = omega (arith, pow-zero 10)
power_positive (suc d) = omega (arith, pow-suc 10 d, power_positive d)

pub tens_positive : (decimals : ℕ) → 0 < get_tens decimals
tens_positive d = omega (arith, get_tens-pow d, power_positive d)
