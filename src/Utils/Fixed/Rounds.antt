-- ===== src/Utils/Fixed/Rounds.antt =====
-- `floor`, `ceiling` and `round` of FixedNumber in src.ts/utils/fixednumber.ts.
use corebc_js.Common.Integers.Division.{neg_ℕ-*ℤ-pos}
use corebc_js.Utils.Fixed.Formats.{Format}
use corebc_js.Utils.Fixed.Number.{FixedNumber, new_fixed, floor, ceiling, rounded, round, round_to}
use corebc_js.Utils.Fixed.Bounds.{
  Fits, Settles, exact, least, overflow, check_by-Settles, Inner-Fits,
}
use corebc_js.Utils.Fixed.Values.{check_value}
use corebc_js.Utils.Maths.{half_range}
use corebc_js.Utils.Fixed.Arithmetic.{Stored, checked-Stored}
use corebc_js.Utils.Fixed.Tens.{get_tens-pow, power_positive}
use native.Mathlib.Nat.{div-add-mod', mod-lt, div-eq_of_lt, pow-suc}
use native.Mathlib.Decide.{dec_le}
use corebc_js.Common.{
  ℕ, zero, suc, ◌+◌, ◌*◌, ◌/◌, ◌^◌, ◌≤◌, ◌<◌, arith, ◌≡◌, refl, sym, ◌∙◌, ◌-◌, true, some, lt→leb,
  Result, ◌>>=◌, ok, err, numeric_fault, ap, le→leb,
}
use corebc_js.Common.Integers.{
  ℤ, pos, negsuc, pos_part, neg_part, sub_ℕ, neg_ℕ, ◌+ℤ◌, ◌*ℤ◌, tdiv, pos-+ℤ,
}
use mathlib.Core.Path.{subst}

zero_div : (m : ℕ) → 0 / m * m ≡ 0
zero_div m = omega (arith, div-add-mod' 0 m)

cut_pos : (n m : ℕ) → tdiv (pos n) (pos m) *ℤ pos m ≡ pos (n / m * m)
unfolding tdiv ◌*ℤ◌
cut_pos n m = refl

cut_neg : (n m : ℕ) → tdiv (negsuc n) (pos m) *ℤ pos m ≡ neg_ℕ (suc n / m * m)
unfolding tdiv
cut_neg n m = neg_ℕ-*ℤ-pos (suc n / m) m

parts : (n : ℕ) → (pos_part (neg_ℕ n) ≡ 0) × (neg_part (neg_ℕ n) ≡ n)
parts zero = (refl, refl)
parts (suc n) = (refl, refl)

-- Cut towards 0 to a multiple of m.
cut :
    (z : ℤ) (m : ℕ)
    → (pos_part (tdiv z (pos m) *ℤ pos m) ≡ pos_part z / m * m)
      × (neg_part (tdiv z (pos m) *ℤ pos m) ≡ neg_part z / m * m)
cut (pos n) m = rw (cut_pos n m) (refl, sym (zero_div m))
cut (negsuc n) m =
    rw (cut_neg n m) ((parts (suc n / m * m)).0 ∙ sym (zero_div m), (parts (suc n / m * m)).1)

-- For any number: floor and ceiling are one function, of negative numbers too. Both check the value
-- that is left where the positive or the negative part is cut down to a multiple of the tens.
pub floor-Stored :
    (a : FixedNumber)
    → (r : ℤ) × Stored a.format r (floor a)
      × (ceiling a ≡ floor a)
      × (pos_part r ≡ pos_part a.value / a.tens * a.tens)
      × (neg_part r ≡ neg_part a.value / a.tens * a.tens)
unfolding floor ceiling
floor-Stored a =
    let r = tdiv a.value (pos a.tens) *ℤ pos a.tens in
    let (p, n) = cut a.value a.tens in (r, checked-Stored r a.format, refl, p, n)

sum_neg : (n h : ℕ) → negsuc n +ℤ pos h ≡ sub_ℕ h (suc n)
unfolding ◌+ℤ◌
sum_neg n h = ground arith

-- A value and what it is rounded to, by multiples of t, with h half of t: a value that is not
-- negative goes to the nearest multiple, at a tie to the upper one. A negative value goes to 0 if it
-- is at most h below it; a lower one goes to the next multiple above value + h.
pub data Rounding (t h : ℕ) : ℤ → ℤ → Type 0 where
  nearest : {n : ℕ} (q : ℕ) → q * t ≤ n + h → n < q * t + h → Rounding t h (pos n) (pos (q * t))
  vanishing : {n : ℕ} → suc n ≤ h → Rounding t h (negsuc n) (pos 0)
  too_high :
      {n : ℕ} (q : ℕ)
      → q * t + h ≤ suc n
      → suc n < q * t + h + t
      → Rounding t h (negsuc n) (neg_ℕ (q * t))

cut_sub :
    (t h n : ℕ)
    → 0 < h
    → t ≡ h + h
    → Rounding t h (negsuc n) (tdiv (sub_ℕ h (suc n)) (pos t) *ℤ pos t)
cut_sub t h n p e = elim (dec_le (suc n) h) [
  | yes low ↦
      let none : (h - suc n) / t ≡ 0 = div-eq_of_lt small in
      rw (le→leb (suc n) h low) (
        subst (Rounding t h (negsuc n))
          (sym (cut_pos (h - suc n) t ∙ ap (λ q. pos (q * t)) none ∙ ap pos (zero_mul t)))
          (vanishing low))
  | no high ↦
      let m = suc (suc n - h - 1) in
      let whole = div-add-mod' m t in
      rw (lt→leb (suc n) h (omega arith), cut_neg (suc n - h - 1) t)
        (too_high (m / t) (omega arith) (omega (arith, mod-lt m {m = t} (omega arith))))
]
  where
    small : h - suc n < t
    small = omega arith

    zero_mul : (t : ℕ) → 0 * t ≡ 0
    zero_mul t = omega arith

rounded-Rounding :
    (t h : ℕ) (z : ℤ) → 0 < h → t ≡ h + h → Rounding t h z (tdiv (z +ℤ pos h) (pos t) *ℤ pos t)
rounded-Rounding t h (pos n) p e =
    rw (pos-+ℤ n h, cut_pos (n + h) t)
      (nearest ((n + h) / t) (omega (arith, div-add-mod' (n + h) t))
        (omega (arith, div-add-mod' (n + h) t, mod-lt (n + h) {m = t} (omega arith))))
rounded-Rounding t h (negsuc n) p e = rw (sum_neg n h) (cut_sub t h n p e)

-- What a value comes to that is checked and then used as it is.
pub data Passed (f : Format) (z : ℤ) : Result FixedNumber → Type 0 where
  passed : Fits f.signed f.width z → Passed f z (ok (new_fixed z f))
  refused : ¬ Fits f.signed f.width z → Passed f z (err numeric_fault)

pub check_value-Passed :
    (z : ℤ) (f : Format) → Passed f z (check_value z f true >>= λ v. ok (new_fixed z f))
unfolding check_value
check_value-Passed z f = pass (check_by-Settles f.signed f.width z)
  where
    least_fits :
        {n : ℕ} → f.signed ≡ true → suc n ≡ half_range f.width → Fits f.signed f.width (negsuc n)
    least_fits s h = rw s (omega arith)

    pass :
        {z : ℤ} {r : Result ℤ}
        → Settles f.signed f.width z r
        → Passed f z (r >>= λ v. ok (new_fixed z f))
    pass {z} (exact h) = passed (Inner-Fits f.signed f.width z h)
    pass {z} (least s h) = passed (least_fits s h)
    pass (overflow h) = refused h

-- Of round at fewer decimals than the format has: the value is rounded as Rounding tells, which for
-- a negative value more than half a place below 0 is not to the nearest one but at a tie. A result
-- outside the field is a NUMERIC_FAULT.
pub round-Rounding :
    (a : FixedNumber) (d k : ℕ)
    → a.format.decimals ≡ d + suc k
    → (r : ℤ) × Rounding (10 ^ suc k) (5 * 10 ^ k) a.value r × Passed a.format r (round a (some d))
unfolding round round_to rounded
round-Rounding a d k e =
    let cut_off : a.format.decimals - d ≡ suc k = omega arith in
    let before : suc k - 1 ≡ k = omega arith in
    (
      rounded a.value (a.format.decimals - d),
      rw (cut_off, get_tens-pow (suc k), before, get_tens-pow k)
          (rounded-Rounding (10 ^ suc k) (5 * 10 ^ k) a.value (omega (arith, power_positive k))
            (omega (arith, pow-suc 10 k))),
      rw (lt→leb a.format.decimals d (omega arith))
          (check_value-Passed (rounded a.value (a.format.decimals - d)) a.format),
    )
