-- ===== src/Utils/Fixed/Arithmetic.antt =====
-- The safe operations of FixedNumber in src.ts/utils/fixednumber.ts, against exact arithmetic.
use corebc_js.Common.Integers.Division.{tdiv-*ℤ, tmod-*ℤ}
use corebc_js.Utils.Maths.{half_range}
use corebc_js.Address.{text_eq}
use corebc_js.Address.Digits.{text_eq_sound, text_eq_refl}
use corebc_js.Utils.Fixed.Formats.{Format}
use corebc_js.Utils.Fixed.Values.{check_value}
use corebc_js.Utils.Fixed.Number.{
  FixedNumber, new_fixed, check_format, checked, add, sub, mul, mul_signal, div_signal,
}
use corebc_js.Utils.Fixed.Bounds.{Fits, Inner, Settles, exact, least, overflow, check_by-Settles}
use corebc_js.Common.{
  ℕ, suc, ◌≡◌, ◌≢◌, inl, inr, true, ==_iff, Bool-cases, Result, ◌>>=◌, ◌>>◌, assert, ok, err,
  invalid_argument, numeric_fault,
}
use mathlib.Core.Path.{subst}
use corebc_js.Common.Integers.{ℤ, pos, negsuc, nat_abs, ◌+ℤ◌, ◌-ℤ◌, ◌*ℤ◌, tdiv, tmod, is_zero_ℤ}

-- What a value comes to in a format: itself, the least value without its sign, or an overflow.
pub data Stored (f : Format) : ℤ → Result FixedNumber → Type 0 where
  kept : {z : ℤ} → Inner f.signed f.width z → Stored f z (ok (new_fixed z f))
  flipped :
      {n : ℕ}
      → f.signed ≡ true
      → suc n ≡ half_range f.width
      → Stored f (negsuc n) (ok (new_fixed (pos (suc n)) f))
  refused : {z : ℤ} → ¬ Fits f.signed f.width z → Stored f z (err numeric_fault)

pub checked-Stored : (z : ℤ) (f : Format) → Stored f z (checked z f true)
unfolding checked check_value
checked-Stored z f = store (check_by-Settles f.signed f.width z)
  where
    store :
        {z : ℤ} {r : Result ℤ}
        → Settles f.signed f.width z r
        → Stored f z (r >>= λ v. ok (new_fixed v f))
    store (exact h) = kept h
    store (least s h) = flipped s h
    store (overflow h) = refused h

-- An operation on two numbers, whose exact value is the third argument.
pub data Computes (a b : FixedNumber) (z : ℤ) : Result FixedNumber → Type 0 where
  mixed : a.format.name ≢ b.format.name → Computes a b z (err invalid_argument)
  stored :
      {r : Result FixedNumber}
      → a.format.name ≡ b.format.name
      → Stored a.format z r
      → Computes a b z r

-- Behind the check of the formats.
module _ (P : Result FixedNumber → Type 0) (a b : FixedNumber) (next : Result FixedNumber) where
  formats :
      (a.format.name ≢ b.format.name → P (err invalid_argument))
      → (a.format.name ≡ b.format.name → P next)
      → P (check_format a b >> next)
  unfolding check_format
  formats differ same = elim (Bool-cases (text_eq a.format.name b.format.name)) [
    | inl e ↦ rw e (same (text_eq_sound a.format.name b.format.name e))
    | inr e ↦ rw e (
        differ λ h.
          let reflexive =
            subst (λ t. text_eq a.format.name t ≡ true) h (text_eq_refl a.format.name) in
          cc)
  ]

computes :
    (a b : FixedNumber) (z : ℤ) → Computes a b z (check_format a b >> checked z a.format true)
computes a b z =
    formats (Computes a b z) a b (checked z a.format true) mixed
      (λ h. stored h (checked-Stored z a.format))

-- For any two numbers: add, sub and mul refuse different formats, and otherwise give the exact sum,
-- the exact difference, or the product cut to the decimals, where it lies inside the field; outside
-- it they throw a NUMERIC_FAULT. The least value of a signed field comes back without its sign.
pub arithmetic-Computes :
    (a b : FixedNumber)
    → Computes a b (a.value +ℤ b.value) (add a b)
      × Computes a b (a.value -ℤ b.value) (sub a b)
      × Computes a b (tdiv (a.value *ℤ b.value) (pos a.tens)) (mul a b)
unfolding add sub mul
arithmetic-Computes a b = (
  computes a b (a.value +ℤ b.value),
  computes a b (a.value -ℤ b.value),
  computes a b (tdiv (a.value *ℤ b.value) (pos a.tens)),
)

-- A division of x by m that signals a loss of precision.
pub data Signals (a b : FixedNumber) (x m : ℤ) : Result FixedNumber → Type 0 where
  by_zero : nat_abs m ≡ 0 → Signals a b x m (err numeric_fault)
  mixed : a.format.name ≢ b.format.name → Signals a b x m (err invalid_argument)
  lost :
      a.format.name ≡ b.format.name
      → ¬ ((v : ℤ) × (v *ℤ m ≡ x))
      → Signals a b x m (err numeric_fault)
  divided :
      {r : Result FixedNumber}
      → a.format.name ≡ b.format.name
      → (v : ℤ) → v *ℤ m ≡ x
      → Stored a.format v r
      → Signals a b x m r

is_zero_sound : (z : ℤ) → is_zero_ℤ z ≡ true → nat_abs z ≡ 0
is_zero_sound z h = (==_iff (nat_abs z) 0).0 h

exact_division :
    (a b : FixedNumber) (x m : ℤ)
    → Signals a b x m (
        check_format a b
        >> (assert (is_zero_ℤ (tmod x m)) numeric_fault >> checked (tdiv x m) a.format true))
exact_division a b x m =
    formats (Signals a b x m) a b
      (assert (is_zero_ℤ (tmod x m)) numeric_fault >> checked (tdiv x m) a.format true) mixed divide
  where
    divide :
        a.format.name ≡ b.format.name
        → Signals a b x m
            (assert (is_zero_ℤ (tmod x m)) numeric_fault >> checked (tdiv x m) a.format true)
    divide h = elim (Bool-cases (is_zero_ℤ (tmod x m))) [
      | inl e ↦ rw e (
          divided h (tdiv x m) (tdiv-*ℤ x m (is_zero_sound (tmod x m) e))
            (checked-Stored (tdiv x m) a.format))
      | inr e ↦ rw e (
          lost h λ (v, p).
            let none = subst (λ t. nat_abs (tmod t m) ≡ 0) p (tmod-*ℤ v m) in
            let zero_test = (==_iff (nat_abs (tmod x m)) 0).1 none in cc)
    ]

-- For any two numbers: mulSignal and divSignal give the value that times the tens is the product,
-- or that times the divisor is the dividend at twice the decimals, checked against the field; where
-- there is no such value, where the divisor is 0, and where the formats differ, they throw.
pub signal-Signals :
    (a b : FixedNumber)
    → Signals a b (a.value *ℤ b.value) (pos a.tens) (mul_signal a b)
      × Signals a b (a.value *ℤ pos a.tens) b.value (div_signal a b)
unfolding mul_signal div_signal
signal-Signals a b = (
  exact_division a b (a.value *ℤ b.value) (pos a.tens),
  elim (Bool-cases (is_zero_ℤ b.value)) [
    | inl e ↦ rw e (by_zero (is_zero_sound b.value e))
    | inr e ↦ rw e (exact_division a b (a.value *ℤ pos a.tens) b.value)
  ],
)
