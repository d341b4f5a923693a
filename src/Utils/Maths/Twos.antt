-- ===== src/Utils/Maths/Twos.antt =====
-- `toTwos` and `fromTwos` of src.ts/utils/maths.ts undo one another on the range of the width.
use native.Mathlib.Nat.{pow-suc, div-eq_of_lt, mod-eq_of_lt, mod-lt, div-add-mod}
use corebc_js.Utils.Maths.{bigint, get_big_int, get_uint, from_twos, to_twos, half_range}
use corebc_js.Common.{
  ℕ, suc, ◌/◌, ◌^◌, ◌<◌, arith, ◌≡◌, lt→ltb, ok, zero, ◌+◌, ◌-◌, ◌≤◌, ◌∙◌, ap, true, false, ◌==◌,
  le→ltb, le→leb, lt→leb, ==_iff, err, numeric_fault,
}
use corebc_js.Common.Integers.{ℤ, pos, negsuc}
use native.Mathlib.Decide.{dec_lt}

-- The integers of `w` bits, `w` not 0: -2 ^ (w - 1) to 2 ^ (w - 1) - 1.
abbrev pub InRange : ℕ → ℤ → Type 0
InRange w (pos n) = n < half_range w
InRange w (negsuc n) = n < half_range w

pub range_double : (w : ℕ) → 2 ^ suc w ≡ 2 ^ w + 2 ^ w
range_double w = omega (arith, pow-suc 2 w)

pub range_positive : (w : ℕ) → 0 < 2 ^ w
range_positive zero = omega arith
range_positive (suc w) = omega (arith, range_double w, range_positive w)

div-positive : (v p : ℕ) → 0 < p → p ≤ v → (v / p == 0) ≡ false
div-positive v p hp h = ground (arith, mod-lt v {m = p} hp, div-add-mod v p)

div-zero : (v p : ℕ) → v < p → (v / p == 0) ≡ true
div-zero v p h = (==_iff (v / p) 0).1 (div-eq_of_lt h)

pub from_twos_low : (w v : ℕ) → v < 2 ^ w → from_twos (bigint (pos v)) (suc w) ≡ ok (pos v)
unfolding from_twos get_uint
from_twos_low w v h =
    rw (div-zero v (2 ^ suc w) (omega (arith, range_double w)), div-zero v (2 ^ w) h)

pub from_twos_high :
    (w v : ℕ)
    → 2 ^ w ≤ v
    → v < 2 ^ suc w
    → from_twos (bigint (pos v)) (suc w) ≡ ok (negsuc (2 ^ suc w - 1 - v))
unfolding from_twos get_uint
from_twos_high w v lo hi =
    rw (div-zero v (2 ^ suc w) hi, div-positive v (2 ^ w) (range_positive w) lo)
      (ap (λ r. ok (negsuc (2 ^ suc w - 1 - r))) (mod-eq_of_lt hi))

from_twos_over : (w v : ℕ) → 2 ^ suc w ≤ v → from_twos (bigint (pos v)) (suc w) ≡ err numeric_fault
unfolding from_twos get_uint
from_twos_over w v h = rw (div-positive v (2 ^ suc w) (range_positive (suc w)) h)

pub to_twos_low : (w n : ℕ) → n < 2 ^ w → to_twos (bigint (pos n)) (suc w) ≡ ok n
unfolding to_twos get_big_int
to_twos_low w n h = rw (lt→ltb n (2 ^ w) h)

pub to_twos_high :
    (w n : ℕ) → n < 2 ^ w → to_twos (bigint (negsuc n)) (suc w) ≡ ok (2 ^ suc w - (n + 1))
unfolding to_twos get_big_int
to_twos_high w n h =
    let facts = range_double w in
    let one = range_positive w in
    let small : n + 1 < 2 ^ suc w = omega arith in
    rw (le→leb (n + 1) (2 ^ w) (omega arith))
      (ap (λ r. ok (2 ^ suc w - 1 - r + 1)) (mod-eq_of_lt small) ∙ ap ok (omega arith))

-- For every width but 0: an integer in the range of the width is written as a pattern below
-- 2 ^ width, from which it is read back; any other integer is a NUMERIC_FAULT.
pub from_twos-to_twos :
    (w : ℕ) (z : ℤ)
    → (InRange (suc w) z
        → ((v : ℕ) × (to_twos (bigint z) (suc w) ≡ ok v)
            × (v < 2 ^ suc w)
            × (from_twos (bigint (pos v)) (suc w) ≡ ok z)))
      × (¬ InRange (suc w) z → to_twos (bigint z) (suc w) ≡ err numeric_fault)
unfolding to_twos get_big_int
from_twos-to_twos w (pos n) = (
  λ h. (n, to_twos_low w n h, omega (arith, range_double w), from_twos_low w n h),
  λ h. rw (le→ltb n (2 ^ w) (omega arith)),
)
from_twos-to_twos w (negsuc n) = (
  λ h.
      let facts = range_double w in
      (
        2 ^ suc w - (n + 1),
        to_twos_high w n h,
        omega arith,
        from_twos_high w (2 ^ suc w - (n + 1)) (omega arith) (omega arith)
            ∙ ap (λ m. ok (negsuc m)) (omega arith),
      ),
  λ h. rw (lt→leb (n + 1) (2 ^ w) (omega arith)),
)

-- For every width but 0: a pattern below 2 ^ width is read as an integer in the range, which is
-- written as that pattern; any larger value is a NUMERIC_FAULT.
pub to_twos-from_twos :
    (w v : ℕ)
    → (v < 2 ^ suc w
        → ((z : ℤ) × (from_twos (bigint (pos v)) (suc w) ≡ ok z)
            × InRange (suc w) z
            × (to_twos (bigint z) (suc w) ≡ ok v)))
      × (2 ^ suc w ≤ v → from_twos (bigint (pos v)) (suc w) ≡ err numeric_fault)
to_twos-from_twos w v = (λ h. read h, from_twos_over w v)
  where
    read :
        v < 2 ^ suc w
        → (z : ℤ) × (from_twos (bigint (pos v)) (suc w) ≡ ok z)
          × InRange (suc w) z
          × (to_twos (bigint z) (suc w) ≡ ok v)
    read h = elim (dec_lt v (2 ^ w)) [
      | yes low ↦ (pos v, from_twos_low w v low, low, to_twos_low w v low)
      | no high ↦
          let facts = range_double w in
          (
            negsuc (2 ^ suc w - 1 - v),
            from_twos_high w v (omega arith) h,
            omega arith,
            to_twos_high w (2 ^ suc w - 1 - v) (omega arith) ∙ ap ok (omega arith),
          )
    ]
