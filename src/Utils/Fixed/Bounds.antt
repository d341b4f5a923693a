-- ===== src/Utils/Fixed/Bounds.antt =====
-- `checkValue` of src.ts/utils/fixednumber.ts: the values that it lets through, and what it makes of
-- them.
use corebc_js.Utils.Maths.{bigint, negate, from_twos, mask, get_uint, half_range}
use corebc_js.Utils.Maths.Twos.{
  InRange, range_double, range_positive, from_twos_low, from_twos_high,
}
use corebc_js.Utils.Fixed.Values.{wrapped, signed_value, unsigned_value, check_by}
use native.Mathlib.Nat.{mod-mod, add-mod_right, mod-eq_of_lt, mod-lt}
use native.Mathlib.Decide.{dec_lt, ℕ_discrete}
use corebc_js.Common.{
  ℕ, suc, ◌-◌, ◌^◌, ◌<◌, arith, ◌≡◌, ◌∙◌, ap, Bool, true, false, Result, ok, err, numeric_fault,
  zero, ◌+◌, refl, lt→ltb, le→ltb, le→leb, lt→leb, ◌>>=◌, ◌%◌, ◌*◌,
}
use corebc_js.Common.Integers.{ℤ, pos, negsuc, tmod, pos_part, neg_part, pos-+ℤ, neg_ℕ-+ℤ}

mod_low : (w n : ℕ) → n < 2 ^ w → n % 2 ^ suc w ≡ n
mod_low w n h = let small : n < 2 ^ suc w = omega (arith, range_double w) in mod-eq_of_lt small

mod_half : (w : ℕ) → 2 ^ w % 2 ^ suc w ≡ 2 ^ w
mod_half w =
    let small : 2 ^ w < 2 ^ suc w = omega (arith, range_double w, range_positive w) in
    mod-eq_of_lt small

pub wrapped_low : (w n : ℕ) → n < 2 ^ w → wrapped n (suc w) ≡ ok (pos n)
unfolding wrapped mask get_uint
wrapped_low w n h =
    ap (λ r. from_twos (bigint (pos r)) (suc w)) (mod_low w n h) ∙ from_twos_low w n h

wrapped_half : (w : ℕ) → wrapped (2 ^ w) (suc w) ≡ ok (negsuc (2 ^ w - 1))
unfolding wrapped mask get_uint
wrapped_half w =
    let double = range_double w in
    let one = range_positive w in
    ap (λ r. from_twos (bigint (pos r)) (suc w)) (mod_half w)
    ∙ from_twos_high w (2 ^ w) (omega arith) (omega arith)
    ∙ ap (λ n. ok (negsuc n)) (omega arith)

-- The values of a field: those of `width` bits in two's complement, or the naturals below
-- 2 ^ width.
abbrev pub Fits : Bool → ℕ → ℤ → Type 0
Fits true width z = InRange width z
Fits false width (pos n) = n < 2 ^ width
Fits false width (negsuc n) = n < 0

pub dec_Fits : (signed : Bool) (width : ℕ) (z : ℤ) → Dec (Fits signed width z)
dec_Fits true width (pos n) = dec_lt n (half_range width)
dec_Fits true width (negsuc n) = dec_lt n (half_range width)
dec_Fits false width (pos n) = dec_lt n (2 ^ width)
dec_Fits false width (negsuc n) = dec_lt n 0

-- Those that the check leaves as they are.
abbrev pub Inner : Bool → ℕ → ℤ → Type 0
Inner true width (pos n) = n < half_range width
Inner true width (negsuc n) = suc n < half_range width
Inner false width z = Fits false width z

-- What a checked value comes to. The least value of a signed field fits, and comes back without its
-- sign.
pub data Settles (signed : Bool) (width : ℕ) : ℤ → Result ℤ → Type 0 where
  exact : {z : ℤ} → Inner signed width z → Settles signed width z (ok z)
  least :
      {n : ℕ}
      → signed ≡ true
      → suc n ≡ half_range width
      → Settles signed width (negsuc n) (ok (pos (suc n)))
  overflow : {z : ℤ} → ¬ Fits signed width z → Settles signed width z (err numeric_fault)

signed_pos : (w n : ℕ) → n < 2 ^ w → signed_value (pos n) (suc w) ≡ ok (pos n)
unfolding signed_value
signed_pos w zero h = ap (λ r. r >>= λ v. ok (negate v)) (wrapped_low w 0 h)
signed_pos w (suc n) h = wrapped_low w (suc n) h

signed_neg : (w n : ℕ) → suc n < 2 ^ w → signed_value (negsuc n) (suc w) ≡ ok (negsuc n)
unfolding signed_value
signed_neg w n h = ap (λ r. r >>= λ v. ok (negate v)) (wrapped_low w (suc n) h)

signed_least : (w n : ℕ) → suc n ≡ 2 ^ w → signed_value (negsuc n) (suc w) ≡ ok (pos (suc n))
unfolding signed_value
signed_least w n h =
    ap (λ m. wrapped m (suc w) >>= λ v. ok (negate v)) h
    ∙ ap (λ r. r >>= λ v. ok (negate v)) (wrapped_half w)
    ∙ ap (λ m. ok (pos m)) (omega (arith, range_positive w))

-- y and z differ by a multiple of m.
abbrev pub Congruent : ℕ → ℤ → ℤ → Type 0
Congruent m y z =
    (a : ℕ) × (b : ℕ) × (pos_part y + neg_part z + a * m ≡ pos_part z + neg_part y + b * m)

pub unsigned_pos : (m n : ℕ) → 0 < m → unsigned_value (pos n) m ≡ pos (n % m)
unfolding unsigned_value tmod
unsigned_pos m n h =
    rw (pos-+ℤ (n % m) m, add-mod_right (n % m) m, mod-mod n m) (ap pos (mod-mod n m))

pub unsigned_neg : (m n : ℕ) → 0 < m → unsigned_value (negsuc n) m ≡ pos ((m - suc n % m) % m)
unfolding unsigned_value tmod
unsigned_neg m n h =
    let low = mod-lt (suc n) {m = m} h in
    rw (neg_ℕ-+ℤ (suc n % m) m (omega arith), mod-mod (m - suc n % m) m) refl

unsigned_value_same : (w n : ℕ) → n < 2 ^ w → unsigned_value (pos n) (2 ^ w) ≡ pos n
unsigned_value_same w n h = unsigned_pos (2 ^ w) n (range_positive w) ∙ ap pos (mod-eq_of_lt h)

pub check_by-Settles :
    (signed : Bool) (width : ℕ) (z : ℤ) → Settles signed width z (check_by signed z width true)
unfolding check_by
check_by-Settles true zero (pos n) = rw (le→ltb n 0 (omega arith)) (overflow (λ h. omega arith))
check_by-Settles true zero (negsuc n) =
    rw (lt→leb (n + 1) 0 (omega arith)) (overflow (λ h. omega arith))
check_by-Settles true (suc w) (pos n) = elim (dec_lt n (2 ^ w)) [
  | yes h ↦ rw (lt→ltb n (2 ^ w) h, signed_pos w n h) (exact h)
  | no h ↦ rw (le→ltb n (2 ^ w) (omega arith)) (overflow h)
]
check_by-Settles true (suc w) (negsuc n) = elim (dec_lt (suc n) (2 ^ w)) [
  | yes h ↦ rw (le→leb (n + 1) (2 ^ w) (omega arith), signed_neg w n h) (exact h)
  | no h ↦ elim (ℕ_discrete (suc n) (2 ^ w)) [
    | yes e ↦ rw (le→leb (n + 1) (2 ^ w) (omega arith), signed_least w n e) (least refl e)
    | no e ↦ rw (lt→leb (n + 1) (2 ^ w) (omega arith)) (overflow (λ k. omega arith))
  ]
]
check_by-Settles false w (pos n) = elim (dec_lt n (2 ^ w)) [
  | yes h ↦ rw (lt→ltb n (2 ^ w) h, unsigned_value_same w n h) (exact h)
  | no h ↦ rw (le→ltb n (2 ^ w) (omega arith)) (overflow h)
]
check_by-Settles false w (negsuc n) = overflow (λ h. omega arith)

pub Inner-Fits : (signed : Bool) (width : ℕ) (z : ℤ) → Inner signed width z → Fits signed width z
Inner-Fits true width (pos n) h = h
Inner-Fits true width (negsuc n) h = omega arith
Inner-Fits false width z h = h
