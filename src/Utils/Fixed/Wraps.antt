-- ===== src/Utils/Fixed/Wraps.antt =====
-- `checkValue` of src.ts/utils/fixednumber.ts without `safeOp`: the value of an unsafe operation.
use corebc_js.Utils.Maths.{bigint, negate, from_twos, mask, get_uint, half_range}
use corebc_js.Utils.Maths.Twos.{range_double, range_positive, from_twos_low, from_twos_high}
use corebc_js.Utils.Fixed.Values.{wrapped, signed_value, unsigned_value, check_by}
use corebc_js.Utils.Fixed.Bounds.{unsigned_pos, unsigned_neg, Fits, Congruent}
use native.Mathlib.Nat.{mod-lt, mod-one, div-add-mod'}
use native.Mathlib.Decide.{dec_lt}
use corebc_js.Common.{
  ℕ, zero, suc, ◌+◌, ◌-◌, ◌/◌, ◌%◌, ◌^◌, ◌≤◌, ◌<◌, arith, ◌≡◌, refl, ◌∙◌, ap, Bool, true, false,
  ◌>>=◌, ok,
}
use corebc_js.Common.Integers.{ℤ, pos, negsuc, nat_abs, neg_ℕ}

-- What an unsafe operation leaves a value in; a signed field gets one value too many.
abbrev pub Wide : Bool → ℕ → ℤ → Type 0
Wide true width z = nat_abs z ≤ half_range width
Wide false width z = Fits false width z

wrapped_mod : (w n : ℕ) → wrapped n w ≡ from_twos (bigint (pos (n % 2 ^ w))) w
unfolding wrapped mask get_uint
wrapped_mod w n = refl

wrapped-Congruent :
    (w n : ℕ) → (r : ℤ) × (wrapped n w ≡ ok r) × Congruent (2 ^ w) r (pos n) × Wide true w r
wrapped-Congruent zero n = (
  pos 0,
  wrapped_mod 0 n ∙ ap (λ v. from_twos (bigint (pos v)) 0) (mod-one n) ∙ zero_wide,
  (n, 0, omega arith),
  omega arith,
)
  where
    zero_wide : from_twos (bigint (pos 0)) 0 ≡ ok (pos 0)
    zero_wide = unfold from_twos in unfold get_uint in refl
wrapped-Congruent (suc w) n =
    let p = 2 ^ suc w in
    let r = n % p in
    let q = n / p in
    let whole = div-add-mod' n p in
    let double = range_double w in
    let small : r < p = mod-lt n {m = p} (range_positive (suc w)) in
    elim (dec_lt r (2 ^ w)) [
      | yes h ↦
          (pos r, wrapped_mod (suc w) n ∙ from_twos_low w r h, (q, 0, omega arith), omega arith)
      | no h ↦ (
        negsuc (p - 1 - r),
        wrapped_mod (suc w) n ∙ from_twos_high w r (omega arith) small,
        (q + 1, 0, grind arith),
        omega arith,
      )
    ]

negate-Congruent : (m n : ℕ) (r : ℤ) → Congruent m r (pos n) → Congruent m (negate r) (neg_ℕ n)
negate-Congruent m n r (a, b, e) = (b, a, ground arith)

nat_abs-negate : (r : ℤ) → nat_abs (negate r) ≡ nat_abs r
nat_abs-negate r = ground arith

signed_value-Congruent :
    (w : ℕ) (z : ℤ) → (r : ℤ) × (signed_value z w ≡ ok r) × Congruent (2 ^ w) r z × Wide true w r
unfolding signed_value
signed_value-Congruent w (pos (suc n)) = wrapped-Congruent w (suc n)
signed_value-Congruent w (pos zero) =
    let (r, e, c, h) = wrapped-Congruent w 0 in
    (
      negate r,
      ap (λ v. v >>= λ x. ok (negate x)) e,
      negate-Congruent (2 ^ w) 0 r c,
      omega (arith, nat_abs-negate r),
    )
signed_value-Congruent w (negsuc n) =
    let (r, e, c, h) = wrapped-Congruent w (suc n) in
    (
      negate r,
      ap (λ v. v >>= λ x. ok (negate x)) e,
      negate-Congruent (2 ^ w) (suc n) r c,
      omega (arith, nat_abs-negate r),
    )

unsigned_value-Congruent :
    (m : ℕ) (z : ℤ)
    → 0 < m
    → (r : ℕ) × (unsigned_value z m ≡ pos r) × Congruent m (pos r) z × (r < m)
unsigned_value-Congruent m (pos n) h =
    (n % m, unsigned_pos m n h, (n / m, 0, omega (arith, div-add-mod' n m)), mod-lt n {m = m} h)
unsigned_value-Congruent m (negsuc n) h =
    let t = m - suc n % m in
    let small = mod-lt (suc n) {m = m} h in
    (
      t % m,
      unsigned_neg m n h,
      (t / m, suc n / m + 1, grind (arith, div-add-mod' (suc n) m, div-add-mod' t m)),
      mod-lt t {m = m} h,
    )

-- For every field and every integer: the check without a named operation gives an integer that
-- differs from the given one by a multiple of 2 ^ width. It is below 2 ^ width and not negative in
-- an unsigned field, and of a magnitude of at most 2 ^ (width - 1) in a signed one.
pub check_by-Wide :
    (signed : Bool) (width : ℕ) (z : ℤ)
    → (r : ℤ) × (check_by signed z width false ≡ ok r)
      × Congruent (2 ^ width) r z
      × Wide signed width r
unfolding check_by
check_by-Wide true width z = signed_value-Congruent width z
check_by-Wide false width z =
    let (r, e, c, h) = unsigned_value-Congruent (2 ^ width) z (range_positive width) in
    (pos r, ap ok e, c, h)
