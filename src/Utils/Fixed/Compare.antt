-- ===== src/Utils/Fixed/Compare.antt =====
-- The comparisons of FixedNumber in src.ts/utils/fixednumber.ts.
use corebc_js.Utils.Fixed.Formats.{get_tens}
use corebc_js.Utils.Fixed.Number.{FixedNumber, compare_values, coerced, cmp, eq, lt, lte, gt, gte}
use corebc_js.Utils.Fixed.Tens.{get_tens-pow, tens_positive}
use native.Mathlib.Nat.{pow-zero, pow-suc, mul_assoc, eq_of_mul-eq-mul_right}
use native.Mathlib.Decide.{dec_lt}
use corebc_js.Common.{
  ℕ, ◌*◌, ◌^◌, ◌<◌, arith, ◌≡◌, ◌↔◌, sym, ◌∙◌, ap, true, false, not, zero, suc, ◌+◌, ◌-◌, ◌≤◌, ◌≢◌,
  ◌⊎◌, refl, inl, inr, lt→ltb, le→ltb, ltb, if◌then◌else◌,
}
use corebc_js.Common.Integers.{ℤ, pos, pos_part, neg_part, ◌*ℤ◌, negsuc}
use mathlib.Core.Path.{subst}

-- The two numbers stand for one decimal fraction.
abbrev pub IsSame : FixedNumber → FixedNumber → Type 0
IsSame a b = a.value *ℤ pos (10 ^ b.format.decimals) ≡ b.value *ℤ pos (10 ^ a.format.decimals)

pos_part-*ℤ : (a : ℤ) (n : ℕ) → pos_part (a *ℤ pos n) ≡ pos_part a * n
unfolding ◌*ℤ◌
pos_part-*ℤ a n = ground arith

neg_part-*ℤ : (a : ℤ) (n : ℕ) → neg_part (a *ℤ pos n) ≡ neg_part a * n
unfolding ◌*ℤ◌
neg_part-*ℤ a n = ground arith

eq_of_parts : (a b : ℤ) → pos_part a ≡ pos_part b → neg_part a ≡ neg_part b → a ≡ b
eq_of_parts a b h k = ground arith

-- A factor of both sides, of a part of an integer.
module _ (part : ℤ → ℕ) (part-*ℤ : (a : ℤ) (n : ℕ) → part (a *ℤ pos n) ≡ part a * n) where
  scaled : (a b : ℤ) (p q : ℕ) → a *ℤ pos p ≡ b → part (a *ℤ pos (p * q)) ≡ part (b *ℤ pos q)
  scaled a b p q e =
      part-*ℤ a (p * q)
      ∙ sym (mul_assoc (part a) p q)
      ∙ ap (λ t. t * q) (sym (part-*ℤ a p) ∙ ap part e)
      ∙ sym (part-*ℤ b q)

  unscaled :
      (a b : ℤ) (p q : ℕ) → 0 < q → a *ℤ pos (p * q) ≡ b *ℤ pos q → part (a *ℤ pos p) ≡ part b
  unscaled a b p q h e =
      part-*ℤ a p
      ∙ eq_of_mul-eq-mul_right q h (part a * p) (part b)
          (mul_assoc (part a) p q ∙ sym (part-*ℤ a (p * q)) ∙ ap part e ∙ part-*ℤ b q)

scale : (a b : ℤ) (p q : ℕ) → 0 < q → (a *ℤ pos p ≡ b) ↔ (a *ℤ pos (p * q) ≡ b *ℤ pos q)
scale a b p q h = (
  λ e.
      eq_of_parts (a *ℤ pos (p * q)) (b *ℤ pos q) (scaled pos_part pos_part-*ℤ a b p q e)
        (scaled neg_part neg_part-*ℤ a b p q e),
  λ e.
      eq_of_parts (a *ℤ pos p) b (unscaled pos_part pos_part-*ℤ a b p q h e)
        (unscaled neg_part neg_part-*ℤ a b p q h e),
)

ten_power : (m n : ℕ) → 10 ^ (m + n) ≡ 10 ^ m * 10 ^ n
ten_power zero n = ap (λ k. 10 ^ k) none ∙ one
  where
    none : 0 + n ≡ n
    none = omega arith

    one : 10 ^ n ≡ 10 ^ 0 * 10 ^ n
    one = rw (pow-zero 10) (omega arith)
ten_power (suc m) n =
    ap (λ k. 10 ^ k) next
    ∙ pow-suc 10 (m + n)
    ∙ tenfold (10 ^ (m + n)) (10 ^ m) (10 ^ n) (ten_power m n)
    ∙ ap (λ k. k * 10 ^ n) (sym (pow-suc 10 m))
  where
    next : suc m + n ≡ suc (m + n)
    next = omega arith

    tenfold : (r p q : ℕ) → r ≡ p * q → r * 10 ≡ p * 10 * q
    tenfold r p q h = rw h (grind arith)

coerced-IsSame :
    (a b : ℤ) (d e : ℕ)
    → d ≤ e
    → (a *ℤ pos (get_tens (e - d)) ≡ b) ↔ (a *ℤ pos (10 ^ e) ≡ b *ℤ pos (10 ^ d))
coerced-IsSame a b d e h =
    let split : 10 ^ e ≡ 10 ^ (e - d) * 10 ^ d =
      ap (λ k. 10 ^ k) (omega arith) ∙ ten_power (e - d) d in
    rw (get_tens-pow (e - d), split)
      (scale a b (10 ^ (e - d)) (10 ^ d) (omega (arith, get_tens-pow d, tens_positive d)))

compare_cases :
    (x y : ℤ)
    → ((x ≡ y) × (compare_values x y ≡ pos 0)) ⊎ ((x ≢ y) × (compare_values x y ≡ negsuc 0))
compare_cases x y = elim (dec_lt (pos_part x + neg_part y) (pos_part y + neg_part x)) [
  | yes h ↦ inr (
    λ e. omega (arith, ap pos_part e, ap neg_part e),
    rw (lt→ltb (pos_part x + neg_part y) (pos_part y + neg_part x) h) refl,
  )
  | no h ↦ elim (dec_lt (pos_part y + neg_part x) (pos_part x + neg_part y)) [
    | yes k ↦ inr (
      λ e. omega (arith, ap pos_part e, ap neg_part e),
      rw
          (
            le→ltb (pos_part x + neg_part y) (pos_part y + neg_part x) (omega arith),
            lt→ltb (pos_part y + neg_part x) (pos_part x + neg_part y) k,
          )
          refl,
    )
    | no k ↦ inl (
      eq_of_sums x y (omega arith),
      rw
          (
            le→ltb (pos_part x + neg_part y) (pos_part y + neg_part x) (omega arith),
            le→ltb (pos_part y + neg_part x) (pos_part x + neg_part y) (omega arith),
          )
          refl,
    )
  ]
]
  where
    eq_of_sums : (x y : ℤ) → pos_part x + neg_part y ≡ pos_part y + neg_part x → x ≡ y
    eq_of_sums x y h = ground arith

one_times : (a : ℤ) → a *ℤ pos (get_tens 0) ≡ a
one_times a =
    rw (get_tens-pow 0, pow-zero 10)
      (eq_of_parts (a *ℤ pos 1) a (pos_part-*ℤ a 1 ∙ omega arith) (neg_part-*ℤ a 1 ∙ omega arith))

coerced_lem : (a b : FixedNumber) → (coerced a b ≡ coerced b a) ↔ IsSame a b
coerced_lem a b = split a.value b.value a.format.decimals b.format.decimals
  where
    split :
        (u v : ℤ) (d e : ℕ)
        → ((if ltb d e then u *ℤ pos (get_tens (e - d)) else u)
            ≡ (if ltb e d then v *ℤ pos (get_tens (d - e)) else v))
          ↔ (u *ℤ pos (10 ^ e) ≡ v *ℤ pos (10 ^ d))
    split u v d e = elim (dec_lt d e) [
      | yes h ↦ rw (lt→ltb d e h, le→ltb e d (omega arith)) (coerced-IsSame u v d e (omega arith))
      | no h ↦ elim (dec_lt e d) [
        | yes k ↦
            let same = coerced-IsSame v u e d (omega arith) in
            rw (le→ltb d e (omega arith), lt→ltb e d k)
              ((λ p. sym (same.0 (sym p)), λ p. sym (same.1 (sym p))))
        | no k ↦
            let gap : e - d ≡ 0 = omega arith in
            rw (le→ltb d e (omega arith), le→ltb e d (omega arith))
              (subst (λ w. (w ≡ v) ↔ (u *ℤ pos (10 ^ e) ≡ v *ℤ pos (10 ^ d)))
                (ap (λ n. u *ℤ pos (get_tens n)) gap ∙ one_times u)
                (coerced-IsSame u v d e (omega arith)))
      ]
    ]

-- For any two numbers: eq tells whether they stand for one decimal fraction. cmp never answers 1:
-- lt answers that two numbers are not equal, gt is false, lte is true, and gte is eq.
pub eq_iff :
    (a b : FixedNumber)
    → ((eq a b ≡ true) ↔ IsSame a b)
      × (lt a b ≡ not (eq a b))
      × (gt a b ≡ false)
      × (lte a b ≡ true)
      × (gte a b ≡ eq a b)
unfolding eq lt gt lte gte cmp
eq_iff a b = elim (compare_cases (coerced a b) (coerced b a)) [
  | inl (h, e) ↦ rw e ((λ _. (coerced_lem a b).0 h, λ _. refl), refl, refl, refl, refl)
  | inr (h, e) ↦ rw e ((λ t. cc, λ s. absurd (h ((coerced_lem a b).1 s))), refl, refl, refl, refl)
]
