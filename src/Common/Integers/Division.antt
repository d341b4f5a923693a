-- ===== src/Common/Integers/Division.antt =====
-- Products and quotients of integers, as BigInt has them.
use Prim.Native.Nat.{ℕ, zero, suc, ◌*◌, ◌/◌, ◌%◌}
use mathlib.Core.Path.{◌≡◌, refl, sym, ap, ◌∙◌}
use native.Mathlib.Omega.{arith}
use native.Mathlib.Nat.{div-add-mod', mul-mod_left}
use corebc_js.Common.Integers.{ℤ, pos, negsuc, nat_abs, neg_ℕ, ◌*ℤ◌, tdiv, tmod}

nat_abs-neg_ℕ : (n : ℕ) → nat_abs (neg_ℕ n) ≡ n
nat_abs-neg_ℕ zero = refl
nat_abs-neg_ℕ (suc n) = refl

pub nat_abs-*ℤ : (a b : ℤ) → nat_abs (a *ℤ b) ≡ nat_abs a * nat_abs b
unfolding ◌*ℤ◌
nat_abs-*ℤ (pos m) (pos n) = refl
nat_abs-*ℤ (pos m) (negsuc n) = nat_abs-neg_ℕ (m * suc n)
nat_abs-*ℤ (negsuc m) (pos n) = nat_abs-neg_ℕ (suc m * n)
nat_abs-*ℤ (negsuc m) (negsuc n) = refl

pub nat_abs-tmod : (a b : ℤ) → nat_abs (tmod a b) ≡ nat_abs a % nat_abs b
unfolding tmod
nat_abs-tmod (pos m) b = refl
nat_abs-tmod (negsuc m) b = nat_abs-neg_ℕ (suc m % nat_abs b)

pub neg_ℕ-*ℤ-pos : (q n : ℕ) → neg_ℕ q *ℤ pos n ≡ neg_ℕ (q * n)
unfolding ◌*ℤ◌
neg_ℕ-*ℤ-pos zero n = let none : 0 * n ≡ 0 = omega arith in rw none refl
neg_ℕ-*ℤ-pos (suc q) n = refl

neg_ℕ-*ℤ-negsuc : (q n : ℕ) → neg_ℕ q *ℤ negsuc n ≡ pos (q * suc n)
unfolding ◌*ℤ◌
neg_ℕ-*ℤ-negsuc zero n = let none : 0 * suc n ≡ 0 = omega arith in rw none refl
neg_ℕ-*ℤ-negsuc (suc q) n = refl

-- A quotient without a remainder.
whole : (m n : ℕ) → m % n ≡ 0 → m / n * n ≡ m
whole m n h = omega (arith, h, div-add-mod' m n)

tdiv_whole : (a b : ℤ) → nat_abs a % nat_abs b ≡ 0 → tdiv a b *ℤ b ≡ a
unfolding tdiv ◌*ℤ◌
tdiv_whole (pos m) (pos n) h = ap pos (whole m n h)
tdiv_whole (pos m) (negsuc n) h = neg_ℕ-*ℤ-negsuc (m / suc n) n ∙ ap pos (whole m (suc n) h)
tdiv_whole (negsuc m) (pos n) h = neg_ℕ-*ℤ-pos (suc m / n) n ∙ ap neg_ℕ (whole (suc m) n h)
tdiv_whole (negsuc m) (negsuc n) h = ap neg_ℕ (whole (suc m) (suc n) h)

pub tdiv-*ℤ : (a b : ℤ) → nat_abs (tmod a b) ≡ 0 → tdiv a b *ℤ b ≡ a
tdiv-*ℤ a b h = tdiv_whole a b (sym (nat_abs-tmod a b) ∙ h)

-- The remainder tells whether there is a quotient.
pub tmod-*ℤ : (v b : ℤ) → nat_abs (tmod (v *ℤ b) b) ≡ 0
tmod-*ℤ v b =
    nat_abs-tmod (v *ℤ b) b
    ∙ ap (λ t. t % nat_abs b) (nat_abs-*ℤ v b)
    ∙ mul-mod_left (nat_abs v) (nat_abs b)
