-- ===== src/Common/Bits.antt =====
-- Facts over small ranges by evaluation of every value, and the masks of one byte as arithmetic.
use Prim.Native.Nat.{ℕ, zero, suc, ◌/◌, ◌%◌, ◌<◌, bit_and}
use mathlib.Core.Path.{◌≡◌, refl}
use mathlib.Core.Bool.{Bool, true, ◌&&◌}
use native.Mathlib.Omega.{arith}
use corebc_js.Common.Tests.{◌==◌, ==_iff}

unfoldable pub all_below : ℕ → (ℕ → Bool) → Bool
all_below zero test = true
all_below (suc bound) test = let below = all_below bound test in test bound && below

pub all_below_sound :
    (bound : ℕ) (test : ℕ → Bool) (i : ℕ) → all_below bound test ≡ true → i < bound → test i ≡ true
unfolding all_below
all_below_sound zero test i checked less = absurd (omega arith)
all_below_sound (suc bound) test i checked less = ground (arith, all_below_sound bound test i)

pub eq_below :
    (n : ℕ) (f g : ℕ → ℕ) (x : ℕ) → all_below n (λ y. f y == g y) ≡ true → x < n → f x ≡ g x
eq_below n f g x h lt = (==_iff (f x) (g x)).0 (all_below_sound n (λ y. f y == g y) x h lt)

pub low_nibble : (b : ℕ) → b < 256 → bit_and b 0x0f ≡ b % 16
unfolding all_below
low_nibble b = eq_below 256 (λ y. bit_and y 0x0f) (λ y. y % 16) b refl

pub high_nibble : (b : ℕ) → b < 256 → bit_and b 0xf0 / 16 ≡ b / 16
unfolding all_below
high_nibble b = eq_below 256 (λ y. bit_and y 0xf0 / 16) (λ y. y / 16) b refl
