-- ===== src/Common/Radix.antt =====
-- The digits of a number in a base, written by the loops of the library that divide it down, and
-- read back from the left.
use mathlib.Core.WellFounded
use mathlib.Core.Logic.{ite, dite, if_pos, if_neg}
use mathlib.Core.WellFounded.{Acc, WellFounded, Acc-prop}
use native.Mathlib.Decide.{dec_lt}
use native.Mathlib.Nat.{div-add-mod, mod-lt, div-lt_iff_lt-mul, pow-suc, pow-zero}
use Prim.Native.Nat.{ℕ, zero, suc, ◌+◌, ◌*◌, ◌/◌, ◌%◌, ◌^◌, ◌≤◌, ◌<◌}
use mathlib.Core.Path.{◌≡◌, refl, sym, ap, ◌∙◌, subst}
use mathlib.Core.List.{List, [], ◌∷◌, ◌++◌, append_assoc}
use native.Mathlib.Omega.{arith}
use corebc_js.Common.Lists.{All, length}
use corebc_js.Common.Order.{lt_wf}

pub div-lt : (base v : ℕ) → 1 < base → 0 < v → v / base < v
div-lt base v hb hv = grind (arith, div-add-mod v base)

-- The number that digits spell in a base, behind the number `n`.
abbrev pub of_digits {ℓ} : {A : Type ℓ} → ℕ → (A → ℕ) → ℕ → List A → ℕ
of_digits base value n [] = n
of_digits base value n (c ∷ s) = of_digits base value (n * base + value c) s

pub of_digits-append {ℓ} :
    {A : Type ℓ} (base : ℕ) (value : A → ℕ) (n : ℕ) (s t : List A)
    → of_digits base value n (s ++ t) ≡ of_digits base value (of_digits base value n s) t
of_digits-append base value n [] t = refl
of_digits-append base value n (c ∷ s) t = of_digits-append base value (n * base + value c) s t

module _ {ℓ} {A : Type ℓ} (base : ℕ) (big : 1 < base) (char : ℕ → A) where
  -- `while (v) { out = char[v % base] + out; v /= base }`
  digits_loop : (v : ℕ) → Acc ◌<◌ v → List A → List A
  digits_loop v (Acc.intro _ smaller) out =
      dite (dec_lt 0 v)
        (λ h. digits_loop (v / base) (smaller _ (div-lt base v big h)) (char (v % base) ∷ out))
        (λ _. out)

  unfoldable pub digits : ℕ → List A → List A
  unfolding digits_loop lt_wf dec_lt
  digits v out = digits_loop v (lt_wf.apply v) out

  digits_loop_step :
      (v : ℕ) (w : Acc ◌<◌ v) (w' : Acc ◌<◌ (v / base)) (out : List A)
      → digits_loop v w out
        ≡ ite (dec_lt 0 v) (digits_loop (v / base) w' (char (v % base) ∷ out)) out
  unfolding digits_loop
  digits_loop_step v (Acc.intro _ smaller) w' out = λ i.
      dite (dec_lt 0 v)
        (λ h.
          digits_loop (v / base) (Acc-prop (smaller _ (div-lt base v big h)) w' i)
            (char (v % base) ∷ out))
        (λ _. out)

  pub digits_step :
      (v : ℕ) (out : List A)
      → digits v out ≡ ite (dec_lt 0 v) (digits (v / base) (char (v % base) ∷ out)) out
  unfolding digits
  digits_step v out = digits_loop_step v (lt_wf.apply v) (lt_wf.apply (v / base)) out

  pub digits_more :
      (v : ℕ) (out : List A) → 0 < v → digits v out ≡ digits (v / base) (char (v % base) ∷ out)
  digits_more v out h = digits_step v out ∙ if_pos (dec_lt 0 v) h _ _

  pub digits_none : (v : ℕ) (out : List A) → ¬ (0 < v) → digits v out ≡ out
  digits_none v out h = digits_step v out ∙ if_neg (dec_lt 0 v) h _ _

  -- The accumulator is what follows the digits.
  pub digits-append : (v : ℕ) (out : List A) → digits v out ≡ digits v [] ++ out
  digits-append v =
      WellFounded.induction lt_wf {C = λ m. (out : List A) → digits m out ≡ digits m [] ++ out} v
        λ m ih out. elim (dec_lt 0 m) [
          | yes p ↦
              let c : List A = char (m % base) ∷ [] in
              digits_more m out p
              ∙ ih (m / base) (div-lt base m big p) (char (m % base) ∷ out)
              ∙ sym (append_assoc (digits (m / base) []) c out)
              ∙ ap (λ t. t ++ out) (sym (ih (m / base) (div-lt base m big p) c))
              ∙ ap (λ t. t ++ out) (sym (digits_more m [] p))
          | no p ↦ digits_none m out p ∙ ap (λ t. t ++ out) (sym (digits_none m [] p))
        ]

  pub digits-All {κ} :
      (P : A → Type κ)
      → ((d : ℕ) → d < base → P (char d))
      → (v : ℕ) (out : List A) → All P out
      → All P (digits v out)
  digits-All P each v =
      WellFounded.induction lt_wf {C = λ m. (out : List A) → All P out → All P (digits m out)} v
        λ m ih out h. elim (dec_lt 0 m) [
          | yes p ↦ rw (digits_more m out p) (
              ih (m / base) (div-lt base m big p) _
                (each (m % base) (mod-lt m {m = base} (omega arith)), h))
          | no p ↦ rw (digits_none m out p) h
        ]

  -- The first digit of a number that is not 0 is not 0.
  pub digits_head :
      (v : ℕ) (out : List A)
      → 0 < v
      → (d : ℕ) × (rest : List A) × (digits v out ≡ char d ∷ rest) × (0 < d) × (d < base)
  digits_head v =
      WellFounded.induction lt_wf
        {C = λ m.
          (out : List A)
          → 0 < m
          → (d : ℕ) × (rest : List A) × (digits m out ≡ char d ∷ rest) × (0 < d) × (d < base)}
        v
        λ m ih out p. elim (dec_lt 0 (m / base)) [
          | yes q ↦
              let (d, rest, e, lo, hi) =
                ih (m / base) (div-lt base m big p) (char (m % base) ∷ out) q in
              (d, rest, digits_more m out p ∙ e, lo, hi)
          | no q ↦ (
            m % base,
            out,
            digits_more m out p ∙ digits_none (m / base) (char (m % base) ∷ out) q,
            omega (arith, div-add-mod m base, zero_mul m q),
            mod-lt m {m = base} (omega arith),
          )
        ]
    where
      zero_mul : (m : ℕ) → ¬ (0 < m / base) → base * (m / base) ≡ 0
      zero_mul m q = let z : m / base ≡ 0 = omega arith in rw z (omega arith)

  pub length-digits :
      (k v : ℕ) (out : List A) → v < base ^ k → length (digits v out) ≤ k + length out
  length-digits zero v out h = rw (digits_none v out (omega (arith, pow-zero base))) (omega arith)
  length-digits (suc k) v out h = elim (dec_lt 0 v) [
    | yes p ↦ rw (digits_more v out p) (
        omega (
          arith,
          length-digits k (v / base) (char (v % base) ∷ out) (
              (div-lt_iff_lt-mul {k = base} (omega arith)).1
                (subst (λ t. v < t) (pow-suc base k) h)),
        ))
    | no p ↦ rw (digits_none v out p) (omega arith)
  ]

  -- Reading back: `value` gives back each digit's number.
  module _ (value : A → ℕ) (read : (d : ℕ) → d < base → value (char d) ≡ d) where
    pub of_digits-digits :
        (v : ℕ) (out : List A) → of_digits base value 0 (digits v out) ≡ of_digits base value v out
    of_digits-digits v =
        WellFounded.induction lt_wf
          {C = λ m.
            (out : List A) → of_digits base value 0 (digits m out) ≡ of_digits base value m out}
          v
          λ m ih out. elim (dec_lt 0 m) [
            | yes p ↦
                ap (of_digits base value 0) (digits_more m out p)
                ∙ ih (m / base) (div-lt base m big p) (char (m % base) ∷ out)
                ∙ ap (λ n. of_digits base value n out) (last_digit m)
            | no p ↦
                ap (of_digits base value 0) (digits_none m out p)
                ∙ ap (λ n. of_digits base value n out) (omega arith)
          ]
      where
        last_digit : (m : ℕ) → m / base * base + value (char (m % base)) ≡ m
        last_digit m =
            ap (λ d. m / base * base + d) (read (m % base) (mod-lt m {m = base} (omega arith)))
            ∙ omega (arith, div-add-mod m base)
