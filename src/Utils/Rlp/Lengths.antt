-- ===== src/Utils/Rlp/Lengths.antt =====
-- The big-endian lengths that stand behind a header byte of src.ts/utils/rlp-encode.ts, written and read back.
use corebc_js.Common.Radix.{of_digits}
use corebc_js.Utils.Data.Hex.{IsBytes}
use corebc_js.Utils.Rlp.{arrayify_loop, arrayify_integer, unarrayify_loop, unarrayify_integer}
use corebc_js.Common.{
  ℕ, suc, ◌+◌, ◌/◌, ◌%◌, ◌^◌, ◌≤◌, ◌<◌, arith, ◌≡◌, refl, List, ◌∷◌, ◌++◌, length, ok, zero, ◌*◌,
  ◌∙◌, ap, [], append_assoc, length-append, get_or-append, sym, ok-injective,
}
use native.Mathlib.Nat.{pow-suc}
use mathlib.Core.Path.{subst}

-- The number that big-endian bytes stand for.
abbrev pub be_value : List ℕ → ℕ
be_value = of_digits 256 (λ b. b) 0

-- One list of at most four bytes spells each length below 2 ^ 31.
pub record Spells (n : ℕ) (s : List ℕ) : Type 0 where
  pub value : be_value s ≡ n
  pub small : length s ≤ 4
  pub byte_each : IsBytes s

arrayify_round :
    (f n : ℕ) (out : List ℕ)
    → 0 < n
    → n < 2 ^ 31
    → arrayify_loop (suc f) n out ≡ arrayify_loop f (n / 256) ((n % 256) ∷ out)
unfolding arrayify_loop
arrayify_round f n out p h = ground arith

arrayify_done : (f : ℕ) (out : List ℕ) → arrayify_loop (suc f) 0 out ≡ ok out
unfolding arrayify_loop
arrayify_done f out = refl

-- What the loop leaves behind `out` when it starts from `n` with `f` rounds at hand.
abbrev Spelt : ℕ → ℕ → List ℕ → Type 0
Spelt f n out =
    (s : List ℕ) × (arrayify_loop (suc f) n out ≡ ok s)
    × (be_value s ≡ of_digits 256 (λ b. b) n out)
    × (length s ≤ f + length out)
    × IsBytes s

arrayify_loop-Spelt :
    (f n : ℕ) (out : List ℕ) → n < 256 ^ f → n < 2 ^ 31 → IsBytes out → Spelt f n out
arrayify_loop-Spelt zero zero out h g ho = (out, arrayify_done 0 out, refl, omega arith, ho)
arrayify_loop-Spelt zero (suc n) out h g ho = absurd (omega arith)
arrayify_loop-Spelt (suc f) zero out h g ho =
    (out, arrayify_done (suc f) out, refl, omega arith, ho)
arrayify_loop-Spelt (suc f) (suc n) out h g ho =
    let m : ℕ = suc n in
    let (s, e, v, l, b) =
      arrayify_loop-Spelt f (suc n / 256) ((suc n % 256) ∷ out) (omega (arith, pow-suc 256 f))
        (omega arith) (omega arith, ho) in
    (
      s,
      arrayify_round (suc f) (suc n) out (omega arith) g ∙ e,
      v ∙ ap (λ t. of_digits 256 (λ b. b) t out) (omega arith),
      omega arith,
      b,
    )

-- On a length below 2 ^ 31 the loop ends, and its bytes spell the length.
pub arrayify_integer-Spells :
    (n : ℕ) → n < 2 ^ 31 → (s : List ℕ) × (arrayify_integer n ≡ ok s) × Spells n s
unfolding arrayify_integer
arrayify_integer-Spells n h =
    let (s, e, v, l, b) = arrayify_loop-Spelt 4 n [] (omega arith) h tt in
    (s, e, record { value = v; small = omega arith; byte_each = b })

unarrayify_loop-append :
    (front s rest : List ℕ) (position result : ℕ)
    → position ≡ length front
    → unarrayify_loop (length s) (front ++ (s ++ rest)) position result
      ≡ of_digits 256 (λ b. b) result s
unfolding unarrayify_loop
unarrayify_loop-append front [] rest position result h = refl
unarrayify_loop-append front (b ∷ s) rest position result h =
    let whole = append_assoc front (b ∷ []) (s ++ rest) in
    let here = get_or-append front b (s ++ rest) position 0 h in
    ap
      (λ t.
        unarrayify_loop (length s) (front ++ (b ∷ (s ++ rest))) (position + 1) (result * 256 + t))
      here
    ∙ ap (λ l. unarrayify_loop (length s) l (position + 1) (result * 256 + b)) (sym whole)
    ∙ unarrayify_loop-append (front ++ b ∷ []) s rest (position + 1) (result * 256 + b)
        (omega (arith, length-append {0} front (b ∷ [])))

-- The bytes behind a prefix are read as the number that they spell.
pub unarrayify_integer-append :
    (front s rest : List ℕ) (offset : ℕ)
    → offset ≡ length front
    → unarrayify_integer (front ++ (s ++ rest)) offset (length s) ≡ be_value s
unfolding unarrayify_integer
unarrayify_integer-append front s rest offset h = unarrayify_loop-append front s rest offset 0 h

-- What the loop returned for a length that is not 0.
pub arrayify_integer_lem :
    (n : ℕ) (s : List ℕ)
    → 0 < n
    → n < 2 ^ 31
    → arrayify_integer n ≡ ok s
    → Spells n s × (1 ≤ length s)
arrayify_integer_lem n s p h e =
    let (s', e', sp) = arrayify_integer-Spells n h in
    let same : s' ≡ s = ok-injective (sym e' ∙ e) in
    let spelt = subst (Spells n) same sp in (spelt, positive s spelt.value)
  where
    positive : (s : List ℕ) → be_value s ≡ n → 1 ≤ length s
    positive [] v = absurd (omega arith)
    positive (b ∷ s) v = omega arith
