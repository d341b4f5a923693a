-- ===== src/Utils/Maths/Literals.antt =====
-- `BigInt` of a text of hexadecimal digits, as src.ts/utils/maths.ts uses it.
use corebc_js.Common.Bits.{all_below, all_below_sound}
use corebc_js.Utils.Data.Hex.{digit_below}
use corebc_js.Common.Radix.{of_digits}
use corebc_js.Utils.Data.{is_hex_digit, hex_value}
use corebc_js.Utils.Maths.{is_space, trim_start, trim, parse_literal, parse_bigint}
use corebc_js.Common.{
  ℕ, ◌≡◌, refl, ◌∙◌, ap, inl, inr, Bool, true, false, not, some, [], ◌∷◌, ◌++◌, Text, Bool-cases,
  &&-left, &&-right, all, if◌then◌else◌,
}
use mathlib.Core.List.{reverse, reverse-append, reverse-reverse}
use corebc_js.Common.Integers.{pos}

abbrev pub no_space : Text → Bool
no_space = all (λ c. not (is_space c))

no_space-append : (s t : Text) → no_space s ≡ true → no_space t ≡ true → no_space (s ++ t) ≡ true
no_space-append [] t h k = k
no_space-append (c ∷ s) t h k =
    let p = not (is_space c) in
    rw (&&-left p (no_space s) h) (no_space-append s t (&&-right p (no_space s) h) k)

no_space-reverse : (s : Text) → no_space s ≡ true → no_space (reverse s) ≡ true
no_space-reverse [] h = refl
no_space-reverse (c ∷ s) h =
    let p = not (is_space c) in
    rw (reverse-append (c ∷ []) s) (
      no_space-append (reverse s) (c ∷ []) (no_space-reverse s (&&-right p (no_space s) h))
        (rw (&&-left p (no_space s) h)))

trim_start-no_space : (s : Text) → no_space s ≡ true → trim_start s ≡ s
unfolding trim_start
trim_start-no_space [] h = refl
trim_start-no_space (c ∷ s) h = rw (inner c (&&-left (not (is_space c)) (no_space s) h))
  where
    inner : (c : ℕ) → not (is_space c) ≡ true → is_space c ≡ false
    inner c h = elim (Bool-cases (is_space c)) [ inl e ↦ cc (h, e) | inr e ↦ e ]

pub trim-no_space : (s : Text) → no_space s ≡ true → trim s ≡ s
unfolding trim
trim-no_space s h =
    ap (λ t. reverse (trim_start (reverse t))) (trim_start-no_space s h)
    ∙ ap reverse (trim_start-no_space (reverse s) (no_space-reverse s h))
    ∙ reverse-reverse s

space_check : ℕ → Bool
space_check c = if is_hex_digit c then not (is_space c) else true

space_table : all_below 128 space_check ≡ true
unfolding all_below space_check
space_table = refl

digit_no_space : (c : ℕ) → is_hex_digit c ≡ true → not (is_space c) ≡ true
unfolding space_check
digit_no_space c h = rw h at (all_below_sound 128 space_check c space_table (digit_below c h))

pub digits_no_space : (s : Text) → all is_hex_digit s ≡ true → no_space s ≡ true
digits_no_space [] h = refl
digits_no_space (c ∷ s) h =
    rw (digit_no_space c (&&-left (is_hex_digit c) (all is_hex_digit s) h))
      (digits_no_space s (&&-right (is_hex_digit c) (all is_hex_digit s) h))

-- A literal of one or more digits behind `0x`.
pub parse_bigint-hex :
    (c : ℕ) (s : Text)
    → all is_hex_digit (c ∷ s) ≡ true
    → parse_bigint (b'0' ∷ b'x' ∷ c ∷ s) ≡ some (pos (of_digits 16 hex_value 0 (c ∷ s)))
unfolding parse_bigint
parse_bigint-hex c s h =
    ap parse_literal (trim-no_space (b'0' ∷ b'x' ∷ c ∷ s) (digits_no_space (c ∷ s) h))
    ∙ unfold parse_literal in rw h
