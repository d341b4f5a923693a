-- ===== src/Utils/Fixed/Literals.antt =====
-- `BigInt` of a text of decimal digits, with a minus sign or without.
use corebc_js.Utils.Maths.{
  is_digit, parse_digits, parse_signed, parse_literal, parse_bigint, negate, is_space,
}
use corebc_js.Utils.Maths.Literals.{no_space, trim-no_space}
use corebc_js.Utils.Fixed.Formats.{spelled}
use corebc_js.Utils.Fixed.Trims.{IsDigit}
use corebc_js.Common.{
  ℕ, arith, ◌≡◌, refl, ◌∙◌, ap, true, false, not, ◌||◌, some, [], ◌∷◌, Text, ◌==◌, all, All, Bool,
  ◌&&◌,
}
use corebc_js.Common.Integers.{pos}

pub all-IsDigit : (s : Text) → All IsDigit s → all is_digit s ≡ true
all-IsDigit [] h = refl
all-IsDigit (c ∷ s) (hc, hs) = rw hc (all-IsDigit s hs)

-- `BigInt` of decimal digits, with a minus sign or without.
digit_facts :
    (c : ℕ)
    → IsDigit c
    → (not (is_space c) ≡ true)
      × ((c == b'-') ≡ false)
      × ((c == b'+') ≡ false)
      × ((c == b'x' || c == b'X') ≡ false)
      × ((c == b'o' || c == b'O') ≡ false)
      × ((c == b'b' || c == b'B') ≡ false)
digit_facts c h = ground arith

no_space-IsDigit : (s : Text) → All IsDigit s → no_space s ≡ true
no_space-IsDigit [] h = refl
no_space-IsDigit (c ∷ s) (hc, hs) = rw ((digit_facts c hc).0) (no_space-IsDigit s hs)

parse_signed-decimal :
    (c : ℕ) (s : Text) → All IsDigit (c ∷ s) → parse_signed (c ∷ s) ≡ some (pos (spelled (c ∷ s)))
unfolding parse_signed parse_digits
parse_signed-decimal c s h =
    let (_, minus, plus, _, _, _) = digit_facts c h.0 in
    rw (minus, plus) (rw (all-IsDigit (c ∷ s) h) refl)

parse_literal-decimal :
    (c : ℕ) (s : Text) → All IsDigit (c ∷ s) → parse_literal (c ∷ s) ≡ some (pos (spelled (c ∷ s)))
unfolding parse_literal
parse_literal-decimal c [] h = parse_signed-decimal c [] h
parse_literal-decimal c (d ∷ s) h =
    let (_, _, _, hex, octal, binary) = digit_facts d h.1.0 in
    rw (hex, octal, binary) (rw (and_false (c == b'0')) (parse_signed-decimal c (d ∷ s) h))
  where
    and_false : (b : Bool) → (b && false) ≡ false
    and_false true = refl
    and_false false = refl

pub parse_bigint-decimal :
    (c : ℕ) (s : Text) → All IsDigit (c ∷ s) → parse_bigint (c ∷ s) ≡ some (pos (spelled (c ∷ s)))
unfolding parse_bigint
parse_bigint-decimal c s h =
    ap parse_literal (trim-no_space (c ∷ s) (no_space-IsDigit (c ∷ s) h))
    ∙ parse_literal-decimal c s h

parse_signed-minus :
    (c : ℕ) (s : Text)
    → All IsDigit (c ∷ s)
    → parse_signed (b'-' ∷ c ∷ s) ≡ some (negate (pos (spelled (c ∷ s))))
unfolding parse_signed parse_digits
parse_signed-minus c s h = rw (all-IsDigit (c ∷ s) h) refl

pub parse_bigint-minus :
    (c : ℕ) (s : Text)
    → All IsDigit (c ∷ s)
    → parse_bigint (b'-' ∷ c ∷ s) ≡ some (negate (pos (spelled (c ∷ s))))
unfolding parse_bigint
parse_bigint-minus c s h =
    ap parse_literal (trim-no_space (b'-' ∷ c ∷ s) (no_space-IsDigit (c ∷ s) h))
    ∙ unfold parse_literal in parse_signed-minus c s h
