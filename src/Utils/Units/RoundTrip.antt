-- ===== src/Utils/Units/RoundTrip.antt =====
-- `parseUnits` of src.ts/utils/units.ts reads what `formatUnits` writes.
use corebc_js.Utils.Maths.{bigint, get_big_int}
use corebc_js.Address.{to_decimal}
use corebc_js.Utils.Fixed.Formats.{Format, get_format, format_name}
use corebc_js.Utils.Fixed.Values.{unsigned_text, to_text, pointed}
use corebc_js.Utils.Fixed.Number.{FixedNumber, new_fixed}
use corebc_js.Utils.Fixed.Convert.{from_value, rescaled, fixed_of}
use corebc_js.Utils.Fixed.Bounds.{Fits}
use corebc_js.Utils.Fixed.Rounds.{Passed, passed, refused, check_value-Passed}
use corebc_js.Utils.Fixed.Trims.{IsDigit}
use corebc_js.Utils.Fixed.Decimals.{to_decimal-IsDigit, pointed-Pointed, Pointed}
use corebc_js.Utils.Fixed.RoundTrip.{from_string-to_text}
use corebc_js.Utils.Units.{
  exponent, decimals_only, unit_decimals, format_units, before_point, behind_point, trim_decimals,
  joined_parts, has_e, parse_units,
}
use corebc_js.Common.{
  ℕ, zero, suc, ◌≤◌, arith, ◌≡◌, refl, sym, ap, false, none, some, [], ◌∷◌, ◌++◌, Text, ◌==◌,
  length, take, All, ◌∙◌, true, append-nil, append_assoc, codes, le→leb, Result, ok, le→ltb, ◌>>=◌,
}
use mathlib.Core.Path.{subst}
use corebc_js.Common.Integers.{ℤ, pos, negsuc}

-- Digits, or digits and at most d more behind a point.
data Decimal (d : ℕ) : Text → Type 0 where
  whole : (s : Text) → All IsDigit s → Decimal d s
  parted : (s t : Text) → All IsDigit s → All IsDigit t → length t ≤ d → Decimal d (s ++ (b'.' ∷ t))

pointed-Decimal : (d : ℕ) (s r : Text) → Pointed d s r → Decimal d r
pointed-Decimal d s r p =
    subst (Decimal d) (sym p.parts) (
      parted (p.first ∷ p.whole) p.fraction p.whole_digits p.fraction_digits
        (omega (arith, p.size)))

unsigned_text-Decimal : (n d : ℕ) → Decimal d (unsigned_text n d)
unfolding unsigned_text
unsigned_text-Decimal n zero = whole (to_decimal n) (to_decimal-IsDigit n)
unsigned_text-Decimal n (suc d) = rw (positive d) (
    pointed-Decimal (suc d) (to_decimal n) (pointed (suc d) (to_decimal n))
      (pointed-Pointed d (to_decimal n) (to_decimal-IsDigit n)))
  where
    positive : (d : ℕ) → (suc d == 0) ≡ false
    positive d = ground arith

digit_facts : (c : ℕ) → IsDigit c → ((c == b'.') ≡ false) × ((c == b'e') ≡ false)
digit_facts c h = ground arith

before_digits : (s t : Text) → All IsDigit s → before_point (s ++ (b'.' ∷ t)) ≡ s
unfolding before_point
before_digits [] t h = refl
before_digits (c ∷ s) t (hc, hs) = rw (digit_facts c hc).0 (ap (λ x. c ∷ x) (before_digits s t hs))

before_all_digits : (s : Text) → All IsDigit s → before_point s ≡ s
unfolding before_point
before_all_digits [] h = refl
before_all_digits (c ∷ s) (hc, hs) =
    rw (digit_facts c hc).0 (ap (λ x. c ∷ x) (before_all_digits s hs))

behind_all_digits : (s : Text) → All IsDigit s → behind_point s ≡ none
unfolding behind_point
behind_all_digits [] h = refl
behind_all_digits (c ∷ s) (hc, hs) = rw (digit_facts c hc).0 (behind_all_digits s hs)

behind_digits :
    (s t : Text) → All IsDigit s → All IsDigit t → behind_point (s ++ (b'.' ∷ t)) ≡ some t
unfolding behind_point
behind_digits [] t hs ht = ap some (before_all_digits t ht)
behind_digits (c ∷ s) t (hc, hs) ht = rw (digit_facts c hc).0 (behind_digits s t hs ht)

take_enough : (d : ℕ) (t : Text) → length t ≤ d → take d t ≡ t
take_enough zero [] h = refl
take_enough (suc d) [] h = refl
take_enough zero (c ∷ t) h = absurd (omega arith)
take_enough (suc d) (c ∷ t) h = ap (λ x. c ∷ x) (take_enough d t (omega arith))

-- Nothing is trimmed, behind any front without a point.
trim_same :
    (d : ℕ) (front s : Text)
    → Decimal d s
    → joined_parts (front ++ before_point s) (behind_point s) d (front ++ s) ≡ front ++ s
trim_same d front _ (whole s h) = rw (behind_all_digits s h) refl
trim_same d front _ (parted s t hs ht small) =
    rw (behind_digits s t hs ht, before_digits s t hs, take_enough d t small)
      (append_assoc front s (b'.' ∷ t))

has_e_append : (s t : Text) → All IsDigit s → has_e (s ++ t) ≡ has_e t
unfolding has_e
has_e_append [] t h = refl
has_e_append (c ∷ s) t (hc, hs) = rw (digit_facts c hc).1 (has_e_append s t hs)

has_e_digits : (s : Text) → All IsDigit s → has_e s ≡ false
unfolding has_e
has_e_digits s h = ap has_e (sym (append-nil s)) ∙ has_e_append s [] h

no_e : (d : ℕ) (s : Text) → Decimal d s → has_e s ≡ false
unfolding has_e
no_e d _ (whole s h) = has_e_digits s h
no_e d _ (parted s t hs ht small) = has_e_append s (b'.' ∷ t) hs ∙ has_e_digits t ht

to_text-trim : (z : ℤ) (d : ℕ) → trim_decimals (to_text z d) d ≡ to_text z d
unfolding to_text trim_decimals
to_text-trim (pos n) d = trim_same d [] (unsigned_text n d) (unsigned_text-Decimal n d)
to_text-trim (negsuc n) d =
    trim_same d (codes "-") (unsigned_text (suc n) d) (unsigned_text-Decimal (suc n) d)

to_text-no_e : (z : ℤ) (d : ℕ) → has_e (to_text z d) ≡ false
unfolding to_text has_e
to_text-no_e (pos n) d = no_e d (unsigned_text n d) (unsigned_text-Decimal n d)
to_text-no_e (negsuc n) d = no_e d (unsigned_text (suc n) d) (unsigned_text-Decimal (suc n) d)

-- The format of a number of decimals.
abbrev wide_format : ℕ → Format
wide_format d = record { signed = true; width = 128; decimals = d; name = format_name true 128 d }

get_format-decimals : (d : ℕ) → d ≤ 80 → get_format (decimals_only d) ≡ ok (wide_format d)
unfolding get_format
get_format-decimals d h = rw (le→leb d 80 h) refl

rescaled_same : (z : ℤ) (d : ℕ) → rescaled z d d ≡ ok z
unfolding rescaled
rescaled_same z d = rw (le→ltb d d (omega arith)) refl

Passed-Fits :
    (f : Format) (z : ℤ) {r : Result FixedNumber}
    → Fits f.signed f.width z
    → Passed f z r
    → r ≡ ok (new_fixed z f)
Passed-Fits f z h (passed k) = refl
Passed-Fits f z h (refused k) = absurd (k h)

from_value_same :
    (z : ℤ) (d : ℕ)
    → d ≤ 80
    → Fits true 128 z
    → from_value (bigint z) (some d) (decimals_only d) ≡ ok (new_fixed z (wide_format d))
unfolding from_value get_big_int fixed_of
from_value_same z d h fits =
    rw (get_format-decimals d h, rescaled_same z d)
      (Passed-Fits (wide_format d) z fits (check_value-Passed z (wide_format d)))

-- For every integer of 128 bits and every number of decimals up to 80, and whatever
-- scientificToDecimal does: formatUnits gives a text, and parseUnits reads it as the integer.
pub parse_units-format_units :
    (scientific : Text → Text) (z : ℤ) (d : ℕ)
    → d ≤ 80
    → Fits true 128 z
    → (s : Text) × (format_units (bigint z) (exponent d) ≡ ok s)
      × (parse_units scientific s (exponent d) ≡ ok z)
unfolding format_units parse_units unit_decimals new_fixed
parse_units-format_units scientific z d h fits = (
  to_text z d,
  ap (λ r. r >>= λ fixed. ok (fixed.text)) (from_value_same z d h fits),
  rw (to_text-no_e z d, to_text-trim z d)
      (ap (λ r. r >>= λ fixed. ok (fixed.value))
        (Passed-Fits (wide_format d) z fits
          (from_string-to_text z (wide_format d) (decimals_only d) (get_format-decimals d h)))),
)
