-- ===== src/Utils/Fixed/RoundTrip.antt =====
-- The text of a FixedNumber is read back by `fromString` of src.ts/utils/fixednumber.ts.
use corebc_js.Utils.Maths.{parse_bigint, negate, or_invalid}
use corebc_js.Utils.Fixed.Literals.{all-IsDigit, parse_bigint-decimal, parse_bigint-minus}
use corebc_js.Address.{to_decimal}
use corebc_js.Utils.Fixed.Formats.{
  spelled, FixedFormat, Format, get_format, lead_digits, after_digits,
}
use corebc_js.Utils.Fixed.Values.{unsigned_text, pointed, to_text}
use corebc_js.Utils.Fixed.Convert.{
  fixed_of, match_fraction, match_unsigned, match_decimal, minus_text, decimal_value, some_digits,
  from_string, Groups,
}
use corebc_js.Utils.Fixed.Tens.{nulls}
use corebc_js.Utils.Fixed.Trims.{IsDigit, nulls-IsDigit}
use corebc_js.Utils.Fixed.Decimals.{
  to_decimal-IsDigit, spelled-to_decimal, to_decimal_cons, Pointed, pointed-Pointed,
}
use corebc_js.Utils.Fixed.Padding.{decimal_value_lem}
use corebc_js.Utils.Fixed.Rounds.{Passed, check_value-Passed}
use corebc_js.Common.{
  ℕ, arith, ◌≡◌, refl, ap, Bool, true, false, some, [], ◌∷◌, ◌++◌, Text, ◌==◌, All, zero, suc, ◌+◌,
  ◌∙◌, lt→ltb, length, sym, append-nil, if◌then◌else◌, ok, All-append,
}
use corebc_js.Common.Integers.{pos, ℤ, negsuc}
use mathlib.Core.Path.{subst}

-- The groups of digits, and of digits with a point.
lead_digits-append : (s t : Text) → All IsDigit s → lead_digits (s ++ (b'.' ∷ t)) ≡ s
unfolding lead_digits
lead_digits-append [] t h = refl
lead_digits-append (c ∷ s) t (hc, hs) = rw hc (ap (λ x. c ∷ x) (lead_digits-append s t hs))

after_digits-append : (s t : Text) → All IsDigit s → after_digits (s ++ (b'.' ∷ t)) ≡ b'.' ∷ t
unfolding after_digits
after_digits-append [] t h = refl
after_digits-append (c ∷ s) t (hc, hs) = rw hc (after_digits-append s t hs)

lead_digits_same : (s : Text) → All IsDigit s → lead_digits s ≡ s
unfolding lead_digits
lead_digits_same [] h = refl
lead_digits_same (c ∷ s) (hc, hs) = rw hc (ap (λ x. c ∷ x) (lead_digits_same s hs))

after_digits_none : (s : Text) → All IsDigit s → after_digits s ≡ []
unfolding after_digits
after_digits_none [] h = refl
after_digits_none (c ∷ s) (hc, hs) = rw hc (after_digits_none s hs)

match_pointed :
    (minus : Bool) (s t : Text)
    → All IsDigit s
    → All IsDigit t
    → match_unsigned minus (s ++ (b'.' ∷ t)) ≡ some (minus, s, t)
unfolding match_unsigned match_fraction
match_pointed minus s t hs ht =
    rw (lead_digits-append s t hs, after_digits-append s t hs) (rw (all-IsDigit t ht) refl)

match_whole :
    (minus : Bool) (s : Text) → All IsDigit s → match_unsigned minus s ≡ some (minus, s, [])
unfolding match_unsigned match_fraction
match_whole minus s hs = rw (lead_digits_same s hs, after_digits_none s hs) refl

-- The groups and the value of a text that stands for n at d decimals, behind a minus sign or not.
record Reads (n d : ℕ) (s : Text) : Type 0 where
  groups : Bool → Groups
  plain : match_decimal s ≡ match_unsigned false s
  matched : (minus : Bool) → some_digits (match_unsigned minus s) ≡ ok (groups minus)
  value :
      (minus : Bool) → decimal_value (groups minus) d ≡ ok (if minus then negate (pos n) else pos n)

signed_literal :
    (minus : Bool) (c : ℕ) (s : Text)
    → All IsDigit (c ∷ s)
    → or_invalid (parse_bigint (minus_text minus ++ (c ∷ s)))
      ≡ ok (if minus then negate (pos (spelled (c ∷ s))) else pos (spelled (c ∷ s)))
signed_literal true c s h = ap or_invalid (parse_bigint-minus c s h)
signed_literal false c s h = ap or_invalid (parse_bigint-decimal c s h)

no_sign : (c : ℕ) (s : Text) → IsDigit c → match_decimal (c ∷ s) ≡ match_unsigned false (c ∷ s)
unfolding match_decimal
no_sign c s h = rw (minus c h) refl
  where
    minus : (c : ℕ) → IsDigit c → (c == b'-') ≡ false
    minus c h = ground arith

enough :
    (minus : Bool) (c : ℕ) (whole fraction : Text)
    → some_digits (some (minus, c ∷ whole, fraction)) ≡ ok (minus, c ∷ whole, fraction)
unfolding some_digits
enough minus c whole fraction =
    rw (lt→ltb 0 (length (c ∷ whole) + length fraction) (omega arith)) refl

module _ {n d c : ℕ} {whole fraction : Text} (cut : ℕ) where
  groups-Reads :
      {s : Text}
      → All IsDigit (c ∷ whole)
      → All IsDigit fraction
      → length fraction + cut ≡ d
      → spelled ((c ∷ whole) ++ (fraction ++ nulls cut)) ≡ n
      → match_decimal s ≡ match_unsigned false s
      → ((minus : Bool) → match_unsigned minus s ≡ some (minus, c ∷ whole, fraction))
      → Reads n d s
  groups-Reads {s} hw hf size spells plain match = record {
    groups = λ minus. (minus, c ∷ whole, fraction);
    plain = plain;
    matched = λ minus. ap some_digits (match minus) ∙ enough minus c whole fraction;
    value = λ minus.
        decimal_value_lem minus c whole fraction cut d size
        ∙ signed_literal minus c (whole ++ (fraction ++ nulls cut)) all_digits
        ∙ ap (λ m. ok (if minus then negate (pos m) else pos m)) spells;
  }
    where
      all_digits : All IsDigit ((c ∷ whole) ++ (fraction ++ nulls cut))
      all_digits =
          All-append IsDigit (c ∷ whole) (fraction ++ nulls cut) hw
            (All-append IsDigit fraction (nulls cut) hf (nulls-IsDigit cut))

whole-Reads : (n : ℕ) (c : ℕ) (s : Text) → to_decimal n ≡ c ∷ s → Reads n 0 (c ∷ s)
whole-Reads n c s e =
    let h : All IsDigit (c ∷ s) = subst (All IsDigit) e (to_decimal-IsDigit n) in
    groups-Reads 0 h tt (omega arith)
      (ap (λ t. spelled (c ∷ t)) (append-nil s) ∙ ap spelled (sym e) ∙ spelled-to_decimal n)
      (no_sign c s h.0) (λ minus. match_whole minus (c ∷ s) h)

Pointed-Reads : (n d : ℕ) (s r : Text) → spelled s ≡ n → Pointed d s r → Reads n d r
Pointed-Reads n d s r e p = subst (Reads n d) (sym p.parts) (
    groups-Reads p.cut p.whole_digits p.fraction_digits p.size (p.value ∙ e)
      (no_sign p.first (p.whole ++ (b'.' ∷ p.fraction)) (p.whole_digits.0))
      (λ minus.
        match_pointed minus (p.first ∷ p.whole) p.fraction p.whole_digits p.fraction_digits))

unsigned_text-Reads : (n d : ℕ) → Reads n d (unsigned_text n d)
unfolding unsigned_text
unsigned_text-Reads n zero =
    let (c, s, e) = to_decimal_cons n in subst (Reads n 0) (sym e) (whole-Reads n c s e)
unsigned_text-Reads n (suc d) = rw (positive d) (
    Pointed-Reads n (suc d) (to_decimal n) (pointed (suc d) (to_decimal n)) (spelled-to_decimal n)
      (pointed-Pointed d (to_decimal n) (to_decimal-IsDigit n)))
  where
    positive : (d : ℕ) → (suc d == 0) ≡ false
    positive d = ground arith

-- For every integer and every format that getFormat gives: fromString of the text of a FixedNumber
-- gives the number back if it fits in the format, and throws a NUMERIC_FAULT if not.
pub from_string-to_text :
    (z : ℤ) (f : Format) (fixed_format : FixedFormat)
    → get_format fixed_format ≡ ok f
    → Passed f z (from_string (to_text z f.decimals) fixed_format)
unfolding from_string to_text some_digits match_decimal
from_string-to_text (pos n) f fixed_format h =
    let r = unsigned_text-Reads n f.decimals in
    rw (r.plain, r.matched false, h, r.value false)
      (unfold fixed_of in check_value-Passed (pos n) f)
from_string-to_text (negsuc n) f fixed_format h =
    let r = unsigned_text-Reads (suc n) f.decimals in
    rw (r.matched true, h, r.value true) (unfold fixed_of in check_value-Passed (negsuc n) f)
