-- ===== src/Utils/Fixed/Decimals.antt =====
-- The text of a magnitude in src.ts/utils/fixednumber.ts, and the number that it spells.
use corebc_js.Common.Radix.{
  digits, of_digits, of_digits-append, of_digits-digits, digits-All, digits_head,
}
use corebc_js.Utils.Data.{hex_value}
use corebc_js.Address.{to_decimal, decimal_char}
use corebc_js.Utils.Fixed.Formats.{spelled}
use corebc_js.Utils.Fixed.Values.{insert_point, trim_zeros, trim_zeros_end, pointed}
use corebc_js.Utils.Fixed.Tens.{nulls, spelled_zeros}
use corebc_js.Utils.Fixed.Trims.{
  IsDigit, nulls-IsDigit, pad_front_lem, trim_zeros_lem, trim_zeros_end_lem, All-split,
}
use corebc_js.Common.{
  ℕ, zero, suc, ◌+◌, ◌<◌, arith, ◌≡◌, refl, ◌∙◌, ap, [], ◌∷◌, ◌++◌, Text, length, All, ◌-◌, sym,
  false, append_assoc, ◌==◌, take, drop, length-append, length-take, length-drop, length-replicate,
  take-append-drop, All-append,
}
use mathlib.Core.Path.{ap₂, subst}

decimal_char-IsDigit : (d : ℕ) → d < 10 → IsDigit (decimal_char d)
unfolding decimal_char
decimal_char-IsDigit d h = ground arith

hex_value-decimal_char : (d : ℕ) → d < 10 → hex_value (decimal_char d) ≡ d
unfolding decimal_char
hex_value-decimal_char d h = ground arith

to_decimal-suc : (n : ℕ) → to_decimal (suc n) ≡ digits 10 (omega arith) decimal_char (suc n) []
unfolding to_decimal
to_decimal-suc n = rw (positive n) refl
  where
    positive : (n : ℕ) → (suc n == 0) ≡ false
    positive n = ground arith

pub to_decimal-IsDigit : (n : ℕ) → All IsDigit (to_decimal n)
unfolding to_decimal
to_decimal-IsDigit zero = (refl, tt)
to_decimal-IsDigit (suc n) =
    subst (All IsDigit) (sym (to_decimal-suc n))
      (digits-All 10 (omega arith) decimal_char IsDigit decimal_char-IsDigit (suc n) [] tt)

pub spelled-to_decimal : (n : ℕ) → spelled (to_decimal n) ≡ n
unfolding to_decimal
spelled-to_decimal zero = refl
spelled-to_decimal (suc n) =
    ap spelled (to_decimal-suc n)
    ∙ of_digits-digits 10 (omega arith) decimal_char hex_value hex_value-decimal_char (suc n) []

pub to_decimal_cons : (n : ℕ) → (c : ℕ) × (s : Text) × (to_decimal n ≡ c ∷ s)
unfolding to_decimal
to_decimal_cons zero = (b'0', [], refl)
to_decimal_cons (suc n) =
    let (d, rest, e, _, _) = digits_head 10 (omega arith) decimal_char (suc n) [] (omega arith) in
    (decimal_char d, rest, to_decimal-suc n ∙ e)

-- A text of digits with a point before the last d of them, but for zeros that are left out.
pub record Pointed (d : ℕ) (s r : Text) : Type 0 where
  pub first : ℕ
  pub whole : Text
  pub fraction : Text
  pub cut : ℕ
  pub parts : r ≡ (first ∷ whole) ++ (b'.' ∷ fraction)
  pub whole_digits : All IsDigit (first ∷ whole)
  pub fraction_digits : All IsDigit fraction
  pub size : length fraction + cut ≡ d
  pub value : spelled ((first ∷ whole) ++ (fraction ++ nulls cut)) ≡ spelled s

spelled_nulls : (k : ℕ) (s : Text) → spelled (nulls k ++ s) ≡ spelled s
spelled_nulls k s =
    of_digits-append 10 hex_value 0 (nulls k) s
    ∙ ap (λ n. of_digits 10 hex_value n s) (spelled_zeros 0 k ∙ omega arith)

-- Digits, split before the last d + 1.
split_digits :
    (d : ℕ) (s : Text)
    → suc d < length s
    → (a : ℕ) × (front : Text) × (b : ℕ) × (back : Text) × (insert_point (suc d) s
        ≡ (a ∷ front) ++ (b'.' ∷ (b ∷ back)))
      × (s ≡ (a ∷ front) ++ (b ∷ back))
      × (length back ≡ d)
unfolding insert_point
split_digits d s h =
    let n = length s - suc d in
    let (a, front, e) = cons_of (take n s) (omega (arith, length-take n s)) in
    let (b, back, e') = cons_of (drop n s) (omega (arith, length-drop n s)) in
    (
      a,
      front,
      b,
      back,
      ap₂ (λ x y. x ++ (b'.' ∷ y)) e e',
      sym (take-append-drop n s) ∙ ap₂ (λ x y. x ++ y) e e',
      omega (arith, ap length e', length-drop n s),
    )
  where
    cons_of : (s : Text) → 0 < length s → (c : ℕ) × (t : Text) × (s ≡ c ∷ t)
    cons_of [] h = absurd (omega arith)
    cons_of (c ∷ t) h = (c, t, refl)

module _ {d a b g : ℕ} {s front back : Text} (k j cut : ℕ) (kept fraction : Text) where
  assemble :
      {r : Text}
      → All IsDigit (nulls k ++ s)
      → nulls k ++ s ≡ (a ∷ front) ++ (b ∷ back)
      → length back ≡ d
      → a ∷ front ≡ nulls j ++ (g ∷ kept)
      → b ∷ back ≡ fraction ++ nulls cut
      → r ≡ (g ∷ kept) ++ (b'.' ∷ fraction)
      → Pointed (suc d) s r
  assemble h same size front_same back_same parts =
      let (hf, hb) = All-split (a ∷ front) (b ∷ back) (subst (All IsDigit) same h) in
      record {
        first = g;
        whole = kept;
        fraction = fraction;
        cut = cut;
        parts = parts;
        whole_digits = (All-split (nulls j) (g ∷ kept) (subst (All IsDigit) front_same hf)).1;
        fraction_digits = (All-split fraction (nulls cut) (subst (All IsDigit) back_same hb)).0;
        size = omega (
          arith,
          ap length back_same,
          size,
          length-append fraction (nulls cut),
          length-replicate {A = ℕ} cut b'0',
        );
        value =
            ap (λ t. spelled ((g ∷ kept) ++ t)) (sym back_same)
            ∙ sym (spelled_nulls j ((g ∷ kept) ++ (b ∷ back)))
            ∙ ap spelled (sym (append_assoc (nulls j) (g ∷ kept) (b ∷ back)))
            ∙ ap (λ t. spelled (t ++ (b ∷ back))) (sym front_same)
            ∙ ap spelled (sym same)
            ∙ spelled_nulls k s;
      }

-- The padded digits, with a point, and trimmed.
trimmed-Pointed :
    (d k : ℕ) (s : Text)
    → All IsDigit (nulls k ++ s)
    → suc d < length (nulls k ++ s)
    → Pointed (suc d) s (trim_zeros_end (trim_zeros (insert_point (suc d) (nulls k ++ s))))
trimmed-Pointed d k s h long =
    let (a, front, b, back, inserted, same, size) = split_digits d (nulls k ++ s) long in
    trims a front b back inserted same size
  where
    trims :
        (a : ℕ) (front : Text) (b : ℕ) (back : Text)
        → insert_point (suc d) (nulls k ++ s) ≡ (a ∷ front) ++ (b'.' ∷ (b ∷ back))
        → nulls k ++ s ≡ (a ∷ front) ++ (b ∷ back)
        → length back ≡ d
        → Pointed (suc d) s (trim_zeros_end (trim_zeros (insert_point (suc d) (nulls k ++ s))))
    trims a front b back inserted same size =
        let (hf, hb) = All-split (a ∷ front) (b ∷ back) (subst (All IsDigit) same h) in
        let (j, g, kept, trimmed, front_same) = trim_zeros_lem a front (b ∷ back) hf in
        let (cut, fraction, cut_off, back_same) = trim_zeros_end_lem (g ∷ kept) b back hb in
        assemble k j cut kept fraction h same size front_same back_same
          (ap (λ t. trim_zeros_end (trim_zeros t)) inserted ∙ ap trim_zeros_end trimmed ∙ cut_off)

pub pointed-Pointed : (d : ℕ) (s : Text) → All IsDigit s → Pointed (suc d) s (pointed (suc d) s)
unfolding pointed
pointed-Pointed d s h =
    let (k, padded, hk) = pad_front_lem (suc d + 1) (suc d) s (omega arith) in
    subst (λ t. Pointed (suc d) s (trim_zeros_end (trim_zeros (insert_point (suc d) t))))
      (sym padded)
      (trimmed-Pointed d k s (All-append IsDigit (nulls k) s (nulls-IsDigit k) h)
        (omega (arith, length-append (nulls k) s, length-replicate {A = ℕ} k b'0')))
