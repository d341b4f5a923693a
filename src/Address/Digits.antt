-- ===== src/Address/Digits.antt =====
-- The decimal digits of src.ts/address/index.ts, and the values of ISO 7064 that they spell.
use corebc_js.Common.Bits.{all_below, all_below_sound}
use corebc_js.Common.Radix.{of_digits, of_digits-append}
use corebc_js.Utils.Data.{is_hex_digit, hex_value, to_lower, lower_case}
use corebc_js.Utils.Data.Hex.{digit_below}
use corebc_js.Utils.Maths.{is_digit}
use corebc_js.Address.{
  text_eq, to_upper, upper_case, to_decimal, mod_digits, check_digits, checksum_value,
}
use corebc_js.Common.{
  ℕ, ◌+◌, ◌-◌, ◌*◌, ◌/◌, ◌%◌, ◌<◌, ◌≡◌, refl, Bool, true, ◌&&◌, [], ◌∷◌, ◌++◌, Text, ltb, ◌==◌,
  if◌then◌else◌, ==_iff, ==_refl, &&-left, &&-right, ◌≤◌, arith, sym, ◌∙◌, ap, inl, inr,
  append_assoc, codes, ltb→lt, lt→ltb, le→ltb, ltb→le, Bool-cases, all,
}
use mathlib.Core.Path.{ap₂}

pub text_eq_sound : (s t : Text) → text_eq s t ≡ true → s ≡ t
unfolding text_eq
text_eq_sound [] [] h = refl
text_eq_sound [] (d ∷ t) h = cc
text_eq_sound (c ∷ s) [] h = cc
text_eq_sound (c ∷ s) (d ∷ t) h =
    ap₂ (λ x u. x ∷ u) ((==_iff c d).0 (&&-left (c == d) (text_eq s t) h))
      (text_eq_sound s t (&&-right (c == d) (text_eq s t) h))

pub text_eq_refl : (s : Text) → text_eq s s ≡ true
unfolding text_eq
text_eq_refl [] = refl
text_eq_refl (c ∷ s) = rw (==_refl c) (text_eq_refl s)

-- The value of a text in the standard: a letter counts as two decimal digits.
abbrev pub iso_value : ℕ → Text → ℕ
iso_value n [] = n
iso_value n (c ∷ s) =
    iso_value (if ltb (hex_value c) 10 then n * 10 + hex_value c else n * 100 + hex_value c) s

pub iso_value-append : (n : ℕ) (s t : Text) → iso_value n (s ++ t) ≡ iso_value (iso_value n s) t
iso_value-append n [] t = refl
iso_value-append n (c ∷ s) t =
    iso_value-append (if ltb (hex_value c) 10 then n * 10 + hex_value c else n * 100 + hex_value c)
      s t

abbrev pub two_digits : ℕ → Text
two_digits k = if ltb k 10 then (b'0' + k) ∷ [] else (b'0' + k / 10) ∷ (b'0' + k % 10) ∷ []

pub to_decimal-two_digits : (k : ℕ) → k < 100 → to_decimal k ≡ two_digits k
unfolding to_decimal all_below text_eq
to_decimal-two_digits k h =
    text_eq_sound _ _ (all_below_sound 100 (λ y. text_eq (to_decimal y) (two_digits y)) k refl h)

one_read : (n k : ℕ) → k < 10 → n * 10 + hex_value (b'0' + k) ≡ n * 10 + k
one_read n k h = ground arith

two_read :
    (n k : ℕ)
    → 10 ≤ k
    → k < 16
    → (n * 10 + hex_value (b'0' + k / 10)) * 10 + hex_value (b'0' + k % 10) ≡ n * 100 + k
two_read n k lo hi = ground arith

digit_read :
    (n k : ℕ)
    → k < 16
    → of_digits 10 hex_value n (two_digits k) ≡ (if ltb k 10 then n * 10 + k else n * 100 + k)
digit_read n k h = elim (Bool-cases (ltb k 10)) [
  | inl e ↦ rw e (one_read n k (ltb→lt k 10 e))
  | inr e ↦ rw e (two_read n k (ltb→le k 10 e) h)
]

-- What `mods` makes of a digit of either case.
abbrev mod_value : ℕ → ℕ
mod_value c = if ltb 64 c && ltb c 91 then c - 55 else c - 48

mod_check : ℕ → Bool
mod_check c =
    if is_hex_digit c
    then mod_value (to_upper (to_lower c)) == hex_value c && ltb (hex_value c) 16
    else true

mod_checked :
    (c : ℕ)
    → is_hex_digit c ≡ true
    → (mod_value (to_upper (to_lower c)) == hex_value c && ltb (hex_value c) 16) ≡ true
unfolding mod_check all_below
mod_checked c h = elim (Bool-cases (mod_check c)) [
  | inl e ↦ rw h at e
  | inr e ↦ cc (e, all_below_sound 128 mod_check c refl (digit_below c h))
]

mod_value-eq : (c : ℕ) → is_hex_digit c ≡ true → mod_value (to_upper (to_lower c)) ≡ hex_value c
mod_value-eq c h = (==_iff _ _).0 (&&-left _ _ (mod_checked c h))

hex_value_bound : (c : ℕ) → is_hex_digit c ≡ true → hex_value c < 16
hex_value_bound c h = ltb→lt _ _ (&&-right _ _ (mod_checked c h))

-- The digits of `mods` spell the standard's value.
mods_of :
    (n : ℕ) (s : Text)
    → all is_hex_digit s ≡ true
    → of_digits 10 hex_value n (mod_digits (upper_case (lower_case s))) ≡ iso_value n s
unfolding mod_digits
mods_of n [] h = refl
mods_of n (c ∷ s) h =
    let hc = &&-left (is_hex_digit c) (all is_hex_digit s) h in
    let k = hex_value c in
    let m : ℕ = if ltb k 10 then n * 10 + k else n * 100 + k in
    of_digits-append 10 hex_value n (to_decimal (mod_value (to_upper (to_lower c)))) _
    ∙ ap (λ t. of_digits 10 hex_value t (mod_digits (upper_case (lower_case s))))
        (ap (λ t. of_digits 10 hex_value n (to_decimal t)) (mod_value-eq c hc)
          ∙ ap (of_digits 10 hex_value n)
              (to_decimal-two_digits k (omega (arith, hex_value_bound c hc)))
          ∙ digit_read n k (hex_value_bound c hc))
    ∙ mods_of m s (&&-right (is_hex_digit c) (all is_hex_digit s) h)

upper_case-append : (s t : Text) → upper_case (s ++ t) ≡ upper_case s ++ upper_case t
upper_case-append [] t = refl
upper_case-append (c ∷ s) t = ap (λ u. to_upper c ∷ u) (upper_case-append s t)

mod_digits-append : (s t : Text) → mod_digits (s ++ t) ≡ mod_digits s ++ mod_digits t
unfolding mod_digits
mod_digits-append [] t = refl
mod_digits-append (c ∷ s) t =
    ap (λ u. to_decimal (mod_value c) ++ u) (mod_digits-append s t)
    ∙ sym (append_assoc (to_decimal (mod_value c)) (mod_digits s) (mod_digits t))

zeros_value : (n : ℕ) → of_digits 10 hex_value n (mod_digits (upper_case (codes "00"))) ≡ n * 100
unfolding mod_digits to_decimal
zeros_value n = omega arith

pub checksum_value_lem :
    (s : Text)
    → all is_hex_digit s ≡ true
    → checksum_value (lower_case s ++ codes "00") ≡ iso_value 0 s * 100
checksum_value_lem s h =
    ap (λ t. of_digits 10 hex_value 0 (mod_digits t))
      (upper_case-append (lower_case s) (codes "00"))
    ∙ ap (of_digits 10 hex_value 0)
        (mod_digits-append (upper_case (lower_case s)) (upper_case (codes "00")))
    ∙ of_digits-append 10 hex_value 0 (mod_digits (upper_case (lower_case s))) _
    ∙ zeros_value _
    ∙ ap (λ n. n * 100) (mods_of 0 s h)

-- Two decimal digits, and their value behind the rest is 1 modulo 97.
pub record Closes (n : ℕ) (s : Text) : Type 0 where
  pub tens : ℕ
  pub ones : ℕ
  pub spelled : s ≡ tens ∷ ones ∷ []
  pub tens_digit : is_digit tens ≡ true
  pub ones_digit : is_digit ones ≡ true
  pub closes : iso_value n s % 97 ≡ 1

small_check : (k : ℕ) → k < 10 → b'0' ∷ two_digits k ≡ (b'0' + k / 10) ∷ (b'0' + k % 10) ∷ []
small_check k h = rw (lt→ltb k 10 h) (ap₂ (λ x y. x ∷ y ∷ []) (omega arith) (omega arith))

check_digits_two :
    (n : ℕ) → check_digits n ≡ (b'0' + (98 - n % 97) / 10) ∷ (b'0' + (98 - n % 97) % 10) ∷ []
unfolding check_digits
check_digits_two n =
    let k = 98 - n % 97 in
    elim (Bool-cases (ltb 9 (98 - n % 97))) [
      | inl e ↦ rw e (to_decimal-two_digits k (omega arith) ∙ rw (le→ltb k 10 (ltb→lt 9 k e)) refl)
      | inr e ↦ rw e (
          ap (λ t. b'0' ∷ t) (to_decimal-two_digits k (omega arith))
          ∙ small_check k (omega (arith, ltb→le 9 k e)))
    ]

digit_at : (d : ℕ) → d < 10 → hex_value (b'0' + d) ≡ d
digit_at d h = ground arith

digit_IsDigit : (d : ℕ) → d < 10 → is_digit (b'0' + d) ≡ true
digit_IsDigit d h = ground arith

two_value :
    (n a b : ℕ)
    → a < 10
    → b < 10
    → iso_value n ((b'0' + a) ∷ (b'0' + b) ∷ []) ≡ (n * 10 + a) * 10 + b
two_value n a b ha hb =
    rw (digit_at a ha) (rw (digit_at b hb) (rw (lt→ltb a 10 ha) (rw (lt→ltb b 10 hb) refl)))

closing : (m : ℕ) → ((m * 10 + (98 - m * 100 % 97) / 10) * 10 + (98 - m * 100 % 97) % 10) % 97 ≡ 1
closing m = omega arith

pub check_digits-Closes : (m : ℕ) → Closes m (check_digits (m * 100))
check_digits-Closes m =
    let k = 98 - m * 100 % 97 in
    record {
      tens = b'0' + k / 10;
      ones = b'0' + k % 10;
      spelled = check_digits_two (m * 100);
      tens_digit = digit_IsDigit (k / 10) (omega arith);
      ones_digit = digit_IsDigit (k % 10) (omega arith);
      closes =
          ap (λ t. iso_value m t % 97) (check_digits_two (m * 100))
          ∙ ap (λ t. t % 97) (two_value m (k / 10) (k % 10) (omega arith) (omega arith))
          ∙ closing m;
    }
