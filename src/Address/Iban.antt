-- ===== src/Address/Iban.antt =====
-- `ibanChecksum` of src.ts/address/index.ts: the remainder taken in blocks of 15 digits.
use corebc_js.Common.Radix.{of_digits, of_digits-append}
use corebc_js.Utils.Data.{hex_value}
use corebc_js.Address.{
  to_decimal, upper_case, expand_iban, safe_digits, iban_loop, pad_two, iban_checksum,
}
use corebc_js.Address.Digits.{to_decimal-two_digits, two_digits}
use corebc_js.Common.{
  ℕ, zero, suc, ◌+◌, ◌-◌, ◌*◌, ◌/◌, ◌%◌, ◌≤◌, ◌<◌, arith, ◌≡◌, refl, sym, ◌∙◌, ap, inl, inr, true,
  [], ◌∷◌, ◌++◌, codes, Text, ltb, leb, ltb→lt, leb→le, Bool-cases, length, take, drop, slice,
  length-append, length-drop, ok, take-append-drop,
}
use mathlib.Core.Path.{ap₂}

abbrev decimal_value : Text → ℕ
decimal_value s = of_digits 10 hex_value 0 s

step_mod : (m n d : ℕ) → m % 97 ≡ n % 97 → (m * 10 + d) % 97 ≡ (n * 10 + d) % 97
step_mod m n d h = omega arith

of_digits-mod :
    (m n : ℕ) (s : Text)
    → m % 97 ≡ n % 97
    → of_digits 10 hex_value m s % 97 ≡ of_digits 10 hex_value n s % 97
of_digits-mod m n [] h = h
of_digits-mod m n (c ∷ s) h =
    of_digits-mod (m * 10 + hex_value c) (n * 10 + hex_value c) s (step_mod m n (hex_value c) h)

one_value : (k : ℕ) → k < 10 → hex_value (b'0' + k) ≡ k
one_value k h = ground arith

two_digits-value : (k : ℕ) → k < 97 → decimal_value (two_digits k) ≡ k
two_digits-value k h = elim (Bool-cases (ltb k 10)) [
  | inl e ↦ rw e (ap (λ x. 0 * 10 + x) (one_value k (ltb→lt k 10 e)) ∙ omega arith)
  | inr e ↦ rw e (
      ap₂ (λ x y. (0 * 10 + x) * 10 + y) (one_value (k / 10) (omega arith))
        (one_value (k % 10) (omega arith))
      ∙ omega arith)
]

two_digits-length : (k : ℕ) → length (two_digits k) ≤ 2
two_digits-length k = ground arith

-- One round: the block gives way to its remainder.
abbrev next_round : Text → Text
next_round s = to_decimal (decimal_value (take safe_digits s) % 97) ++ drop safe_digits s

remainder_text : (v : ℕ) → to_decimal (v % 97) ≡ two_digits (v % 97)
remainder_text v = to_decimal-two_digits (v % 97) (omega arith)

next_round-value : (s : Text) → decimal_value (next_round s) % 97 ≡ decimal_value s % 97
next_round-value s =
    let v = decimal_value (take safe_digits s) in
    let rest = drop safe_digits s in
    ap (λ t. t % 97)
      (of_digits-append 10 hex_value 0 (to_decimal (v % 97)) rest
        ∙ ap (λ t. of_digits 10 hex_value t rest)
            (ap decimal_value (remainder_text v) ∙ two_digits-value (v % 97) (omega arith)))
    ∙ of_digits-mod (v % 97) v rest (omega arith)
    ∙ ap (λ t. t % 97)
        (sym (of_digits-append 10 hex_value 0 (take safe_digits s) rest)
          ∙ ap decimal_value (take-append-drop safe_digits s))

next_round-length :
    (s : Text) → leb safe_digits (length s) ≡ true → length (next_round s) < length s
next_round-length s h =
    let v = decimal_value (take safe_digits s) in
    let rest = drop safe_digits s in
    omega (
      arith,
      length-append (to_decimal (v % 97)) rest,
      ap length (remainder_text v),
      two_digits-length (v % 97),
      length-drop safe_digits s,
      leb→le safe_digits (length s) h,
    )

iban_loop-value :
    (f : ℕ) (s : Text)
    → length s < f
    → (t : Text) × (iban_loop f s ≡ ok t) × (decimal_value t % 97 ≡ decimal_value s % 97)
unfolding iban_loop
iban_loop-value zero s h = absurd (omega arith)
iban_loop-value (suc f) s h = elim (Bool-cases (leb safe_digits (length s))) [
  | inl e ↦
      let (t, r, v) = iban_loop-value f (next_round s) (omega (arith, next_round-length s e)) in
      (t, rw e r, v ∙ next_round-value s)
  | inr e ↦ (s, rw e refl, refl)
]

abbrev pub iban_digits : Text → Text
iban_digits s = expand_iban (drop 4 s ++ slice 0 2 s ++ codes "00")

-- For every text, the loop of `ibanChecksum` ends, and the checksum is 98 less the remainder by 97
-- of the whole number that the expanded text spells, in two digits.
pub iban_checksum_lem :
    (s : Text)
    → iban_checksum s
      ≡ ok (pad_two (to_decimal (98 - of_digits 10 hex_value 0 (iban_digits (upper_case s)) % 97)))
unfolding iban_checksum
iban_checksum_lem s =
    let d = iban_digits (upper_case s) in
    let (t, r, v) = iban_loop-value (length d + 1) d (omega arith) in
    rw r (ap (λ k. ok (pad_two (to_decimal (98 - k)))) v)
