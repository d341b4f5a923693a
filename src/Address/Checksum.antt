-- ===== src/Address/Checksum.antt =====
-- `calculateCheckSum` of src.ts/address/index.ts: the check digits of ISO 7064, MOD 97-10.
use corebc_js.Utils.Data.{
  text, get_bytes, hexlify_bytes, byte_digits, is_hex_digit, is_pairs, is_data_text, pair_bytes,
  to_lower, lower_case, hex_char,
}
use corebc_js.Utils.Data.Hex.{byte_digits-pair_bytes, pairs_parts}
use corebc_js.Address.Digits.{check_digits-Closes, checksum_value_lem, Closes, iso_value}
use corebc_js.Address.{replace_0x, check_digits, checksum_value, calculate_check_sum}
use corebc_js.Common.{
  ℕ, ◌*◌, ◌/◌, ◌≡◌, refl, true, [], ◌∷◌, ◌++◌, Text, ◌==◌, &&-left, &&-right, arith, sym, ◌∙◌, ap,
  inl, inr, codes, Bool-cases, all, false, List, ok, bit_and,
}
use mathlib.Core.Path.{ap₂}

pub not_x : (x : ℕ) → is_hex_digit x ≡ true → (x == b'x') ≡ false
not_x x h = ground arith

pub replace_0x-digits : (s : Text) → all is_hex_digit s ≡ true → replace_0x s ≡ s
unfolding replace_0x
replace_0x-digits [] h = refl
replace_0x-digits (z ∷ []) h = refl
replace_0x-digits (z ∷ x ∷ s) h =
    let t = &&-right (is_hex_digit z) (all is_hex_digit (x ∷ s)) h in
    let e = not_x x (&&-left (is_hex_digit x) (all is_hex_digit s) t) in
    elim (Bool-cases (z == b'0')) [
      | inl f ↦ rw f (rw e (ap (λ u. z ∷ u) (replace_0x-digits (x ∷ s) t)))
      | inr f ↦ rw f (ap (λ u. z ∷ u) (replace_0x-digits (x ∷ s) t))
    ]

pub pairs-digits : (s : Text) → is_pairs s ≡ true → all is_hex_digit s ≡ true
unfolding is_pairs
pairs-digits [] h = refl
pairs-digits (c ∷ []) h = cc
pairs-digits (c ∷ d ∷ s) h =
    let (hc, hd, hs) = pairs_parts c d s h in rw hc (rw hd (pairs-digits s hs))

part_bytes :
    (s : Text)
    → is_pairs s ≡ true
    → get_bytes (text (b'0' ∷ b'x' ∷ replace_0x s)) ≡ ok (pair_bytes s)
unfolding get_bytes is_data_text
part_bytes s h = rw (replace_0x-digits s (pairs-digits s h)) (rw h refl)

byte_digits-append : (v w : List ℕ) → byte_digits (v ++ w) ≡ byte_digits v ++ byte_digits w
unfolding byte_digits
byte_digits-append [] w = refl
byte_digits-append (b ∷ v) w =
    ap (λ t. hex_char (bit_and b 0xf0 / 16) ∷ hex_char (bit_and b 0x0f) ∷ t)
      (byte_digits-append v w)

lower_case-append : (s t : Text) → lower_case (s ++ t) ≡ lower_case s ++ lower_case t
lower_case-append [] t = refl
lower_case-append (c ∷ s) t = ap (λ u. to_lower c ∷ u) (lower_case-append s t)

pub all-append :
    (s t : Text)
    → all is_hex_digit s ≡ true
    → all is_hex_digit t ≡ true
    → all is_hex_digit (s ++ t) ≡ true
all-append [] t h k = k
all-append (c ∷ s) t h k =
    rw (&&-left (is_hex_digit c) (all is_hex_digit s) h)
      (all-append s t (&&-right (is_hex_digit c) (all is_hex_digit s) h) k)

hexed : (v w : List ℕ) → replace_0x (hexlify_bytes (v ++ w)) ≡ byte_digits v ++ byte_digits w
unfolding replace_0x hexlify_bytes
hexed v w = byte_digits-append v w

-- For an address and a prefix of whole bytes, `calculateCheckSum` gives two decimal digits, and
-- address, prefix and digits together have the value 1 modulo 97.
pub calculate_check_sum-Closes :
    (a p : Text)
    → is_pairs a ≡ true
    → is_pairs p ≡ true
    → (sum : Text) × (calculate_check_sum a p ≡ ok sum) × Closes (iso_value 0 (a ++ p)) sum
unfolding calculate_check_sum
calculate_check_sum-Closes a p ha hp = (
  check_digits (iso_value 0 (a ++ p) * 100),
  rw (part_bytes a ha) (
      rw (part_bytes p hp) (
        ap (λ t. ok (check_digits (checksum_value (t ++ codes "00"))))
          (hexed (pair_bytes a) (pair_bytes p)
            ∙ ap₂ (λ x y. x ++ y) (byte_digits-pair_bytes a ha) (byte_digits-pair_bytes p hp)
            ∙ sym (lower_case-append a p))
        ∙ ap (λ n. ok (check_digits n))
            (checksum_value_lem (a ++ p)
              (all-append a p (pairs-digits a ha) (pairs-digits p hp))))),
  check_digits-Closes (iso_value 0 (a ++ p)),
)
