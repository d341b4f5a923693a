-- ===== src/Utils/Maths/BigEndian.antt =====
-- The big-endian forms of src.ts/utils/maths.ts: `toBeArray`, `toBeHex` and `toBigInt`.
use corebc_js.Common.Bits.{low_nibble}
use corebc_js.Common.Radix.{of_digits, of_digits-digits, digits-All, digits_head}
use corebc_js.Utils.Data.{
  is_hex_digit, hex_value, hex_char, hex_digits, to_string_16, even_digits, pair_bytes, is_pairs,
}
use corebc_js.Utils.Data.Hex.{IsBytes, hex_char-IsHexDigit, hex_value-hex_char, pair_bytes-IsBytes}
use corebc_js.Utils.Data.Texts.{byte_digits-IsPlain, digit_pairs}
use corebc_js.Utils.Data.Slices.{drop_zeros}
use corebc_js.Utils.Rlp.{nibble_text}
use corebc_js.Utils.Rlp.Lengths.{be_value}
use corebc_js.Utils.Rlp.RoundTrip.{nibble_text-byte_digits}
use corebc_js.Utils.Maths.{
  bigint, get_uint, get_big_int, bytes_to_bigint, or_invalid, be_array, to_be_array,
}
use corebc_js.Utils.Maths.Literals.{parse_bigint-hex}
use corebc_js.Common.{
  ℕ, ◌+◌, ◌*◌, ◌/◌, ◌%◌, arith, ◌≡◌, refl, ◌∙◌, ap, true, ◌&&◌, List, [], ◌∷◌, Text, &&-right, all,
  All, ok, suc, ◌<◌, sym, inl, inr, false, ◌==◌, ==_iff, Bool-cases, length,
}
use mathlib.Core.Path.{ap₂}
use corebc_js.Common.Integers.{pos}

byte_step : (n b : ℕ) → (n * 16 + b / 16) * 16 + b % 16 ≡ n * 256 + b
byte_step n b = omega arith

-- Two digits for each byte: the digits of a byte array stand for its number.
pub hex_of_bytes :
    (n : ℕ) (v : List ℕ)
    → IsBytes v
    → of_digits 16 hex_value n (nibble_text v) ≡ of_digits 256 (λ b. b) n v
unfolding nibble_text
hex_of_bytes n [] h = refl
hex_of_bytes n (b ∷ v) (hb, hv) =
    ap (λ t. of_digits 16 hex_value t (nibble_text v))
      (ap₂ (λ x y. (n * 16 + x) * 16 + y) (hex_value-hex_char (b / 16) (omega arith))
          (ap (λ t. hex_value (hex_char t)) (low_nibble b hb)
            ∙ hex_value-hex_char (b % 16) (omega arith))
        ∙ byte_step n b)
    ∙ hex_of_bytes (n * 256 + b) v hv

-- `toBigInt` of a byte array is the number that its bytes stand for.
pub bytes_to_bigint_lem : (v : List ℕ) → IsBytes v → bytes_to_bigint v ≡ ok (pos (be_value v))
unfolding bytes_to_bigint
bytes_to_bigint_lem v h =
    ap or_invalid (
      parse_bigint-hex b'0' (nibble_text v) (
        ap (all is_hex_digit) (nibble_text-byte_digits v h)
        ∙ (byte_digits-IsPlain v h).digits_only))
    ∙ ap (λ n. ok (pos n)) (hex_of_bytes 0 v h)

-- Pairs of digits the other way.
bytes_of_hex :
    (n : ℕ) (s : Text)
    → is_pairs s ≡ true
    → of_digits 256 (λ b. b) n (pair_bytes s) ≡ of_digits 16 hex_value n s
unfolding is_pairs pair_bytes
bytes_of_hex n [] h = refl
bytes_of_hex n (c ∷ []) h = cc
bytes_of_hex n (c ∷ d ∷ s) h =
    ap (λ t. of_digits 256 (λ b. b) t (pair_bytes s)) (omega arith)
    ∙ bytes_of_hex ((n * 16 + hex_value c) * 16 + hex_value d) s
        (&&-right (is_hex_digit c && is_hex_digit d) (is_pairs s) h)

all_digits : (s : Text) → All (λ c. is_hex_digit c ≡ true) s → all is_hex_digit s ≡ true
all_digits [] h = refl
all_digits (c ∷ s) (hc, hs) = rw hc (all_digits s hs)

hex_digits-all : (v : ℕ) → all is_hex_digit (hex_digits v) ≡ true
unfolding hex_digits
hex_digits-all v =
    all_digits (hex_digits v) (
      digits-All 16 (omega arith) hex_char (λ c. is_hex_digit c ≡ true) hex_char-IsHexDigit v [] tt)

hex_digits-value : (v : ℕ) → of_digits 16 hex_value 0 (hex_digits v) ≡ v
unfolding hex_digits
hex_digits-value v = of_digits-digits 16 (omega arith) hex_char hex_value hex_value-hex_char v []

-- The text of a number padded to whole bytes: its bytes, and what they stand for.
record Spelling (n : ℕ) (s : Text) : Type 0 where
  pairs : is_pairs s ≡ true
  byte_each : IsBytes (pair_bytes s)
  value : be_value (pair_bytes s) ≡ n

spelling :
    (n : ℕ) (s : Text)
    → all is_hex_digit s ≡ true
    → length s % 2 ≡ 0
    → of_digits 16 hex_value 0 s ≡ n
    → Spelling n s
spelling n s h e v =
    let (p, _) = digit_pairs s h e in
    record { pairs = p; byte_each = pair_bytes-IsBytes s p; value = bytes_of_hex 0 s p ∙ v }

odd_succ : (n : ℕ) → (n % 2 == 0) ≡ false → suc n % 2 ≡ 0
odd_succ n h = ground arith

even_digits-Spelling :
    (n : ℕ) (s : Text)
    → all is_hex_digit s ≡ true
    → of_digits 16 hex_value 0 s ≡ n
    → Spelling n (even_digits s)
even_digits-Spelling n s h v = elim (Bool-cases (length s % 2 == 0)) [
  | inl e ↦ rw e (spelling n s h ((==_iff (length s % 2) 0).0 e) v)
  | inr e ↦ rw e (spelling n (b'0' ∷ s) h (odd_succ (length s) e) v)
]

pub to_string_16-digits :
    (n : ℕ)
    → (all is_hex_digit (to_string_16 n) ≡ true) × (of_digits 16 hex_value 0 (to_string_16 n) ≡ n)
unfolding to_string_16
to_string_16-digits n = elim (Bool-cases (n == 0)) [
  | inl e ↦ rw e (refl, sym ((==_iff n 0).0 e))
  | inr e ↦ rw e (hex_digits-all n, hex_digits-value n)
]

drop_zeros-cons : (b : ℕ) (v : List ℕ) → 0 < b → drop_zeros (b ∷ v) ≡ b ∷ v
unfolding drop_zeros
drop_zeros-cons b v h = ground arith

-- No zero byte stands in front of the bytes of a number that is not 0.
no_leading_zero :
    (c : ℕ) (s : Text)
    → 0 < hex_value c
    → drop_zeros (pair_bytes (even_digits (c ∷ s))) ≡ pair_bytes (even_digits (c ∷ s))
unfolding pair_bytes
no_leading_zero c [] h = drop_zeros-cons (hex_value b'0' * 16 + hex_value c) [] (omega arith)
no_leading_zero c (d ∷ s) h = elim (Bool-cases (length (c ∷ d ∷ s) % 2 == 0)) [
  | inl e ↦ rw e (drop_zeros-cons (hex_value c * 16 + hex_value d) (pair_bytes s) (omega arith))
  | inr e ↦
      rw e (drop_zeros-cons (hex_value b'0' * 16 + hex_value c) (pair_bytes (d ∷ s)) (omega arith))
]

pub to_string_16-hex_digits : (n : ℕ) → 0 < n → to_string_16 n ≡ hex_digits n
unfolding to_string_16
to_string_16-hex_digits n h = elim (Bool-cases (n == 0)) [
  | inl e ↦ ground arith
  | inr e ↦ rw e refl
]

hex_digits-head :
    (n : ℕ) → 0 < n → (c : ℕ) × (s : Text) × (hex_digits n ≡ c ∷ s) × (0 < hex_value c)
unfolding hex_digits
hex_digits-head n h =
    let first : (d : ℕ) × (rest : Text) × (hex_digits n ≡ hex_char d ∷ rest) × (0 < d) × (d < 16) =
      digits_head 16 _ hex_char n [] h in
    let (d, rest, e, lo, hi) = first in (hex_char d, rest, e, rw (hex_value-hex_char d hi) lo)

to_string_16-head :
    (n : ℕ) → 0 < n → (c : ℕ) × (s : Text) × (to_string_16 n ≡ c ∷ s) × (0 < hex_value c)
to_string_16-head n h =
    let (c, s, e, lo) = hex_digits-head n h in (c, s, to_string_16-hex_digits n h ∙ e, lo)

pub be_array-Spelling :
    (n : ℕ)
    → IsBytes (be_array n) × (be_value (be_array n) ≡ n) × (drop_zeros (be_array n) ≡ be_array n)
unfolding be_array
be_array-Spelling n = elim (Bool-cases (n == 0)) [
  | inl e ↦ rw e (tt, sym ((==_iff n 0).0 e), unfold drop_zeros in refl)
  | inr e ↦
      let (d, v) = to_string_16-digits n in
      let sp = even_digits-Spelling n (to_string_16 n) d v in
      let (c, s, h, lo) = to_string_16-head n (ground arith) in
      rw e (sp.byte_each, sp.value, rw h (no_leading_zero c s lo))
]

-- `toBeArray` of a number gives bytes with no zero byte in front, and `toBigInt` reads the number
-- back from them.
pub to_be_array_lem :
    (n : ℕ)
    → (v : List ℕ) × (to_be_array (bigint (pos n)) ≡ ok v)
      × IsBytes v
      × (drop_zeros v ≡ v)
      × (bytes_to_bigint v ≡ ok (pos n))
unfolding to_be_array get_uint get_big_int
to_be_array_lem n =
    let (b, v, z) = be_array-Spelling n in
    (be_array n, refl, b, z, bytes_to_bigint_lem (be_array n) b ∙ ap (λ k. ok (pos k)) v)
