-- ===== src/Utils/Data/Hex.antt =====
-- The texts of byte arrays: `hexlify` and `getBytes` of src.ts/utils/data.ts undo one another.
use corebc_js.Common.Bits.{all_below, all_below_sound, eq_below, low_nibble, high_nibble}
use corebc_js.Utils.Data.{
  text, is_hex_digit, hex_value, to_lower, lower_case, is_pairs, is_data_text, pair_bytes,
  get_bytes, hex_char, byte_digits, hexlify_bytes, is_bytes,
}
use corebc_js.Common.{
  ℕ, ◌+◌, ◌*◌, ◌/◌, ◌%◌, ◌<◌, bit_and, arith, ◌≡◌, refl, ◌∙◌, Bool, true, ◌&&◌, List, [], ◌∷◌, Text,
  ltb, ◌==◌, if◌then◌else◌, ltb→lt, ==_iff, &&-left, &&-right, All, sym, ap, inl, inr, Bool-cases,
  drop, ok-injective, ok, all,
}
use mathlib.Core.Path.{ap₂, subst}

abbrev pub IsByte : ℕ → Type 0
IsByte b = b < 256

abbrev pub IsBytes : List ℕ → Type 0
IsBytes = All IsByte

-- The sixteen digits, checked one by one.
pub hex_char-IsHexDigit : (n : ℕ) → n < 16 → is_hex_digit (hex_char n) ≡ true
unfolding hex_char all_below
hex_char-IsHexDigit n h = all_below_sound 16 (λ y. is_hex_digit (hex_char y)) n refl h

pub hex_value-hex_char : (n : ℕ) → n < 16 → hex_value (hex_char n) ≡ n
unfolding hex_char all_below
hex_value-hex_char n h = eq_below 16 (λ y. hex_value (hex_char y)) (λ y. y) n refl h

-- The digits, upper or lower, are below 128, and each is written again in lower case.
digit_check : ℕ → Bool
digit_check c =
    if is_hex_digit c then hex_char (hex_value c) == to_lower c && ltb (hex_value c) 16 else true

digit_table : all_below 128 digit_check ≡ true
unfolding hex_char all_below digit_check
digit_table = refl

pub digit_below : (c : ℕ) → is_hex_digit c ≡ true → c < 128
digit_below c h = ground arith

digit_checked :
    (c : ℕ)
    → is_hex_digit c ≡ true
    → (hex_char (hex_value c) == to_lower c && ltb (hex_value c) 16) ≡ true
unfolding digit_check
digit_checked c h = rw h at (all_below_sound 128 digit_check c digit_table (digit_below c h))

pub hex_char-hex_value : (c : ℕ) → is_hex_digit c ≡ true → hex_char (hex_value c) ≡ to_lower c
hex_char-hex_value c h = (==_iff _ _).0 (&&-left _ _ (digit_checked c h))

pub hex_value-lt : (c : ℕ) → is_hex_digit c ≡ true → hex_value c < 16
hex_value-lt c h = ltb→lt _ _ (&&-right _ _ (digit_checked c h))

nibble_pair :
    (a b : ℕ)
    → a < 16
    → b < 16
    → (bit_and (a * 16 + b) 0xf0 / 16 ≡ a) × (bit_and (a * 16 + b) 0x0f ≡ b)
nibble_pair a b ha hb = (
  high_nibble (a * 16 + b) (omega arith) ∙ omega arith,
  low_nibble (a * 16 + b) (omega arith) ∙ omega arith,
)

pub byte_digits-IsPairs : (v : List ℕ) → IsBytes v → is_pairs (byte_digits v) ≡ true
unfolding is_pairs byte_digits
byte_digits-IsPairs [] h = refl
byte_digits-IsPairs (b ∷ v) (hb, hv) =
    rw
      (
        high_nibble b hb,
        low_nibble b hb,
        hex_char-IsHexDigit (b / 16) (omega arith),
        hex_char-IsHexDigit (b % 16) (omega arith),
      )
      (byte_digits-IsPairs v hv)

byte_value :
    (b : ℕ)
    → b < 256
    → hex_value (hex_char (bit_and b 0xf0 / 16)) * 16 + hex_value (hex_char (bit_and b 0x0f)) ≡ b
byte_value b h =
    ap₂ (λ x y. x * 16 + y)
      (ap (λ t. hex_value (hex_char t)) (high_nibble b h)
        ∙ hex_value-hex_char (b / 16) (omega arith))
      (ap (λ t. hex_value (hex_char t)) (low_nibble b h)
        ∙ hex_value-hex_char (b % 16) (omega arith))
    ∙ omega arith

pub pairs_parts :
    (c d : ℕ) (s : Text)
    → is_pairs (c ∷ d ∷ s) ≡ true
    → (is_hex_digit c ≡ true) × (is_hex_digit d ≡ true) × (is_pairs s ≡ true)
unfolding is_pairs
pairs_parts c d s h =
    let p = is_hex_digit c in
    let q = is_hex_digit d in
    let pq = &&-left (p && q) (is_pairs s) h in
    (&&-left p q pq, &&-right p q pq, &&-right (p && q) (is_pairs s) h)

pub pair_bytes-byte_digits : (v : List ℕ) → IsBytes v → pair_bytes (byte_digits v) ≡ v
unfolding pair_bytes byte_digits
pair_bytes-byte_digits [] h = refl
pair_bytes-byte_digits (b ∷ v) (hb, hv) =
    ap₂ (λ x t. x ∷ t) (byte_value b hb) (pair_bytes-byte_digits v hv)

pub byte_digits-pair_bytes :
    (s : Text) → is_pairs s ≡ true → byte_digits (pair_bytes s) ≡ lower_case s
unfolding is_pairs pair_bytes byte_digits
byte_digits-pair_bytes [] h = refl
byte_digits-pair_bytes (c ∷ []) h = cc
byte_digits-pair_bytes (c ∷ d ∷ s) h =
    let (hc, hd, hs) = pairs_parts c d s h in
    let (e, g) = nibble_pair (hex_value c) (hex_value d) (hex_value-lt c hc) (hex_value-lt d hd) in
    ap₂ (λ x t. x ∷ t) (ap hex_char e ∙ hex_char-hex_value c hc)
      (ap₂ (λ x t. x ∷ t) (ap hex_char g ∙ hex_char-hex_value d hd) (byte_digits-pair_bytes s hs))

pair-lt : (a b : ℕ) → a < 16 → b < 16 → a * 16 + b < 256
pair-lt a b ha hb = omega arith

pub pair_bytes-IsBytes : (s : Text) → is_pairs s ≡ true → IsBytes (pair_bytes s)
unfolding is_pairs pair_bytes
pair_bytes-IsBytes [] h = tt
pair_bytes-IsBytes (c ∷ []) h = tt
pair_bytes-IsBytes (c ∷ d ∷ s) h =
    let (hc, hd, hs) = pairs_parts c d s h in
    let u = hex_value-lt c hc in
    let w = hex_value-lt d hd in (pair-lt (hex_value c) (hex_value d) u w, pair_bytes-IsBytes s hs)

-- The bytes of a hexadecimal text of a byte array are that array.
pub get_bytes-hexlify_bytes : (v : List ℕ) → IsBytes v → get_bytes (text (hexlify_bytes v)) ≡ ok v
unfolding get_bytes is_data_text hexlify_bytes
get_bytes-hexlify_bytes v h = rw (byte_digits-IsPairs v h) (ap ok (pair_bytes-byte_digits v h))

-- What a text with the prefix must be for `getBytes` to take it.
pub data_text_parts : (s : Text) → is_data_text s ≡ true → is_pairs (drop 2 s) ≡ true
unfolding is_data_text
data_text_parts [] h = cc
data_text_parts (z ∷ []) h = cc
data_text_parts (z ∷ x ∷ s) h = ground arith

pub get_bytes_text :
    (s : Text) {v : List ℕ}
    → get_bytes (text s) ≡ ok v
    → (is_data_text s ≡ true) × (pair_bytes (drop 2 s) ≡ v)
unfolding get_bytes
get_bytes_text s h = elim (Bool-cases (is_data_text s)) [
  | inl e ↦ (e, ok-injective (rw e at h))
  | inr e ↦ cc (h, e)
]

lower_case-prefix :
    (s : Text) → is_data_text s ≡ true → lower_case s ≡ b'0' ∷ b'x' ∷ lower_case (drop 2 s)
unfolding is_data_text
lower_case-prefix [] h = cc
lower_case-prefix (z ∷ []) h = cc
lower_case-prefix (z ∷ x ∷ s) h = ground arith

-- The other way: the bytes read from a text are written as that text in lower case.
pub hexlify_bytes-get_bytes :
    (s : Text) {v : List ℕ} → get_bytes (text s) ≡ ok v → hexlify_bytes v ≡ lower_case s
unfolding hexlify_bytes
hexlify_bytes-get_bytes s h =
    let (e, p) = get_bytes_text s h in
    ap (λ t. b'0' ∷ b'x' ∷ t)
      (ap byte_digits (sym p) ∙ byte_digits-pair_bytes (drop 2 s) (data_text_parts s e))
    ∙ sym (lower_case-prefix s e)

pub get_bytes-IsBytes : (s : Text) {v : List ℕ} → get_bytes (text s) ≡ ok v → IsBytes v
get_bytes-IsBytes s h =
    let (e, p) = get_bytes_text s h in
    subst IsBytes p (pair_bytes-IsBytes (drop 2 s) (data_text_parts s e))

pub is_bytes_sound : (v : List ℕ) → is_bytes v ≡ true → IsBytes v
unfolding is_bytes
is_bytes_sound [] h = tt
is_bytes_sound (b ∷ v) h = (
  ltb→lt b 256 (&&-left (ltb b 256) (all (λ c. ltb c 256) v) h),
  is_bytes_sound v (&&-right (ltb b 256) (all (λ c. ltb c 256) v) h),
)
