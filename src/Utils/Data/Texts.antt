-- ===== src/Utils/Data/Texts.antt =====
-- `hexlify` and `arrayify` of src.ts/utils/data.ts on texts.
use corebc_js.Common.Bits.{all_below, all_below_sound, low_nibble, high_nibble}
use corebc_js.Utils.Data.{
  text, string, no_options, left, is_hex_digit, hex_value, to_lower, lower_case, is_pairs,
  is_hex_text, is_hex_string, whole_bytes, is_data_text, pair_bytes, get_bytes, hex_char,
  byte_digits, hexlify_bytes, hexlify_text, hexlify, has_comma, add_prefix,
}
use corebc_js.Utils.Data.Hex.{IsBytes}
use corebc_js.Utils.Data.Slices.{parse_pairs, arrayify}
use corebc_js.Common.{
  ℕ, ◌%◌, ◌<◌, arith, ◌≡◌, refl, Bool, true, false, not, ◌&&◌, some, List, ◌∷◌, Text, ◌==◌, ==_iff,
  &&-left, &&-right, length, all, ok, ◌+◌, ◌*◌, ◌/◌, bit_and, ap, [], suc,
}
use mathlib.Core.Path.{ap₂}

char_check : ℕ → Bool
unfolding hex_char
char_check n =
    is_hex_digit (hex_char n) && to_lower (hex_char n) == hex_char n && not (hex_char n == b',')

char_table : all_below 16 char_check ≡ true
unfolding all_below char_check
char_table = refl

char_checked :
    (n : ℕ)
    → n < 16
    → (is_hex_digit (hex_char n) ≡ true)
      × (to_lower (hex_char n) ≡ hex_char n)
      × ((hex_char n == b',') ≡ false)
unfolding char_check
char_checked n h =
    let all3 = all_below_sound 16 char_check n char_table h in
    let p = is_hex_digit (hex_char n) in
    let q = to_lower (hex_char n) == hex_char n in
    let r = not (hex_char n == b',') in
    let pq = &&-left (p && q) r all3 in
    (&&-left p q pq, (==_iff _ _).0 (&&-right p q pq), ground (arith, &&-right (p && q) r all3))

-- The text of bytes is hexadecimal, in lower case, of even length, and has no comma.
pub record IsPlain (s : Text) : Type 0 where
  pub digits_only : all is_hex_digit s ≡ true
  pub lower_already : lower_case s ≡ s
  pub even_length : length s % 2 ≡ 0
  pub no_comma : has_comma s ≡ false

IsPlain-pair :
    (n m : ℕ) (s : Text) → n < 16 → m < 16 → IsPlain s → IsPlain (hex_char n ∷ hex_char m ∷ s)
unfolding has_comma
IsPlain-pair n m s hn hm p =
    let (d1, l1, c1) = char_checked n hn in
    let (d2, l2, c2) = char_checked m hm in
    record {
      digits_only = rw (d1, d2) p.digits_only;
      lower_already = ap₂ (λ x t. x ∷ t) l1 (ap₂ (λ x t. x ∷ t) l2 p.lower_already);
      even_length = omega (arith, p.even_length);
      no_comma = rw (c1, c2) p.no_comma;
    }

pub byte_digits-IsPlain : (v : List ℕ) → IsBytes v → IsPlain (byte_digits v)
unfolding byte_digits has_comma
byte_digits-IsPlain [] h = record {
  digits_only = refl;
  lower_already = refl;
  even_length = refl;
  no_comma = refl;
}
byte_digits-IsPlain (b ∷ v) (hb, hv) =
    let hi : bit_and b 0xf0 / 16 < 16 = omega (arith, high_nibble b hb) in
    let lo : bit_and b 0x0f < 16 = omega (arith, low_nibble b hb) in
    IsPlain-pair (bit_and b 0xf0 / 16) (bit_and b 0x0f) (byte_digits v) hi lo
      (byte_digits-IsPlain v hv)

plain_text :
    (s : Text) → IsPlain s → hexlify_text no_options (b'0' ∷ b'x' ∷ s) ≡ ok (b'0' ∷ b'x' ∷ s)
unfolding hexlify_text
plain_text s p =
    let even : (length (b'0' ∷ b'x' ∷ s) % 2 == 0) ≡ true = ground (arith, p.even_length) in
    rw (p.digits_only, even, p.lower_already)

-- `hexlify` leaves the text of a byte array as it is.
pub hexlify-hexlify_bytes :
    (to_byte : Text → ℕ) (v : List ℕ)
    → IsBytes v
    → hexlify to_byte no_options (string (hexlify_bytes v)) ≡ ok (hexlify_bytes v)
unfolding hexlify hexlify_bytes
hexlify-hexlify_bytes to_byte v h =
    let p = byte_digits-IsPlain v h in rw p.no_comma (plain_text (byte_digits v) p)

not_x : (d : ℕ) → is_hex_digit d ≡ true → (d == b'x') ≡ false
not_x d h = ground arith

pub digit_pairs :
    (s : Text)
    → all is_hex_digit s ≡ true
    → length s % 2 ≡ 0
    → (is_pairs s ≡ true) × (parse_pairs s ≡ pair_bytes s)
unfolding is_pairs parse_pairs pair_bytes
digit_pairs [] h e = (refl, refl)
digit_pairs (c ∷ []) h e = absurd (omega arith)
digit_pairs (c ∷ d ∷ s) h e =
    let p = is_hex_digit c in
    let q = is_hex_digit d in
    let hp = &&-left p (q && all is_hex_digit s) h in
    let hqs = &&-right p (q && all is_hex_digit s) h in
    let hq = &&-left q (all is_hex_digit s) hqs in
    let (ih, eq) = digit_pairs s (&&-right q (all is_hex_digit s) hqs) (omega arith) in
    (rw (hp, hq) ih, rw (not_x d hq) (ap (λ t. (hex_value c * 16 + hex_value d) ∷ t) eq))

hex_text_parts :
    (z x : ℕ) (s : Text)
    → (z == b'0' && x == b'x' && all is_hex_digit s) ≡ true
    → (z ≡ b'0') × (x ≡ b'x') × (all is_hex_digit s ≡ true)
hex_text_parts z x s h =
    let zx = &&-left (z == b'0' && x == b'x') (all is_hex_digit s) h in
    (
      (==_iff z b'0').0 (&&-left (z == b'0') (x == b'x') zx),
      (==_iff x b'x').0 (&&-right (z == b'0') (x == b'x') zx),
      &&-right (z == b'0' && x == b'x') (all is_hex_digit s) h,
    )

-- A text that `isHexString` takes as whole bytes is one that `getBytes` takes.
pub hex_string-IsData : (s : Text) → is_hex_string s whole_bytes ≡ true → is_data_text s ≡ true
unfolding is_hex_string is_data_text
hex_string-IsData [] h = cc
hex_string-IsData (z ∷ []) h = cc
hex_string-IsData (z ∷ x ∷ s) h =
    let a = is_hex_text (z ∷ x ∷ s) in
    let b = length (z ∷ x ∷ s) % 2 == 0 in
    let (ez, ex, hs) = hex_text_parts z x s (&&-left a b h) in
    let even : length s % 2 ≡ 0 =
      omega (arith, (==_iff (length (z ∷ x ∷ s) % 2) 0).0 (&&-right a b h)) in
    let (pairs, parsed) = digit_pairs s hs even in rw (ez, ex) pairs

-- On texts of whole bytes `arrayify` and `getBytes` agree.
pub arrayify-get_bytes :
    (s : Text)
    → is_hex_string s whole_bytes ≡ true
    → arrayify no_options (string s) ≡ get_bytes (text s)
unfolding arrayify get_bytes is_hex_string add_prefix
arrayify-get_bytes [] h = cc
arrayify-get_bytes (z ∷ []) h = cc
arrayify-get_bytes (z ∷ x ∷ s) h =
    let a = is_hex_text (z ∷ x ∷ s) in
    let b = length (z ∷ x ∷ s) % 2 == 0 in
    let (ez, ex, hs) = hex_text_parts z x s (&&-left a b h) in
    let even : length s % 2 ≡ 0 =
      omega (arith, (==_iff (length (z ∷ x ∷ s) % 2) 0).0 (&&-right a b h)) in
    let (pairs, parsed) = digit_pairs s hs even in
    rw (ez, ex, hs, pairs, (==_iff (length s % 2) 0).1 even) (ap ok parsed)

not_even_lem : (n : ℕ) → n % 2 ≡ 1 → (suc (suc n) % 2 == 0) ≡ false
not_even_lem n h = ground arith

-- On a text of an odd number of digits, three or more, left padding loses digits:
-- the first byte is 0, and the digits behind it are those from the third on.
pub arrayify_left_pad :
    (c d : ℕ) (s : Text)
    → all is_hex_digit (c ∷ d ∷ s) ≡ true
    → length s % 2 ≡ 1
    → arrayify
        (record { allow_missing_prefix = false; hex_pad = some left })
        (string (b'0' ∷ b'x' ∷ c ∷ d ∷ s))
      ≡ ok (0 ∷ pair_bytes (b'0' ∷ s))
unfolding arrayify add_prefix is_hex_text
arrayify_left_pad c d s h odd =
    let p = is_hex_digit c in
    let q = is_hex_digit d in
    let hs = &&-right q (all is_hex_digit s) (&&-right p (q && all is_hex_digit s) h) in
    let (pairs, parsed) = digit_pairs (b'0' ∷ s) hs (omega arith) in
    let not_even : (length (c ∷ d ∷ s) % 2 == 0) ≡ false = not_even_lem (length s) odd in
    rw (h, not_even) (ap (λ t. ok (0 ∷ t)) parsed)
