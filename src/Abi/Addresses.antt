-- ===== src/Abi/Addresses.antt =====
-- src.ts/abi/coders/address.ts reads an address from its number: a text of lower case digits is
-- known from its length and its number.
use native.Mathlib.Nat.{pow-suc, pow-zero}
use corebc_js.Common.Radix.{of_digits, digits-All, length-digits}
use corebc_js.Utils.Data.{hex_value, hex_char, hex_digits, to_string_16, byte_digits, hexlify_bytes}
use corebc_js.Utils.Data.Hex.{IsBytes, hex_value-hex_char}
use corebc_js.Utils.Maths.{get_uint, pad_start, to_be_hex, bigint}
use corebc_js.Utils.Maths.BigEndian.{hex_of_bytes, to_string_16-digits}
use corebc_js.Utils.Rlp.{nibble_text}
use corebc_js.Utils.Rlp.Lengths.{be_value}
use corebc_js.Utils.Rlp.RoundTrip.{nibble_text-byte_digits}
use corebc_js.Address.{get_address}
use corebc_js.Common.Integers.{pos}
use corebc_js.Abi.{address, chars}
use corebc_js.Abi.Decode.{decode, address_of, checked_text, text_of}
use corebc_js.Abi.Layout.{layout, word}
use corebc_js.Abi.Scalars.{ReadsBack, word-ReadsBack}
use corebc_js.Common.{
  ℕ, zero, suc, ◌+◌, ◌*◌, ◌/◌, ◌%◌, ◌^◌, ◌≤◌, ◌<◌, arith, ◌≡◌, refl, sym, ◌∙◌, ap, inl, inr, List,
  [], ◌∷◌, ◌++◌, Text, ◌==◌, Bool-cases, length, replicate, All, ◌-◌, some, le→leb, length-append,
  length-replicate, All-append, All-replicate, ok, drop,
}
use mathlib.Core.Path.{ap₂, subst}
use corebc_js.Common.Bits.{low_nibble}

abbrev IsLower : ℕ → Type 0
IsLower c = (hex_char (hex_value c) ≡ c) × (hex_value c < 16)

hex_char-IsLower : (d : ℕ) → d < 16 → IsLower (hex_char d)
hex_char-IsLower d h = (ap hex_char (hex_value-hex_char d h), rw (hex_value-hex_char d h) h)

one_digit : (m n c d : ℕ) → c < 16 → d < 16 → m * 16 + c ≡ n * 16 + d → (m ≡ n) × (c ≡ d)
one_digit m n c d hc hd h = (omega arith, omega arith)

-- Texts of one length with one number are the same.
same_digits :
    (m n : ℕ) (s t : Text)
    → length s ≡ length t
    → All IsLower s
    → All IsLower t
    → of_digits 16 hex_value m s ≡ of_digits 16 hex_value n t
    → (m ≡ n) × (s ≡ t)
same_digits m n [] [] l hs ht h = (h, refl)
same_digits m n [] (d ∷ t) l hs ht h = absurd (omega arith)
same_digits m n (c ∷ s) [] l hs ht h = absurd (omega arith)
same_digits m n (c ∷ s) (d ∷ t) l ((ec, lc), hs) ((ed, ld), ht) h =
    let (e, rest) =
      same_digits (m * 16 + hex_value c) (n * 16 + hex_value d) s t (omega arith) hs ht h in
    let (high, low) = one_digit m n (hex_value c) (hex_value d) lc ld e in
    (high, ap₂ (λ x u. x ∷ u) (sym ec ∙ ap hex_char low ∙ ed) rest)

nibble_text-IsLower : (w : List ℕ) → IsBytes w → All IsLower (nibble_text w)
unfolding nibble_text
nibble_text-IsLower [] h = tt
nibble_text-IsLower (b ∷ w) (hb, hw) = (
  hex_char-IsLower (b / 16) (omega arith),
  (
    subst (λ d. IsLower (hex_char d)) (sym (low_nibble b hb))
        (hex_char-IsLower (b % 16) (omega arith)),
    nibble_text-IsLower w hw,
  ),
)

byte_digits-IsLower : (w : List ℕ) → IsBytes w → All IsLower (byte_digits w)
byte_digits-IsLower w h =
    subst (All IsLower) (nibble_text-byte_digits w h) (nibble_text-IsLower w h)

to_string_16-IsLower : (n : ℕ) → All IsLower (to_string_16 n)
unfolding to_string_16 hex_digits
to_string_16-IsLower n = elim (Bool-cases (n == 0)) [
  | inl e ↦ rw e (hex_char-IsLower 0 (omega arith), tt)
  | inr e ↦ rw e (digits-All 16 (omega arith) hex_char IsLower hex_char-IsLower n [] tt)
]

length-to_string_16 : (n k : ℕ) → n < 16 ^ suc k → length (to_string_16 n) ≤ suc k
unfolding to_string_16 hex_digits
length-to_string_16 n k h = elim (Bool-cases (n == 0)) [
  | inl e ↦ rw e (omega arith)
  | inr e ↦
      let bound : length (hex_digits n) ≤ suc k + 0 = length-digits 16 _ hex_char (suc k) n [] h in
      let one : length (hex_digits n) ≤ suc k = omega arith in rw e one
]

pub length-byte_digits : (w : List ℕ) → length (byte_digits w) ≡ length w * 2
unfolding byte_digits
length-byte_digits [] = refl
length-byte_digits (b ∷ w) = omega (arith, length-byte_digits w)

zero_digits :
    (k : ℕ) (s : Text)
    → of_digits 16 hex_value 0 (replicate k b'0' ++ s) ≡ of_digits 16 hex_value 0 s
zero_digits zero s = refl
zero_digits (suc k) s = zero_digits k s

be_value-lt :
    (n : ℕ) (w : List ℕ) → IsBytes w → of_digits 256 (λ b. b) n w < (n + 1) * 256 ^ length w
be_value-lt n [] h = rw (pow-zero 256) (omega arith)
be_value-lt n (b ∷ w) (hb, hw) =
    let p = 256 ^ length w in
    let rest : of_digits 256 (λ d. d) (n * 256 + b) w < (n * 256 + b + 1) * p =
      be_value-lt (n * 256 + b) w hw in
    let more : (n * 256 + b + 1) * p ≤ (n + 1) * (p * 256) = step p in
    let whole : of_digits 256 (λ d. d) (n * 256 + b) w < (n + 1) * (p * 256) = omega arith in
    subst (λ q. of_digits 256 (λ d. d) (n * 256 + b) w < (n + 1) * q) (sym (pow-suc 256 (length w)))
      whole
  where
    step : (p : ℕ) → (n * 256 + b + 1) * p ≤ (n + 1) * (p * 256)
    step p = grind arith

to_be_hex-bytes :
    (w : List ℕ)
    → IsBytes w
    → length w ≡ 22
    → to_be_hex (bigint (pos (be_value w))) (some 22) ≡ ok (hexlify_bytes w)
unfolding to_be_hex hexlify_bytes get_uint
to_be_hex-bytes w h l =
    let n = be_value w in
    let bound : n < 256 ^ 22 = subst (λ k. n < (0 + 1) * 256 ^ k) l (be_value-lt 0 w h) in
    let short : length (to_string_16 n) ≤ 44 = length-to_string_16 n 43 (omega arith) in
    rw (le→leb (length (to_string_16 n)) 44 short)
      (ap (λ s. ok (b'0' ∷ b'x' ∷ s)) (padded w h l short))
  where
    padded :
        (w : List ℕ)
        → IsBytes w
        → length w ≡ 22
        → length (to_string_16 (be_value w)) ≤ 44
        → pad_start 44 (to_string_16 (be_value w)) ≡ byte_digits w
    padded w h l short =
        let s = to_string_16 (be_value w) in
        (same_digits 0 0 (pad_start 44 s) (byte_digits w)
          (omega (
            arith,
            length-append (replicate (44 - length s) b'0') s,
            length-replicate {A = ℕ} (44 - length s) b'0',
            length-byte_digits w,
          ))
          (All-append IsLower (replicate (44 - length s) b'0') s
            (All-replicate IsLower (44 - length s) b'0' (hex_char-IsLower 0 (omega arith)))
            (to_string_16-IsLower (be_value w)))
          (byte_digits-IsLower w h)
          (zero_digits (44 - length s) s
            ∙ (to_string_16-digits (be_value w)).1
            ∙ sym (hex_of_bytes 0 w h)
            ∙ ap (of_digits 16 hex_value 0) (nibble_text-byte_digits w h))).1

-- The number of an address text.
pub number_of_address :
    (s : Text) (w : List ℕ)
    → IsBytes w
    → s ≡ hexlify_bytes w
    → of_digits 16 hex_value 0 (drop 2 s) ≡ be_value w
unfolding hexlify_bytes
number_of_address s w h e =
    ap (λ t. of_digits 16 hex_value 0 (drop 2 t)) e
    ∙ ap (of_digits 16 hex_value 0) (sym (nibble_text-byte_digits w h))
    ∙ hex_of_bytes 0 w h

pub address_bound : (w : List ℕ) → IsBytes w → length w ≡ 22 → be_value w < 2 ^ 256
address_bound w h l =
    let bound : be_value w < 256 ^ 22 =
      subst (λ k. be_value w < (0 + 1) * 256 ^ k) l (be_value-lt 0 w h) in
    omega arith

pub address_number :
    (s : Text) (w : List ℕ)
    → IsBytes w
    → length w ≡ 22
    → s ≡ hexlify_bytes w
    → of_digits 16 hex_value 0 (drop 2 s) < 2 ^ 256
address_number s w h l e =
    subst (λ n. n < 2 ^ 256) (sym (number_of_address s w h e)) (address_bound w h l)

pub address-ReadsBack :
    (s : Text) (w : List ℕ)
    → IsBytes w
    → length w ≡ 22
    → s ≡ hexlify_bytes w
    → get_address s ≡ ok s
    → ReadsBack address (chars s)
unfolding decode layout address_of
address-ReadsBack s w h l e g =
    word-ReadsBack address (chars s) address_of (be_value w) (address_bound w h l)
      (ap word (number_of_address s w h e)) (λ r. refl)
      (ap checked_text (to_be_hex-bytes w h l ∙ ap ok (sym e)) ∙ ap text_of g)
