-- ===== src/Abi/Contents.antt =====
-- What the coders of addresses, byte strings and texts in src.ts/abi/coders write.
use corebc_js.Common.Radix.{of_digits}
use corebc_js.Utils.Data.{BytesLike, is_hex_digit, get_bytes, hex_value, hexlify_bytes, byte_digits}
use corebc_js.Utils.Data.Hex.{IsBytes, get_bytes-hexlify_bytes}
use corebc_js.Utils.Data.Texts.{byte_digits-IsPlain}
use corebc_js.Utils.Maths.{
  BigNumberish, be_array, to_be_array, get_uint, get_big_int, text_to_bigint, or_invalid, max_value,
  unsigned,
}
use corebc_js.Utils.Maths.Literals.{parse_bigint-hex}
use corebc_js.Utils.Utf8.{error_func, to_utf8_bytes, units_of}
use corebc_js.Utils.Utf8.Points.{IsScalar}
use corebc_js.Utils.Utf8.RoundTrip.{to_utf8_string-to_utf8_bytes}
use corebc_js.Address.{get_address}
use corebc_js.Abi.{Coder, Value, address, fixed_bytes, bytes, string, chars}
use corebc_js.Abi.Writer.{Writer, write_data, write_value, write_bytes, pad_right}
use corebc_js.Abi.Encode.{encode, encode_address, encode_fixed, encode_bytes, octets_of}
use corebc_js.Abi.Layout.{layout, word, sized}
use corebc_js.Abi.Addresses.{length-byte_digits, address_number}
use corebc_js.Abi.Blobs.{bytes_of_text, long_enough}
use corebc_js.Abi.Written.{Adds, Writes, chunk-Adds, write_value-word, write_number}
use corebc_js.Common.{
  ℕ, ◌≤◌, ◌<◌, arith, ◌≡◌, sym, ◌∙◌, ap, List, [], ◌∷◌, ◌++◌, append-nil, append_assoc, Text, ◌==◌,
  ==_iff, length, drop, All, length-append, ◌>>=◌, ◌>>◌, assert, value_or, ok, invalid_argument,
  true, all,
}
use mathlib.Core.Path.{subst}

hex_literal :
    (t : Text)
    → all is_hex_digit t ≡ true
    → 0 < length t
    → to_be_array (BigNumberish.text (b'0' ∷ b'x' ∷ t)) ≡ ok (be_array (of_digits 16 hex_value 0 t))
unfolding to_be_array get_uint get_big_int text_to_bigint
hex_literal [] h l = absurd (omega arith)
hex_literal (c ∷ t) h l =
    ap (λ r. or_invalid r >>= unsigned >>= λ n. ok (be_array n)) (parse_bigint-hex c t h)

hex_number :
    (v : List ℕ)
    → IsBytes v
    → 0 < length v
    → to_be_array (BigNumberish.text (hexlify_bytes v))
      ≡ ok (be_array (of_digits 16 hex_value 0 (byte_digits v)))
unfolding hexlify_bytes
hex_number v h l =
    hex_literal (byte_digits v) (byte_digits-IsPlain v h).digits_only
      (omega (arith, length-byte_digits v))

pub address-Writes :
    (s : Text) (v : List ℕ)
    → IsBytes v
    → length v ≡ 22
    → s ≡ hexlify_bytes v
    → get_address s ≡ ok s
    → Writes address (chars s)
unfolding encode encode_address layout hexlify_bytes
address-Writes s v h l e g w _ =
    let n = of_digits 16 hex_value 0 (drop 2 s) in
    let read : to_be_array (BigNumberish.text s) ≡ ok (be_array n) =
      subst
        (λ t.
          to_be_array (BigNumberish.text t) ≡ ok (be_array (of_digits 16 hex_value 0 (drop 2 t))))
        (sym e) (hex_number v h (omega (arith, l))) in
    chunk-Adds address (chars s) w (
      ap (λ m. m >>= λ a. write_value (BigNumberish.text a) w) g
      ∙ write_value-word (BigNumberish.text s) n w read (address_number s v h l e))

octets-hexlify_bytes :
    (s : Text) (v : List ℕ) → IsBytes v → s ≡ hexlify_bytes v → octets_of (chars s) ≡ ok v
octets-hexlify_bytes s v h e =
    ap (λ t. get_bytes (BytesLike.text t)) e ∙ get_bytes-hexlify_bytes v h

pub fixed_bytes-Writes :
    (size : ℕ) (s : Text) (v : List ℕ)
    → IsBytes v
    → length v ≡ size
    → s ≡ hexlify_bytes v
    → Writes (fixed_bytes size) (chars s)
unfolding encode encode_fixed layout
fixed_bytes-Writes size s v h l e w _ = chunk-Adds (fixed_bytes size) (chars s) w (
    ap (λ m. m >>= λ d. assert (length d == size) invalid_argument >> ok (write_bytes d w))
      (octets-hexlify_bytes s v h e)
    ∙ ap (λ b. assert b invalid_argument >> ok (write_bytes v w)) ((==_iff (length v) size).1 l)
    ∙ ap (λ t. ok (write_data (pad_right t) w)) (sym (bytes_of_text s v h e)))

-- The length and the bytes behind it are two chunks.
sized-Adds :
    (c : Coder) (x : Value) (v : List ℕ) (w : Writer)
    → layout c x ≡ sized v
    → encode c x w ≡ encode_bytes v w
    → length (layout c x) ≤ max_value
    → Adds w c x
unfolding encode_bytes
sized-Adds c x v w l e small =
    let both = ap length l ∙ length-append (word (length v)) (pad_right v) in
    let fits : length v ≤ max_value = omega (arith, long_enough v) in
    record {
      result = write_bytes v (write_data (word (length v)) w);
      added = word (length v) ∷ pad_right v ∷ [];
      returns = e ∙ ap (λ m. m >>= λ w'. ok (write_bytes v w')) (write_number (length v) w fits);
      appended = append_assoc w.chunks (word (length v) ∷ []) (pad_right v ∷ []);
      laid_out = ap (λ t. word (length v) ++ t) (append-nil (pad_right v)) ∙ sym l;
      longer = omega (arith, both);
    }

pub bytes-Writes :
    (s : Text) (v : List ℕ) → IsBytes v → s ≡ hexlify_bytes v → Writes bytes (chars s)
unfolding encode layout
bytes-Writes s v h e w small =
    sized-Adds bytes (chars s) v w (ap sized (bytes_of_text s v h e))
      (ap (λ m. m >>= λ d. encode_bytes d w) (octets-hexlify_bytes s v h e)) small

pub string-Writes :
    (s : Text) (ps : List ℕ) → All IsScalar ps → s ≡ units_of ps → Writes string (chars s)
unfolding encode layout
string-Writes s ps h e w small =
    let (v, written, _, _) = to_utf8_string-to_utf8_bytes error_func ps h in
    let text_bytes : to_utf8_bytes s ≡ ok v = ap to_utf8_bytes e ∙ written in
    sized-Adds string (chars s) v w (ap (λ m. sized (value_or [] m)) text_bytes)
      (ap (λ m. m >>= λ d. encode_bytes d w) text_bytes) small
