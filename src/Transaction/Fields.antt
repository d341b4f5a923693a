-- ===== src/Transaction/Fields.antt =====
-- The fields of src.ts/transaction/transaction.ts together: what `serialize` lists, `parse` takes apart.
use corebc_js.Common.Integers.{ℤ, pos}
use corebc_js.Utils.Data.{
  array, string, number, bigint, hexlify, hexlify_bytes, hexlify_number, hexlify_bigint,
  byte_digits, no_options, max_safe, check_safe_uint53, is_hex_string, whole_bytes, is_hex_text,
  hex_digits, even_digits, length_fits,
}
use corebc_js.Utils.Data.Hex.{IsBytes, get_bytes-hexlify_bytes}
use corebc_js.Utils.Data.Slices.{arrayify, arrayify_text}
use corebc_js.Utils.Data.Texts.{hexlify-hexlify_bytes, arrayify-get_bytes, byte_digits-IsPlain}
use corebc_js.Utils.Maths.BigEndian.{to_string_16-hex_digits}
use corebc_js.Utils.Rlp.{Structured, leaf, list}
use corebc_js.Address.{text_eq, get_address}
use corebc_js.Transaction.Serialize.{
  Payload, numeric_field, bigint_field, number_or_empty, address_field, data_field, text_or_empty,
  signed_items,
}
use corebc_js.Transaction.Parse.{handle_number, handle_address, payload_of, split_fields}
use corebc_js.Transaction.Numbers.{handle_number-bigint_field}
use corebc_js.Utils.Data.Pad.{is_bytes-IsBytes}
use corebc_js.Transaction.Addresses.{even_text}
use corebc_js.Common.{
  ℕ, zero, suc, ◌^◌, ◌<◌, arith, ◌≡◌, refl, ◌∙◌, Option, none, some, List, codes, Text, length,
  >>=-eq-ok, ok, sym, ap, inl, inr, true, false, [], ◌∷◌, ◌==◌, lt→ltb, Bool-cases, ◌>>=◌,
}

-- A number of at most 32 bytes.
abbrev pub IsWord : ℤ → Type 0
IsWord z = (n : ℕ) × (z ≡ pos n) × (n < 2 ^ 256)

-- A number that `hexlify` takes.
abbrev pub IsNonce : ℤ → Type 0
IsNonce z = (n : ℕ) × (z ≡ pos n) × (n < max_safe)

-- No address, or one in the form of `getAddress`, in lower case.
abbrev pub IsRecipient : Option Text → Type 0
IsRecipient none = Unit {0}
IsRecipient (some a) =
    (w : List ℕ) × IsBytes w × (length w ≡ 22) × (a ≡ hexlify_bytes w) × (get_address a ≡ ok a)

abbrev pub IsData : Text → Type 0
IsData s = (w : List ℕ) × IsBytes w × (s ≡ hexlify_bytes w)

-- A transaction whose fields fit the format.
pub record Fits (p : Payload) : Type 0 where
  pub nonce_fits : IsNonce p.nonce
  pub price_fits : IsWord p.energy_price
  pub limit_fits : IsWord p.energy_limit
  pub network_fits : IsWord p.network_id
  pub value_fits : IsWord p.value
  pub to_fits : IsRecipient p.to
  pub data_fits : IsData p.data_text

hexlify_number-hex_digits :
    (n : ℕ) → 0 < n → hexlify_number n ≡ b'0' ∷ b'x' ∷ even_digits (hex_digits n)
unfolding hexlify_number
hexlify_number-hex_digits n h = elim (Bool-cases (n == 0)) [
  | inl e ↦ ground arith
  | inr e ↦ rw e refl
]

hexlify_number-hexlify_bigint : (n : ℕ) → 0 < n → hexlify_number n ≡ hexlify_bigint n
unfolding hexlify_bigint
hexlify_number-hexlify_bigint n h =
    hexlify_number-hex_digits n h
    ∙ ap (λ t. b'0' ∷ b'x' ∷ even_digits t) (sym (to_string_16-hex_digits n h))

is_hex_string-hexlify_bytes :
    (w : List ℕ) → IsBytes w → is_hex_string (hexlify_bytes w) whole_bytes ≡ true
unfolding is_hex_string is_hex_text length_fits hexlify_bytes
is_hex_string-hexlify_bytes w h =
    let plain = byte_digits-IsPlain w h in
    rw plain.digits_only (rw (even_text (length (byte_digits w))) (rw plain.even_length refl))

arrayify-hexlify_bytes :
    (w : List ℕ) → IsBytes w → arrayify no_options (string (hexlify_bytes w)) ≡ ok w
arrayify-hexlify_bytes w h =
    arrayify-get_bytes (hexlify_bytes w) (is_hex_string-hexlify_bytes w h)
    ∙ get_bytes-hexlify_bytes w h

not_bare : (w : List ℕ) → length w ≡ 22 → text_eq (hexlify_bytes w) (codes "0x") ≡ false
unfolding hexlify_bytes text_eq byte_digits
not_bare [] n = absurd (omega arith)
not_bare (b ∷ w) n = refl

module _ (to_byte : Text → ℕ) where
  word_written :
      (z : ℤ)
      → IsWord z
      → (x : Structured) × (bigint_field to_byte z ≡ ok x) × (handle_number x ≡ ok z)
  word_written z (n, e, b) =
      >>=-eq-ok (bigint_field to_byte z) handle_number
        (rw e (handle_number-bigint_field to_byte n b))

  number-bigint :
      (n : ℕ)
      → suc n < max_safe
      → numeric_field to_byte (number (pos (suc n))) ≡ numeric_field to_byte (bigint (suc n))
  unfolding numeric_field hexlify check_safe_uint53
  number-bigint n h =
      rw (lt→ltb (suc n) max_safe h) (rw (hexlify_number-hexlify_bigint (suc n) (omega arith)) refl)

  nonce_written :
      (z : ℤ)
      → IsNonce z
      → (x : Structured) × (numeric_field to_byte (number_or_empty z) ≡ ok x)
        × (handle_number x ≡ ok z)
  nonce_written z (zero, e, b) = rw e (word_written (pos zero) (0, refl, omega arith))
  nonce_written z (suc n, e, b) =
      let (x, f, g) = word_written (pos (suc n)) (suc n, refl, omega arith) in
      rw e (x, number-bigint n b ∙ f, g)

  data_field-hexlify_bytes :
      (w : List ℕ)
      → IsBytes w
      → data_field to_byte (text_or_empty (some (hexlify_bytes w))) ≡ ok (leaf (hexlify_bytes w))
  unfolding data_field
  data_field-hexlify_bytes w h =
      rw (hexlify-hexlify_bytes to_byte w h)
        (rw (arrayify-hexlify_bytes w h) (rw (is_bytes-IsBytes w h) refl))

  data_written : (s : Text) → IsData s → data_field to_byte (text_or_empty (some s)) ≡ ok (leaf s)
  data_written s (w, h, e) = rw e (data_field-hexlify_bytes w h)

  address_field-hexlify_bytes :
      (w : List ℕ)
      → IsBytes w
      → length w ≡ 22
      → address_field to_byte (text_or_empty (some (hexlify_bytes w))) ≡ ok (leaf (hexlify_bytes w))
  unfolding address_field
  address_field-hexlify_bytes w h n =
      rw (hexlify-hexlify_bytes to_byte w h)
        (rw (arrayify-hexlify_bytes w h) (rw n (rw (is_bytes-IsBytes w h) refl)))

  no_address : address_field to_byte (array []) ≡ ok (leaf (codes "0x"))
  unfolding address_field hexlify arrayify arrayify_text hexlify_bytes
  no_address = refl

  no_address_read : handle_address (leaf (codes "0x")) ≡ ok none
  unfolding handle_address text_eq
  no_address_read = refl

  address_read :
      (w : List ℕ)
      → length w ≡ 22
      → get_address (hexlify_bytes w) ≡ ok (hexlify_bytes w)
      → handle_address (leaf (hexlify_bytes w)) ≡ ok (some (hexlify_bytes w))
  unfolding handle_address
  address_read w n k = rw (not_bare w n) (rw k refl)

  recipient_written :
      (a : Option Text)
      → IsRecipient a
      → (x : Structured) × (address_field to_byte (text_or_empty a) ≡ ok x)
        × (handle_address x ≡ ok a)
  recipient_written none h = (leaf (codes "0x"), no_address, no_address_read)
  recipient_written (some a) (w, h, n, e, k) =
      (leaf a, rw e (address_field-hexlify_bytes w h n), rw e (address_read w n (rw e at k)))

  -- What `serialize` lists of a signed transaction whose fields fit the format, `parse` takes apart
  -- into the same fields and the signature.
  pub split_fields-signed_items :
      (p : Payload) (sig : List ℕ)
      → Fits p
      → IsBytes sig
      → (signed_items to_byte p (hexlify_bytes sig) >>= λ xs. split_fields (list xs))
        ≡ ok (p, some (hexlify_bytes sig))
  unfolding signed_items split_fields payload_of
  split_fields-signed_items p sig fits h =
      let (n, en, rn) = nonce_written p.nonce fits.nonce_fits in
      let (g, eg, rg) = word_written p.energy_price fits.price_fits in
      let (l, el, rl) = word_written p.energy_limit fits.limit_fits in
      let (i, ei, ri) = word_written p.network_id fits.network_fits in
      let (a, ea, ra) = recipient_written p.to fits.to_fits in
      let (v, ev, rv) = word_written p.value fits.value_fits in
      rw en (
        rw eg (
          rw el (
            rw ei (
              rw ea (
                rw ev (
                  rw (data_written p.data_text fits.data_fits) (
                    rw (hexlify-hexlify_bytes to_byte sig h)
                      (rw rn (rw rg (rw rl (rw ri (rw ra (rw rv refl)))))))))))))
