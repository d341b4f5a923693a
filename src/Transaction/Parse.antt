-- ===== src/Transaction/Parse.antt =====
-- `parse` of src.ts/transaction/transaction.ts. A number is exact here: `Number` rounds only numbers
-- that no later step takes.
use corebc_js.Common.Radix.{of_digits}
use corebc_js.Common.Integers.{ℤ, pos}
use corebc_js.Utils.Data.{BytesLike, text, string, hex_value, is_hex_text}
use corebc_js.Utils.Rlp.{Structured, leaf, list, no_items, item}
use corebc_js.Crypto.Rlp.{decode_bytes}
use corebc_js.Address.{text_eq, get_address, network_id_to_prefix}
use corebc_js.Transaction.{recover_address}
use corebc_js.Common.{
  ℕ, Option, none, some, List, codes, Text, if◌then◌else◌, drop, Result, ◌>>=◌, ok, err,
  invalid_argument,
}
use corebc_js.Transaction.Serialize.{Payload, serialize}

-- `handleNumber`: `BigNumber.from` of a text, which the decoder gives with the prefix, and with
-- digits behind it. An array is refused.
unfoldable pub handle_number : Structured → Result ℤ
handle_number (leaf s) =
    if text_eq s (codes "0x")
    then ok (pos 0)
    else if is_hex_text s
    then ok (pos (of_digits 16 hex_value 0 (drop 2 s)))
    else err invalid_argument
handle_number (list xs) = err invalid_argument

unfoldable pub handle_address : Structured → Result (Option Text)
handle_address (leaf s) =
    let known = get_address s >>= λ a. ok (some a) in
    if text_eq s (codes "0x") then ok none else known
handle_address (list xs) = err invalid_argument

-- The field `data`: an empty array counts as "0x" wherever it is used, and no use takes another.
abbrev pub data_of : Structured → Result Text
data_of (leaf s) = ok s
data_of (list no_items) = ok (codes "0x")
data_of (list (item x xs)) = err invalid_argument

-- The signature; `recoverPublicKey` takes no array.
abbrev pub signature_of : Structured → Result Text
signature_of (leaf s) = ok s
signature_of (list xs) = err invalid_argument

unfoldable pub payload_of :
    Structured
    → Structured
    → Structured
    → Structured
    → Structured
    → Structured
    → Structured
    → Result Payload
unfolding handle_number handle_address
payload_of nonce price limit network to value payload = do
  n ← handle_number nonce
  p ← handle_number price
  l ← handle_number limit
  i ← handle_number network
  a ← handle_address to
  v ← handle_number value
  d ← data_of payload
  ok (record {
    to = a;
    nonce = n;
    energy_limit = l;
    energy_price = p;
    data_text = d;
    value = v;
    network_id = i;
  })

-- What `parse` returns.
pub record Parsed : Type 0 where
  pub payload : Payload
  pub hash : Option Text
  pub sender : Option Text
  pub signature : Option Text

-- The transaction behind the RLP: seven items, or eight with the signature. A text in place of the
-- array is refused when its second character is read as a number.
unfoldable pub split_fields : Structured → Result (Payload × Option Text)
unfolding payload_of
split_fields (list (item a (item b (item c (item d (item e (item f (item g no_items)))))))) = do
  p ← payload_of a b c g d e f
  ok (p, none)
split_fields
      (list (item a (item b (item c (item d (item e (item f (item g (item h no_items))))))))) =
    do p ← payload_of a b c d e f g; s ← signature_of h; ok (p, some s)
split_fields _ = err invalid_argument

module _ (to_byte : Text → ℕ) (sha256 : BytesLike → Result Text)
    (recover_public_key : List ℕ → Text → Result Text) where
  unfoldable pub with_signature : Payload → Option Text → Result Parsed
  unfolding serialize recover_address network_id_to_prefix
  with_signature p none = ok (record { payload = p; hash = none; sender = none; signature = none })
  with_signature p (some s) = do
    prefix ← network_id_to_prefix p.network_id
    unsigned ← serialize to_byte p none
    digest ← sha256 (text unsigned)
    signed ← serialize to_byte p (some s)
    hash ← sha256 (text signed)
    sender ← recover_address to_byte sha256 recover_public_key (string digest) s prefix
    ok (record { payload = p; hash = some hash; sender = some sender; signature = some s })

  unfoldable pub parse : List ℕ → Result Parsed
  unfolding split_fields with_signature decode_bytes
  parse v = do x ← decode_bytes v; (p, s) ← split_fields x; with_signature p s
