-- ===== src/Transaction/Runs.antt =====
-- Runs of src.ts/transaction and src.ts/address/contract-address.ts, and their theorems at concrete
-- inputs.
use corebc_js.Utils.Data.{BytesLike, bytes, hexlify_bytes, byte_digits, is_pairs, is_bytes}
use corebc_js.Utils.Data.Hex.{is_bytes_sound}
use corebc_js.Address.{get_address}
use corebc_js.Address.Digits.{Closes, iso_value}
use corebc_js.Transaction.{public_to_address}
use corebc_js.Utils.Rlp.{list}
use corebc_js.Common.Integers.{pos}
use corebc_js.Transaction.Serialize.{Payload, signed_items}
use corebc_js.Transaction.Parse.{split_fields}
use corebc_js.Transaction.Fields.{Fits, split_fields-signed_items}
use corebc_js.Transaction.Addresses.{get_address-public_to_address}
use corebc_js.Common.{
  ℕ, ◌≡◌, refl, List, [], ◌∷◌, ◌++◌, Text, drop, replicate, Result, ok, arith, some, ◌>>=◌,
}

-- A hash that gives the same 32 bytes of every key.
abbrev hash_bytes : List ℕ
hash_bytes = replicate 12 0 ++ replicate 20 0xab

abbrev same_hash : BytesLike → Result Text
same_hash key = ok (hexlify_bytes hash_bytes)

get_address-public_to_address_example :
    (sum : Text) × (public_to_address (λ s. 0) same_hash (bytes []) (b'c' ∷ b'b' ∷ [])
      ≡ ok (b'0' ∷ b'x' ∷ b'c' ∷ b'b' ∷ (sum ++ byte_digits (drop 12 hash_bytes))))
    × Closes (iso_value 0 (byte_digits (drop 12 hash_bytes) ++ b'c' ∷ b'b' ∷ [])) sum
    × (get_address (b'0' ∷ b'x' ∷ b'c' ∷ b'b' ∷ (sum ++ byte_digits (drop 12 hash_bytes)))
        ≡ ok (b'0' ∷ b'x' ∷ b'c' ∷ b'b' ∷ (sum ++ byte_digits (drop 12 hash_bytes))))
unfolding is_pairs is_bytes
get_address-public_to_address_example =
    get_address-public_to_address (λ s. 0) same_hash (bytes []) hash_bytes refl
      (is_bytes_sound hash_bytes refl) refl b'c' b'b' refl

-- The recipient: the prefix cb, the check digits of 20 bytes 0xab, and those bytes.
abbrev recipient_bytes : List ℕ
recipient_bytes = 0xcb ∷ 0x73 ∷ replicate 20 0xab

recipient_kept : get_address (hexlify_bytes recipient_bytes) ≡ ok (hexlify_bytes recipient_bytes)
unfolding get_address hexlify_bytes
recipient_kept = refl

abbrev sample : Payload
sample = record {
  to = some (hexlify_bytes recipient_bytes);
  nonce = pos 7;
  energy_limit = pos 21000;
  energy_price = pos 1;
  data_text = hexlify_bytes [];
  value = pos 0;
  network_id = pos 1;
}

sample-Fits : Fits sample
unfolding is_bytes
sample-Fits = record {
  nonce_fits = (7, refl, omega arith);
  price_fits = (1, refl, omega arith);
  limit_fits = (21000, refl, omega arith);
  network_fits = (1, refl, omega arith);
  value_fits = (0, refl, omega arith);
  to_fits = (recipient_bytes, is_bytes_sound recipient_bytes refl, refl, refl, recipient_kept);
  data_fits = ([], tt, refl);
}

split_fields-signed_items_example :
    (signed_items (λ s. 0) sample (hexlify_bytes (1 ∷ 2 ∷ [])) >>= λ xs. split_fields (list xs))
    ≡ ok (sample, some (hexlify_bytes (1 ∷ 2 ∷ [])))
split_fields-signed_items_example =
    split_fields-signed_items (λ s. 0) sample (1 ∷ 2 ∷ []) sample-Fits (omega arith)
