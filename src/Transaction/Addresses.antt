-- ===== src/Transaction/Addresses.antt =====
-- `publicToAddress` of src.ts/transaction/address.ts gives an address that `getAddress` takes.
use corebc_js.Utils.Data.{BytesLike, text, hexlify_bytes, byte_digits, is_hex_text, is_pairs}
use corebc_js.Utils.Data.Slices.{hex_data_slice}
use corebc_js.Utils.Data.Hex.{IsBytes, byte_digits-IsPairs}
use corebc_js.Utils.Data.Texts.{byte_digits-IsPlain}
use corebc_js.Address.{get_address, calculate_check_sum, remove_hex_prefix, replace_0x}
use corebc_js.Address.Digits.{Closes, iso_value}
use corebc_js.Address.Checksum.{replace_0x-digits, pairs-digits}
use corebc_js.Address.Valid.{get_address-calculate_check_sum}
use corebc_js.Transaction.{hash_to_address, public_to_address}
use corebc_js.Common.{
  ℕ, zero, suc, ◌*◌, ◌%◌, arith, ◌≡◌, refl, ap, true, none, List, [], ◌∷◌, ◌++◌, Text, ◌==◌, length,
  drop, Result, ok, ◌∙◌, length-drop,
}

-- Twice a number, by successors.
twice : ℕ → ℕ
twice zero = 0
twice (suc n) = suc (suc (twice n))

drop-byte_digits : (n : ℕ) (v : List ℕ) → drop (twice n) (byte_digits v) ≡ byte_digits (drop n v)
unfolding twice byte_digits
drop-byte_digits zero v = refl
drop-byte_digits (suc n) [] = refl
drop-byte_digits (suc n) (b ∷ v) = drop-byte_digits n v

pub length-byte_digits : (v : List ℕ) → length (byte_digits v) ≡ length v * 2
unfolding byte_digits
length-byte_digits [] = refl
length-byte_digits (b ∷ v) = omega (arith, length-byte_digits v)

drop-All : (n : ℕ) (v : List ℕ) → IsBytes v → IsBytes (drop n v)
drop-All zero v h = h
drop-All (suc n) [] h = h
drop-All (suc n) (b ∷ v) (hb, hv) = drop-All n v hv

pub even_text : (n : ℕ) → (suc (suc n) % 2 == 0) ≡ (n % 2 == 0)
even_text n = ground arith

cut_hash :
    (to_byte : Text → ℕ) (v : List ℕ)
    → IsBytes v
    → hex_data_slice to_byte (text (hexlify_bytes v)) 12 none ≡ ok (hexlify_bytes (drop 12 v))
unfolding hex_data_slice is_hex_text hexlify_bytes twice
cut_hash to_byte v h =
    let plain = byte_digits-IsPlain v h in
    rw plain.digits_only (
      rw (even_text (length (byte_digits v)))
        (rw plain.even_length (ap (λ t. ok (b'0' ∷ b'x' ∷ t)) (drop-byte_digits 12 v))))

-- A text with its prefix has the checksum of the text without.
prefixed_sum :
    (v : List ℕ) (p : Text)
    → IsBytes v
    → calculate_check_sum (hexlify_bytes v) p ≡ calculate_check_sum (byte_digits v) p
unfolding calculate_check_sum replace_0x hexlify_bytes
prefixed_sum v p h =
    rw (replace_0x-digits (byte_digits v) (pairs-digits (byte_digits v) (byte_digits-IsPairs v h)))
      refl

without_prefix : (v : List ℕ) → remove_hex_prefix (hexlify_bytes v) ≡ byte_digits v
unfolding remove_hex_prefix hexlify_bytes
without_prefix v = refl

hash_to_address_built :
    (to_byte : Text → ℕ) (hash : List ℕ) (c d : ℕ) (sum : Text)
    → IsBytes hash
    → calculate_check_sum (byte_digits (drop 12 hash)) (c ∷ d ∷ []) ≡ ok sum
    → hash_to_address to_byte (hexlify_bytes hash) (c ∷ d ∷ [])
      ≡ ok (b'0' ∷ b'x' ∷ c ∷ d ∷ (sum ++ byte_digits (drop 12 hash)))
unfolding hash_to_address
hash_to_address_built to_byte hash c d sum h e = rw (cut_hash to_byte hash h) (
    rw (prefixed_sum (drop 12 hash) (c ∷ d ∷ []) (drop-All 12 hash h) ∙ e)
      (ap (λ t. ok (b'0' ∷ b'x' ∷ c ∷ d ∷ (sum ++ t))) (without_prefix (drop 12 hash))))

module _ (to_byte : Text → ℕ) (sha256 : BytesLike → Result Text) (key : BytesLike) (hash : List ℕ)
    (hashed : sha256 key ≡ ok (hexlify_bytes hash)) (hash_bytes : IsBytes hash)
    (hash_size : length hash ≡ 32) where
  -- Where the hash of the key is the text of 32 bytes, `publicToAddress` with a prefix of one byte
  -- gives an address of the last 20 of them, which has the checksum and which `getAddress` gives back
  -- as it is.
  pub get_address-public_to_address :
      (c d : ℕ)
      → is_pairs (c ∷ d ∷ []) ≡ true
      → (sum : Text) × (public_to_address to_byte sha256 key (c ∷ d ∷ [])
          ≡ ok (b'0' ∷ b'x' ∷ c ∷ d ∷ (sum ++ byte_digits (drop 12 hash))))
        × Closes (iso_value 0 (byte_digits (drop 12 hash) ++ c ∷ d ∷ [])) sum
        × (get_address (b'0' ∷ b'x' ∷ c ∷ d ∷ (sum ++ byte_digits (drop 12 hash)))
            ≡ ok (b'0' ∷ b'x' ∷ c ∷ d ∷ (sum ++ byte_digits (drop 12 hash))))
  unfolding public_to_address
  get_address-public_to_address c d hp =
      let tail = drop 12 hash in
      let tail_bytes = drop-All 12 hash hash_bytes in
      let size : length (byte_digits tail) ≡ 40 =
        omega (arith, length-byte_digits tail, length-drop 12 hash) in
      let (sum, e, cl, kept) =
        get_address-calculate_check_sum c d (byte_digits tail) hp
          (byte_digits-IsPairs tail tail_bytes) size in
      (sum, rw hashed (hash_to_address_built to_byte hash c d sum hash_bytes e), cl, kept)
