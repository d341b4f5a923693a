-- ===== src/Transaction.antt =====
-- src.ts/transaction/address.ts, src.ts/address/contract-address.ts, and `serialize` and `parse` of
-- src.ts/transaction/transaction.ts. The hash and the curve are parameters, and so is `to_byte`,
-- `Number` of a word, which `hexlify` calls for a list with commas.
pub mod Addresses
pub mod Serialize
pub mod Parse
pub mod Object
pub mod Numbers
pub mod Fields
mod Runs
use corebc_js.Utils.Data.{BytesLike, text, Hexable, no_options}
use corebc_js.Utils.Data.Slices.{arrayify, concat, hex_data_slice, hex_data_length}
use corebc_js.Utils.Maths.{BigNumberish, get_big_int}
use corebc_js.Address.{get_address, calculate_check_sum, remove_hex_prefix}
use corebc_js.Common.{
  ℕ, Bool, false, Option, none, some, List, [], ◌∷◌, ◌++◌, codes, Text, ◌==◌, slice, Result, ◌>>=◌,
  ◌>>◌, assert, ok, invalid_argument,
}

-- What `publicToAddress` makes of a hash.
module _ (to_byte : Text → ℕ) where
  unfoldable pub hash_to_address : Text → Text → Result Text
  unfolding hex_data_slice calculate_check_sum remove_hex_prefix
  hash_to_address hash prefix = do
    val ← hex_data_slice to_byte (text hash) 12 none
    sum ← calculate_check_sum val prefix
    ok (b'0' ∷ b'x' ∷ (prefix ++ sum ++ remove_hex_prefix val))

  module _ (sha256 : BytesLike → Result Text) where
    unfoldable pub public_to_address : BytesLike → Text → Result Text
    unfolding hash_to_address
    public_to_address key prefix = do hash ← sha256 key; hash_to_address hash prefix

    -- `computeAddress` of a key in text form; `false` asks for the long form.
    unfoldable pub compute_address : (Text → Bool → Result Text) → Text → Text → Result Text
    unfolding public_to_address
    compute_address compute_public_key key prefix = do
      public ← compute_public_key key false
      public_to_address (text public) prefix

    unfoldable pub recover_address :
        (List ℕ → Text → Result Text) → Hexable → Text → Text → Result Text
    unfolding public_to_address arrayify
    recover_address recover_public_key digest signature prefix = do
      v ← arrayify no_options digest
      key ← recover_public_key v signature
      public_to_address (text key) prefix

    -- `hexDataLength(d) !== 32`
    abbrev pub is_32 : Option ℕ → Bool
    is_32 none = false
    is_32 (some n) = n == 32

    -- The prefix of the result is cut from the argument, not from what `getAddress` made of it.
    unfoldable pub get_create2_address : Text → BytesLike → BytesLike → Result Text
    unfolding hex_data_length concat get_address hex_data_slice calculate_check_sum
        remove_hex_prefix
    get_create2_address from salt init_code_hash = do
      n ← hex_data_length to_byte salt
      assert (is_32 n) invalid_argument
      m ← hex_data_length to_byte init_code_hash
      assert (is_32 m) invalid_argument
      address ← get_address from
      joined ← concat to_byte (text (codes "0xff") ∷ text address ∷ salt ∷ init_code_hash ∷ [])
      hash ← sha256 (text joined)
      val ← hex_data_slice to_byte (text hash) 12 none
      let prefix = slice 2 4 from
      sum ← calculate_check_sum val prefix
      ok (b'0' ∷ b'x' ∷ (prefix ++ sum ++ remove_hex_prefix val))

unfoldable pub extract_prefix : Text → Result Text
unfolding get_address
extract_prefix address = do a ← get_address address; ok (slice 2 4 a)

-- `getCreateAddress` reads its nonce, and gives the address of the sender.
unfoldable pub get_create_address : Text → BigNumberish → Result Text
unfolding get_address get_big_int
get_create_address from nonce = do a ← get_address from; n ← get_big_int nonce; get_address a
