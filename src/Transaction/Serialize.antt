-- ===== src/Transaction/Serialize.antt =====
-- `serialize` of src.ts/transaction/transaction.ts. A field of the source's objects that
-- is falsy (null, 0, the empty text) counts as an empty array.
use corebc_js.Common.Integers.{ℤ, pos, negsuc}
use corebc_js.Utils.Data.{
  bytes, Hexable, array, string, number, bigint, DataOptions, no_options, left, hexlify,
}
use corebc_js.Utils.Data.Slices.{arrayify, strip_zeros}
use corebc_js.Utils.Rlp.{Structured, Items, leaf, list, no_items, item}
use corebc_js.Crypto.Rlp.{encode}
use corebc_js.Common.{
  ℕ, zero, suc, false, ◌||◌, Option, none, some, [], ◌∷◌, Text, leb, ◌==◌, length, Result, ◌>>=◌,
  ◌>>◌, assert, ok, err, invalid_argument,
}

-- What `serialize` reads of a transaction.
pub record Payload : Type 0 where
  pub to : Option Text
  pub nonce : ℤ
  pub energy_limit : ℤ
  pub energy_price : ℤ
  pub data_text : Text
  pub value : ℤ
  pub network_id : ℤ

-- `transaction[name] || []`
abbrev pub number_or_empty : ℤ → Hexable
number_or_empty (pos zero) = array []
number_or_empty (pos (suc n)) = number (pos (suc n))
number_or_empty (negsuc n) = number (negsuc n)

-- A negative bigint is written with a sign, which `arrayify` refuses.
abbrev pub bigint_or_empty : ℤ → Result Hexable
bigint_or_empty (pos zero) = ok (array [])
bigint_or_empty (pos (suc n)) = ok (bigint (suc n))
bigint_or_empty (negsuc n) = err invalid_argument

abbrev pub text_or_empty : Option Text → Hexable
text_or_empty none = array []
text_or_empty (some []) = array []
text_or_empty (some (c ∷ s)) = string (c ∷ s)

abbrev pub left_pad : DataOptions
left_pad = record { allow_missing_prefix = false; hex_pad = some left }

module _ (to_byte : Text → ℕ) where
  -- A field with `numeric` and `maxLength: 32`.
  unfoldable pub numeric_field : Hexable → Result Structured
  unfolding hexlify arrayify strip_zeros
  numeric_field h = do
    s ← hexlify to_byte left_pad h
    v ← arrayify no_options (string s)
    w ← strip_zeros (bytes v)
    assert (leb (length w) 32) invalid_argument
    t ← hexlify to_byte no_options (array w)
    ok (leaf t)

  -- The field `to`, with `length: 22`.
  unfoldable pub address_field : Hexable → Result Structured
  unfolding hexlify arrayify
  address_field h = do
    s ← hexlify to_byte no_options h
    v ← arrayify no_options (string s)
    assert (length v == 22 || length v == 0) invalid_argument
    t ← hexlify to_byte no_options (array v)
    ok (leaf t)

  unfoldable pub data_field : Hexable → Result Structured
  unfolding hexlify arrayify
  data_field h = do
    s ← hexlify to_byte no_options h
    v ← arrayify no_options (string s)
    t ← hexlify to_byte no_options (array v)
    ok (leaf t)

  abbrev pub bigint_field : ℤ → Result Structured
  bigint_field z = bigint_or_empty z >>= numeric_field

  -- `unsignedTransactionFields`
  unfoldable pub unsigned_items : Payload → Result Items
  unfolding numeric_field address_field data_field
  unsigned_items p = do
    nonce ← numeric_field (number_or_empty p.nonce)
    price ← bigint_field p.energy_price
    limit ← bigint_field p.energy_limit
    to ← address_field (text_or_empty p.to)
    value ← bigint_field p.value
    payload ← data_field (text_or_empty (some p.data_text))
    network ← bigint_field p.network_id
    ok (
        item nonce
          (item price (item limit (item to (item value (item payload (item network no_items)))))))

  -- `transactionFields`, and the signature behind them.
  unfoldable pub signed_items : Payload → Text → Result Items
  unfolding numeric_field address_field data_field hexlify
  signed_items p signature = do
    nonce ← numeric_field (number_or_empty p.nonce)
    price ← bigint_field p.energy_price
    limit ← bigint_field p.energy_limit
    network ← bigint_field p.network_id
    to ← address_field (text_or_empty p.to)
    value ← bigint_field p.value
    payload ← data_field (text_or_empty (some p.data_text))
    sig ← hexlify to_byte no_options (string signature)
    ok (
        item nonce (
          item price (
            item limit
              (item network (item to (item value (item payload (item (leaf sig) no_items))))))))

  -- An empty signature is falsy, as an absent one is.
  unfoldable pub serialize : Payload → Option Text → Result Text
  unfolding unsigned_items signed_items
  serialize p none = do xs ← unsigned_items p; encode (list xs)
  serialize p (some []) = do xs ← unsigned_items p; encode (list xs)
  serialize p (some (c ∷ s)) = do xs ← signed_items p (c ∷ s); encode (list xs)
