-- ===== src/Transaction/Object.antt =====
-- The class Transaction of src.ts/transaction/transaction.ts: its private fields, setters, getters and
-- `Transaction.from`. A setter gives the next object, or throws and leaves none.
use corebc_js.Common.Integers.{ℤ, pos}
use corebc_js.Utils.Data.{BytesLike, text, string, no_options, hexlify, get_bytes, lower_case}
use corebc_js.Utils.Data.Slices.{as_hexable}
use corebc_js.Utils.Maths.{BigNumberish, get_big_int, get_number}
use corebc_js.Address.{text_eq, get_address, network_id_to_prefix}
use corebc_js.Transaction.{recover_address}
use corebc_js.Transaction.Serialize.{Payload, serialize}
use corebc_js.Transaction.Parse.{Parsed, parse}
use corebc_js.Common.{
  ℕ, Bool, true, false, Option, none, some, List, [], ◌∷◌, codes, Text, if◌then◌else◌, Result,
  ◌>>=◌, ◌>>◌, assert, ok, err, invalid_argument, unsupported_operation,
}

-- The object; `sig` is null or a text, and the empty text counts as null.
pub record Transaction : Type 0 where
  pub to : Option Text
  pub data_text : Text
  pub nonce : ℤ
  pub energy_limit : ℤ
  pub energy_price : Option ℤ
  pub value : ℤ
  pub network_id : ℤ
  pub sig : Option Text

-- TransactionLike<string>: what the caller may give; `none` is null or absent.
pub record TransactionLike : Type 0 where
  pub to : Option Text
  pub sender : Option Text
  pub nonce : Option BigNumberish
  pub energy_limit : Option BigNumberish
  pub energy_price : Option BigNumberish
  pub data_bytes : Option BytesLike
  pub value : Option BigNumberish
  pub network_id : Option BigNumberish
  pub hash : Option Text
  pub signature : Option Text

-- `new Transaction()`
abbrev pub new_transaction : Transaction
new_transaction = record {
  to = none;
  data_text = codes "0x";
  nonce = pos 0;
  energy_limit = pos 0;
  energy_price = none;
  value = pos 0;
  network_id = pos 0;
  sig = none;
}

-- A setter that `from` calls where the property is there.
abbrev pub given {ℓ} :
    {A : Type ℓ}
    → (A → Transaction → Result Transaction)
    → Option A
    → Transaction
    → Result Transaction
given set none t = ok t
given set (some a) t = set a t

unfoldable pub set_to : Text → Transaction → Result Transaction
unfolding get_address
set_to s t = do a ← get_address s; ok (record t { to = some a })

unfoldable pub set_nonce : BigNumberish → Transaction → Result Transaction
unfolding get_number
set_nonce v t = do z ← get_number v; ok (record t { nonce = z })

unfoldable pub set_energy_limit : BigNumberish → Transaction → Result Transaction
unfolding get_big_int
set_energy_limit v t = do z ← get_big_int v; ok (record t { energy_limit = z })

unfoldable pub set_energy_price : BigNumberish → Transaction → Result Transaction
unfolding get_big_int
set_energy_price v t = do z ← get_big_int v; ok (record t { energy_price = some z })

unfoldable pub set_value : BigNumberish → Transaction → Result Transaction
unfolding get_big_int
set_value v t = do z ← get_big_int v; ok (record t { value = z })

unfoldable pub set_network_id : BigNumberish → Transaction → Result Transaction
unfolding get_big_int
set_network_id v t = do z ← get_big_int v; ok (record t { network_id = z })

abbrev pub set_signature : Text → Transaction → Result Transaction
set_signature s t = ok (record t { sig = some s })

-- The getter `energyPrice`: null reads as 0.
abbrev pub price_of : Option ℤ → ℤ
price_of none = pos 0
price_of (some z) = z

-- The getter `signature`: the empty text reads as null.
abbrev pub signature_of : Option Text → Option Text
signature_of none = none
signature_of (some []) = none
signature_of (some (c ∷ s)) = some (c ∷ s)

abbrev pub is_signed : Transaction → Bool
is_signed t = elim (signature_of t.sig) [ none ↦ false | some s ↦ true ]

-- What `serialize` reads through the getters.
abbrev pub payload : Transaction → Payload
payload t = record {
  to = t.to;
  nonce = t.nonce;
  energy_limit = t.energy_limit;
  energy_price = price_of t.energy_price;
  data_text = t.data_text;
  value = t.value;
  network_id = t.network_id;
}

module _ (to_byte : Text → ℕ) (sha256 : BytesLike → Result Text)
    (recover_public_key : List ℕ → Text → Result Text) where
  unfoldable pub set_data : BytesLike → Transaction → Result Transaction
  unfolding hexlify
  set_data d t = do s ← hexlify to_byte no_options (as_hexable d); ok (record t { data_text = s })

  unfoldable pub unsigned_serialized : Transaction → Result Text
  unfolding serialize
  unsigned_serialized t = serialize to_byte (payload t) none

  unfoldable pub transaction_serialized : Transaction → Result Text
  unfolding serialize
  transaction_serialized t = elim (signature_of t.sig) [
    | none ↦ err unsupported_operation
    | some s ↦ serialize to_byte (payload t) (some s)
  ]

  unfoldable pub unsigned_hash : Transaction → Result Text
  unfolding unsigned_serialized
  unsigned_hash t = do s ← unsigned_serialized t; sha256 (text s)

  -- The getter `hash`: `none` is null.
  unfoldable pub transaction_hash : Transaction → Result (Option Text)
  unfolding transaction_serialized
  transaction_hash t =
      let hashed = transaction_serialized t >>= λ s. sha256 (text s) >>= λ h. ok (some h) in
      if is_signed t then hashed else ok none

  -- The getter `from`.
  unfoldable pub transaction_sender : Transaction → Result (Option Text)
  unfolding unsigned_hash recover_address network_id_to_prefix
  transaction_sender t = elim (signature_of t.sig) [
    | none ↦ ok none
    | some s ↦ do
      prefix ← network_id_to_prefix t.network_id
      digest ← unsigned_hash t
      a ← recover_address to_byte sha256 recover_public_key (string digest) s prefix
      ok (some a)
  ]

  -- `result.hash === tx.hash`
  unfoldable pub check_hash : Option Text → Transaction → Result (Unit {0})
  unfolding transaction_hash text_eq
  check_hash none t = ok tt
  check_hash (some h) t = do
    assert (is_signed t) invalid_argument
    own ← transaction_hash t
    assert (elim own [ none ↦ false | some g ↦ text_eq g h ]) invalid_argument

  -- `result.from.toLowerCase() === (tx.from || "").toLowerCase()`
  unfoldable pub check_sender : Option Text → Transaction → Result (Unit {0})
  unfolding transaction_sender text_eq
  check_sender none t = ok tt
  check_sender (some f) t = do
    assert (is_signed t) invalid_argument
    own ← transaction_sender t
    assert (elim own [ none ↦ false | some g ↦ text_eq (lower_case g) (lower_case f) ])
        invalid_argument

  -- `Transaction.from` of an object.
  unfoldable pub from_like : TransactionLike → Result Transaction
  unfolding set_to set_nonce set_energy_limit set_energy_price set_data set_value set_network_id
      check_hash check_sender
  from_like tx = do
    a ← given set_to tx.to new_transaction
    b ← given set_nonce tx.nonce a
    c ← given set_energy_limit tx.energy_limit b
    d ← given set_energy_price tx.energy_price c
    e ← given set_data tx.data_bytes d
    f ← given set_value tx.value e
    g ← given set_network_id tx.network_id f
    result ← given set_signature tx.signature g
    check_hash tx.hash result
    check_sender tx.sender result
    ok result

  abbrev pub like_of : Parsed → TransactionLike
  like_of p = record {
    to = p.payload.to;
    sender = p.sender;
    nonce = some (BigNumberish.number p.payload.nonce);
    energy_limit = some (BigNumberish.bigint p.payload.energy_limit);
    energy_price = some (BigNumberish.bigint p.payload.energy_price);
    data_bytes = some (text p.payload.data_text);
    value = some (BigNumberish.bigint p.payload.value);
    network_id = some (BigNumberish.bigint p.payload.network_id);
    hash = p.hash;
    signature = p.signature;
  }

  -- `Transaction.from` of a serialized transaction.
  unfoldable pub from_text : Text → Result Transaction
  unfolding get_bytes parse from_like
  from_text s = do
    v ← get_bytes (text s)
    p ← parse to_byte sha256 recover_public_key v
    from_like (like_of p)
