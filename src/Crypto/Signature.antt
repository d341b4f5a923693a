-- ===== src/Crypto/Signature.antt =====
-- src.ts/crypto/signature.ts: the class Signature. A setter gives the new state, or throws and
-- leaves no state. `to_byte` is `Number` of a word, which `hexlify` calls for a list with commas.
pub mod Networks
pub mod Compact
mod Runs
use corebc_js.Utils.Data.{BytesLike, text, no_options, hexlify, get_bytes, hexlify_bytes, hex_value}
use corebc_js.Utils.Data.Slices.{data_length, as_hexable, concat}
use corebc_js.Utils.Maths.{BigNumberish, get_big_int, get_number}
use corebc_js.Common.Integers.{ℤ, pos, negsuc, sub_ℕ}
use corebc_js.Common.{
  ℕ, zero, suc, ◌+◌, ◌-◌, ◌*◌, ◌/◌, ◌%◌, bit_or, Bool, false, ◌||◌, Option, none, some, List, [],
  ◌∷◌, codes, Text, ltb, leb, ◌==◌, if◌then◌else◌, Result, ◌>>=◌, ◌>>◌, assert, ok, err,
  invalid_argument,
}

pub data V : Type 0 where
  v27 v28 : V

pub record Signature : Type 0 where
  pub r : Text
  pub s : Text
  pub v : V
  pub network_v : Option ℤ

abbrev pub v_value : V → ℕ
v_value v27 = 27
v_value v28 = 28

-- `parseInt(value.substring(0, 3)) < 8`: the first digit behind the prefix; NaN is not below 8.
abbrev pub is_canonical : Text → Bool
is_canonical (z ∷ x ∷ c ∷ s) = ltb (hex_value c) 8
is_canonical _ = false

module _ (to_byte : Text → ℕ) where
  unfoldable pub set_r : BytesLike → Signature → Result Signature
  unfolding data_length hexlify
  set_r value sig = do
    n ← data_length value
    assert (n == 32) invalid_argument
    h ← hexlify to_byte no_options (as_hexable value)
    ok (record { r = h; s = sig.s; v = sig.v; network_v = sig.network_v })

  unfoldable pub set_s : BytesLike → Signature → Result Signature
  unfolding data_length hexlify
  set_s value sig = do
    n ← data_length value
    assert (n == 32) invalid_argument
    h ← hexlify to_byte no_options (as_hexable value)
    assert (is_canonical h) invalid_argument
    ok (record { r = sig.r; s = h; v = sig.v; network_v = sig.network_v })

  abbrev pub parity_text : V → Text
  parity_text v27 = codes "0x1b"
  parity_text v28 = codes "0x1c"

  unfoldable pub serialized : Signature → Result Text
  unfolding concat
  serialized sig = concat to_byte (text sig.r ∷ text sig.s ∷ text (parity_text sig.v) ∷ [])

-- `v === 27 || v === 28`
abbrev pub as_v : ℤ → Result V
as_v (pos n) = if n == 27 then ok v27 else if n == 28 then ok v28 else err invalid_argument
as_v (negsuc n) = err invalid_argument

unfoldable pub set_v : BigNumberish → Signature → Result Signature
unfolding get_number
set_v value sig = do
  z ← get_number value
  w ← as_v z
  ok (record { r = sig.r; s = sig.s; v = w; network_v = sig.network_v })

abbrev pub y_parity : V → ℕ
y_parity v27 = 0
y_parity v28 = 1

-- `yParityAndS[0] |= 0x80`; on no byte at all it stores nothing.
abbrev pub set_top_bit : List ℕ → List ℕ
set_top_bit [] = []
set_top_bit (b ∷ w) = bit_or b 0x80 ∷ w

unfoldable pub y_parity_and_s : Signature → Result Text
unfolding get_bytes hexlify_bytes
y_parity_and_s sig = do
  w ← get_bytes (text sig.s)
  ok (hexlify_bytes (if y_parity sig.v == 0 then w else set_top_bit w))

unfoldable pub compact_serialized : (Text → ℕ) → Signature → Result Text
unfolding y_parity_and_s concat
compact_serialized to_byte sig = do
  t ← y_parity_and_s sig
  concat to_byte (text sig.r ∷ text t ∷ [])

-- `if (this.networkV)`: the bigint 0 is not copied.
abbrev pub copied_v : Option ℤ → Option ℤ
copied_v none = none
copied_v (some (pos zero)) = none
copied_v (some (pos (suc n))) = some (pos (suc n))
copied_v (some (negsuc n)) = some (negsuc n)

unfoldable pub clone : Signature → Signature
clone sig = record { r = sig.r; s = sig.s; v = sig.v; network_v = copied_v sig.network_v }

-- The chain of an EIP-155 `v` that is a bigint.
unfoldable pub network_of : ℤ → Result ℤ
network_of (pos n) =
    if n == 27 || n == 28
    then ok (pos 0)
    else if leb 35 n
    then ok (pos ((n - 35) / 2))
    else err invalid_argument
network_of (negsuc n) = err invalid_argument

unfoldable pub get_network_id : BigNumberish → Result ℤ
unfolding get_big_int network_of
get_network_id value = do z ← get_big_int value; network_of z

unfoldable pub legacy_network_id : Signature → Result (Option ℤ)
unfolding get_network_id
legacy_network_id sig = elim sig.network_v [
  | none ↦ ok none
  | some z ↦ do n ← network_of z; ok (some n)
]

-- `networkId * 2 + (35 + v - 27)`
abbrev pub network_v_of : ℤ → V → ℤ
network_v_of (pos n) w = pos (n * 2 + (35 + v_value w - 27))
network_v_of (negsuc n) w = sub_ℕ (35 + v_value w - 27) ((n + 1) * 2)

unfoldable pub get_network_id_v : BigNumberish → V → Result ℤ
unfolding get_big_int
get_network_id_v value w = do z ← get_big_int value; ok (network_v_of z w)

unfoldable pub normal_of : ℤ → Result V
normal_of (pos n) =
    if n == 0 || n == 27
    then ok v27
    else if n == 1 || n == 28
    then ok v28
    else if leb 35 n
    then ok (if n % 2 == 0 then v28 else v27)
    else err invalid_argument
normal_of (negsuc n) = err invalid_argument

unfoldable pub get_normalized_v : BigNumberish → Result V
unfolding get_big_int normal_of
get_normalized_v value = do z ← get_big_int value; normal_of z
