-- ===== src/Crypto/Rlp.antt =====
-- src.ts/crypto/rlp.ts: the second copy of the RLP code, which transactions and addresses use.
-- `arrayifyInteger` and `unarrayifyInteger`, and what `_encode` puts round a payload, are written
-- as in src.ts/utils, and stand in Utils.Rlp.
pub mod Agrees
mod Runs
use corebc_js.Utils.Data.{text, string, no_options, is_bytes_like, hexlify_bytes, hexlify_number}
use corebc_js.Utils.Data.Slices.{arrayify}
use corebc_js.Utils.Rlp.{
  Structured, Items, leaf, list, no_items, item, encode_array, encode_data, unarrayify_integer,
}
use corebc_js.Common.{
  ℕ, zero, suc, ◌+◌, ◌-◌, ◌*◌, none, some, List, [], ◌++◌, Text, ltb, leb, ◌==◌, if◌then◌else◌,
  length, get_elem?, slice, Result, ◌>>=◌, ◌>>◌, assert, ok, err, stuck, invalid_argument,
  buffer_overrun, type_error,
}

-- `isBytesLike` guards `arrayify`.
unfoldable pub encode_leaf : Text → Result (List ℕ)
unfolding is_bytes_like arrayify
encode_leaf s =
    let encoded = arrayify no_options (string s) >>= encode_data in
    if is_bytes_like (text s) then encoded else err invalid_argument

unfoldable mutual
  pub encode_object : Structured → Result (List ℕ)
  encode_object (leaf s) = encode_leaf s
  encode_object (list xs) = encode_children xs >>= encode_array

  pub encode_children : Items → Result (List ℕ)
  encode_children no_items = ok []
  encode_children (item x xs) = do p ← encode_object x; q ← encode_children xs; ok (p ++ q)

unfoldable pub encode : Structured → Result Text
encode x = do v ← encode_object x; ok (hexlify_bytes v)

-- `if (end > limit) throw BUFFER_OVERRUN`
unfoldable pub in_range : ℕ → ℕ → Result (Unit {0})
in_range limit end = if ltb limit end then err buffer_overrun else ok tt

unfoldable pub decode_byte :
    (ℕ → ℕ → Result (Structured × ℕ)) → List ℕ → ℕ → ℕ → Result (Structured × ℕ)
decode_byte children v offset b =
    let long_array = do
      in_range (length v) (offset + 1 + (b - 0xf7))
      let n = unarrayify_integer v (offset + 1) (b - 0xf7)
      in_range (length v) (offset + 1 + (b - 0xf7) + n)
      children (offset + 1 + (b - 0xf7)) (b - 0xf7 + n)
    in let short_array = do
      in_range (length v) (offset + 1 + (b - 0xc0))
      children (offset + 1) (b - 0xc0)
      in let long_data = do
        in_range (length v) (offset + 1 + (b - 0xb7))
        let n = unarrayify_integer v (offset + 1) (b - 0xb7)
        in_range (length v) (offset + 1 + (b - 0xb7) + n)
        let part = slice (offset + 1 + (b - 0xb7)) (offset + 1 + (b - 0xb7) + n) v
        ok (leaf (hexlify_bytes part), 1 + (b - 0xb7) + n)
        in let short_data = do
          in_range (length v) (offset + 1 + (b - 0x80))
          ok (leaf (hexlify_bytes (slice (offset + 1) (offset + 1 + (b - 0x80)) v)), 1 + (b - 0x80))
          in if leb 0xf8 b
            then long_array
            else if leb 0xc0 b
            then short_array
            else if leb 0xb8 b
            then long_data
            else if leb 0x80 b
            then short_data
            else ok (leaf (hexlify_number b), 1)

unfoldable pub decode_step :
    (ℕ → ℕ → Result (Structured × ℕ)) → List ℕ → ℕ → Result (Structured × ℕ)
decode_step children v offset =
    if length v == 0 then err buffer_overrun else elim (get_elem? v offset) [
      | none ↦ err type_error
      | some b ↦ decode_byte children v offset b
    ]

unfoldable mutual
  pub decode_object : ℕ → List ℕ → ℕ → Result (Structured × ℕ)
  decode_object zero v offset = stuck
  decode_object (suc f) v offset =
      decode_step (λ child n. do xs ← decode_children f v offset child n; ok (list xs, 1 + n)) v
        offset

  pub decode_children : ℕ → List ℕ → ℕ → ℕ → ℕ → Result Items
  decode_children zero v offset child n = stuck
  decode_children (suc f) v offset child n =
      let round = do
        (x, consumed) ← decode_object f v child
        in_range (offset + 1 + n) (child + consumed)
        xs ← decode_children f v offset (child + consumed) n
        ok (item x xs)
      in if ltb child (offset + 1 + n) then round else ok no_items

unfoldable pub decode_bytes : List ℕ → Result Structured
decode_bytes v = do
  (x, consumed) ← decode_object (2 * length v + 1) v 0
  assert (consumed == length v) invalid_argument
  ok x

-- `decode` of a text.
unfoldable pub decode : Text → Result Structured
unfolding decode_bytes arrayify
decode s = arrayify no_options (string s) >>= decode_bytes
