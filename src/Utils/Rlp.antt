-- ===== src/Utils/Rlp.antt =====
-- src.ts/utils/rlp-encode.ts and src.ts/utils/rlp-decode.ts: recursive length prefixes.
-- The decoder reads one byte array at offsets, as the source does. Its loops take fuel, and `stuck`
-- is fuel that ran out; `decode_rlp` gives twice the number of bytes and one.
pub mod Lengths
pub mod Steps
pub mod Headers
pub mod RoundTrip
pub mod Total
pub mod Encodes
mod Runs
use corebc_js.Utils.Data.{text, get_bytes, hex_char, hexlify_bytes, to_string_16}
use corebc_js.Common.{
  ℕ, zero, suc, ◌+◌, ◌-◌, ◌*◌, ◌/◌, ◌%◌, ◌^◌, bit_and, ◌&&◌, none, some, List, [], ◌∷◌, ◌++◌, Text,
  ltb, leb, ◌==◌, if◌then◌else◌, length, get_elem?, get_or, replicate, slice, Result, ◌>>=◌, ◌>>◌,
  assert, ok, err, stuck, invalid_argument, buffer_overrun, type_error,
}

-- RlpStructuredData: a text of binary data, or an array of such.
mutual
  pub data Structured : Type 0 where
    leaf : Text → Structured
    list : Items → Structured

  pub data Items : Type 0 where
    no_items : Items
    item : Structured → Items → Items

-- `while (value) { result.unshift(value & 0xff); value >>= 8; }`. The shift reads its operand as
-- a signed 32-bit integer, so the loop does not end where bit 31 is set. Five rounds are enough.
unfoldable pub arrayify_loop : ℕ → ℕ → List ℕ → Result (List ℕ)
arrayify_loop zero value out = stuck
arrayify_loop (suc f) value out =
    let more = arrayify_loop f (value % 2 ^ 32 / 256) ((value % 256) ∷ out) in
    let shifted = if ltb (value % 2 ^ 32) (2 ^ 31) then more else stuck in
    if value == 0 then ok out else shifted

unfoldable pub arrayify_integer : ℕ → Result (List ℕ)
unfolding arrayify_loop
arrayify_integer value = arrayify_loop 5 value []

-- What `_encode` puts round the payload of an array, and round the bytes of a leaf.
unfoldable pub encode_array : List ℕ → Result (List ℕ)
encode_array payload =
    let long = do n ← arrayify_integer (length payload); ok ((0xf7 + length n) ∷ (n ++ payload))
    in if leb (length payload) 55 then ok ((0xc0 + length payload) ∷ payload) else long

unfoldable pub encode_data : List ℕ → Result (List ℕ)
encode_data d =
    let long = do n ← arrayify_integer (length d); ok ((0xb7 + length n) ∷ (n ++ d))
    in if length d == 1 && leb (get_or d 0 0) 0x7f
      then ok d
      else if leb (length d) 55
      then ok ((0x80 + length d) ∷ d)
      else long

unfoldable mutual
  pub encode : Structured → Result (List ℕ)
  encode (leaf s) = get_bytes (text s) >>= encode_data
  encode (list xs) = encode_items xs >>= encode_array

  pub encode_items : Items → Result (List ℕ)
  encode_items no_items = ok []
  encode_items (item x xs) = do p ← encode x; q ← encode_items xs; ok (p ++ q)

-- `nibbles[v >> 4]` and `nibbles[v & 0xf]`
unfoldable pub nibble_text : List ℕ → Text
nibble_text [] = []
nibble_text (v ∷ vs) = hex_char (v / 16) ∷ hex_char (bit_and v 0x0f) ∷ nibble_text vs

unfoldable pub encode_rlp : Structured → Result Text
unfolding nibble_text
encode_rlp x = do v ← encode x; ok (b'0' ∷ b'x' ∷ nibble_text v)

-- `while (result.length < 2) { result = "0" + result; }`
unfoldable pub hexlify_byte : ℕ → Text
hexlify_byte v = b'0' ∷ b'x' ∷ (replicate (2 - length (to_string_16 v)) b'0' ++ to_string_16 v)

-- `for (let i = 0; i < length; i++) result = result * 256 + data[offset + i]`
unfoldable pub unarrayify_loop : ℕ → List ℕ → ℕ → ℕ → ℕ
unarrayify_loop zero v position result = result
unarrayify_loop (suc n) v position result =
    unarrayify_loop n v (position + 1) (result * 256 + get_or v position 0)

unfoldable pub unarrayify_integer : List ℕ → ℕ → ℕ → ℕ
unfolding unarrayify_loop
unarrayify_integer v offset n = unarrayify_loop n v offset 0

-- `checkOffset`
abbrev pub check_offset : List ℕ → ℕ → Result (Unit {0})
check_offset v offset = assert (leb offset (length v)) buffer_overrun

-- `_decode` on the byte at `offset`. `children` is `_decodeChildren` at this offset.
unfoldable pub decode_byte :
    (ℕ → ℕ → Result (Structured × ℕ)) → List ℕ → ℕ → ℕ → Result (Structured × ℕ)
decode_byte children v offset b =
    let long_array = do
      check_offset v (offset + 1 + (b - 0xf7))
      let n = unarrayify_integer v (offset + 1) (b - 0xf7)
      check_offset v (offset + 1 + (b - 0xf7) + n)
      children (offset + 1 + (b - 0xf7)) (b - 0xf7 + n)
    in let short_array = do
      check_offset v (offset + 1 + (b - 0xc0))
      children (offset + 1) (b - 0xc0)
      in let long_data = do
        check_offset v (offset + 1 + (b - 0xb7))
        let n = unarrayify_integer v (offset + 1) (b - 0xb7)
        check_offset v (offset + 1 + (b - 0xb7) + n)
        let part = slice (offset + 1 + (b - 0xb7)) (offset + 1 + (b - 0xb7) + n) v
        ok (leaf (hexlify_bytes part), 1 + (b - 0xb7) + n)
        in let short_data = do
          check_offset v (offset + 1 + (b - 0x80))
          ok (leaf (hexlify_bytes (slice (offset + 1) (offset + 1 + (b - 0x80)) v)), 1 + (b - 0x80))
          in if leb 0xf8 b
            then long_array
            else if leb 0xc0 b
            then short_array
            else if leb 0xb8 b
            then long_data
            else if leb 0x80 b
            then short_data
            else ok (leaf (hexlify_byte b), 1)

-- A read past the end gives `undefined`, whose conversion to a text throws a TypeError.
unfoldable pub decode_step :
    (ℕ → ℕ → Result (Structured × ℕ)) → List ℕ → ℕ → Result (Structured × ℕ)
decode_step children v offset =
    if length v == 0 then err buffer_overrun else elim (get_elem? v offset) [
      | none ↦ err type_error
      | some b ↦ decode_byte children v offset b
    ]

unfoldable mutual
  pub decode : ℕ → List ℕ → ℕ → Result (Structured × ℕ)
  decode zero v offset = stuck
  decode (suc f) v offset =
      decode_step (λ child n. do xs ← decode_children f v offset child n; ok (list xs, 1 + n)) v
        offset

  pub decode_children : ℕ → List ℕ → ℕ → ℕ → ℕ → Result Items
  decode_children zero v offset child n = stuck
  decode_children (suc f) v offset child n =
      let round = do
        (x, consumed) ← decode f v child
        assert (leb (child + consumed) (offset + 1 + n)) buffer_overrun
        xs ← decode_children f v offset (child + consumed) n
        ok (item x xs)
      in if ltb child (offset + 1 + n) then round else ok no_items

unfoldable pub decode_rlp : Text → Result Structured
decode_rlp s = do
  v ← get_bytes (text s)
  (x, consumed) ← decode (2 * length v + 1) v 0
  assert (consumed == length v) invalid_argument
  ok x
