-- ===== src/Utils/Data/Slices.antt =====
-- src.ts/utils/data.ts: concatenation, slices, padding and the stripping of zeros.
use corebc_js.Utils.Data.{
  BytesLike, bytes, text, Hexable, array, string, number, bigint, object, DataOptions, no_options,
  HexPad, left, right, hex_value, is_bytes, is_hex_text, is_hex_string, whole_bytes, get_bytes,
  add_prefix, hexlify, hexlify_bytes, check_safe_uint53,
}
use corebc_js.Common.Radix.{digits}
use corebc_js.Common.{
  ℕ, ◌+◌, ◌-◌, ◌*◌, ◌/◌, ◌%◌, arith, Bool, true, false, ◌&&◌, Option, none, some, List, [], ◌∷◌,
  ◌++◌, Text, leb, ◌==◌, if◌then◌else◌, length, drop, replicate, slice, Result, ◌>>=◌, ◌>>◌, assert,
  ok, err, invalid_argument, buffer_overrun, numeric_fault,
}
use Prim.Native.Nat.{min, max}
use corebc_js.Common.Integers.{pos, negsuc}

-- `value.substring(start, end)`: the two bounds are swapped where they are the wrong way round.
abbrev pub substring : ℕ → ℕ → Text → Text
substring start end s = slice (min start end) (max start end) s

abbrev pub as_hexable : BytesLike → Hexable
as_hexable (bytes v) = array v
as_hexable (text s) = string s

-- `while (bytes.startsWith("00")) { bytes = bytes.substring(2); }`
unfoldable pub strip_pairs : Text → Text
strip_pairs (c ∷ d ∷ s) =
    let rest = strip_pairs s in if c == b'0' && d == b'0' then rest else c ∷ d ∷ s
strip_pairs s = s

-- The part of a text that `hexDataSlice` takes, with the end given or absent.
abbrev pub cut_text : ℕ → Option ℕ → Text → Text
cut_text offset none s = drop (2 + 2 * offset) s
cut_text offset (some e) s = substring (2 + 2 * offset) (2 + 2 * e) s

module _ (to_byte : Text → ℕ) where
  -- `concat`; `hexConcat` builds the same text in a loop.
  unfoldable pub concat_digits : List BytesLike → Result Text
  unfolding hexlify
  concat_digits [] = ok []
  concat_digits (d ∷ items) = do
    s ← hexlify to_byte no_options (as_hexable d)
    rest ← concat_digits items
    ok (drop 2 s ++ rest)

  unfoldable pub concat : List BytesLike → Result Text
  unfolding concat_digits
  concat items = do s ← concat_digits items; ok (b'0' ∷ b'x' ∷ s)

  -- The text that `hexDataSlice` cuts.
  unfoldable pub hex_data_text : BytesLike → Result Text
  unfolding hexlify
  hex_data_text (bytes v) = hexlify to_byte no_options (array v)
  hex_data_text (text s) = if is_hex_text s && length s % 2 == 0 then ok s else err invalid_argument

  unfoldable pub hex_data_slice : BytesLike → ℕ → Option ℕ → Result Text
  unfolding hex_data_text
  hex_data_slice d offset end = do s ← hex_data_text d; ok (b'0' ∷ b'x' ∷ cut_text offset end s)

  -- `hexDataLength`: `none` is null.
  unfoldable pub hex_data_length : BytesLike → Result (Option ℕ)
  unfolding hexlify
  hex_data_length (bytes v) = do
    s ← hexlify to_byte no_options (array v)
    ok (some ((length s - 2) / 2))
  hex_data_length (text s) =
      ok (if is_hex_text s && length s % 2 == 0 then some ((length s - 2) / 2) else none)

  unfoldable pub strip_zeros_left : BytesLike → Result Text
  unfolding hexlify strip_pairs
  strip_zeros_left d = do
    s ← hexlify to_byte no_options (as_hexable d)
    ok (b'0' ∷ b'x' ∷ strip_pairs (drop 2 s))

unfoldable pub data_length : BytesLike → Result ℕ
unfolding is_hex_string
data_length (bytes v) = ok (length v)
data_length (text s) =
    if is_hex_string s whole_bytes
    then ok ((length s - 2) / 2)
    else get_bytes (text s) >>= λ v. ok (length v)

-- `start == null ? 0 : start`
abbrev pub or_else : ℕ → Option ℕ → ℕ
or_else d none = d
or_else d (some n) = n

unfoldable pub data_slice : BytesLike → Option ℕ → Option ℕ → Result Text
data_slice d start end = do
  v ← get_bytes d
  assert (leb (or_else 0 end) (length v)) buffer_overrun
  ok (hexlify_bytes (slice (or_else 0 start) (or_else (length v) end) v))

unfoldable pub zero_pad : BytesLike → ℕ → Bool → Result Text
zero_pad d n on_left = do
  v ← get_bytes d
  assert (leb (length v) n) buffer_overrun
  let zeros = replicate (n - length v) 0
  ok (hexlify_bytes (if on_left then zeros ++ v else v ++ zeros))

unfoldable pub zero_pad_value : BytesLike → ℕ → Result Text
unfolding zero_pad
zero_pad_value d n = zero_pad d n true

unfoldable pub zero_pad_bytes : BytesLike → ℕ → Result Text
unfolding zero_pad
zero_pad_bytes d n = zero_pad d n false

-- `parseInt(pair, 16)` stored in a Uint8Array: of the text "0x" it is NaN, which is stored as 0.
abbrev pub pair_value : ℕ → ℕ → ℕ
pair_value c d = if d == b'x' then 0 else hex_value c * 16 + hex_value d

-- `for (let i = 0; i < hex.length; i += 2) result.push(parseInt(hex.substring(i, i + 2), 16))`
unfoldable pub parse_pairs : Text → List ℕ
parse_pairs [] = []
parse_pairs (c ∷ []) = hex_value c ∷ []
parse_pairs (c ∷ d ∷ s) = pair_value c d ∷ parse_pairs s

-- What `arrayify` does to the digits of a text of odd length.
unfoldable pub pad_digits : Option HexPad → Text → Result Text
pad_digits (some left) hex = ok (b'0' ∷ b'x' ∷ b'0' ∷ drop 2 hex)
pad_digits (some right) hex = ok (hex ++ b'0' ∷ [])
pad_digits none hex = err invalid_argument

unfoldable pub arrayify_text : DataOptions → Text → Result (List ℕ)
unfolding parse_pairs pad_digits
arrayify_text o s =
    let prefixed = add_prefix o s in
    let hex = drop 2 prefixed in
    let even = if length hex % 2 == 0 then ok hex else pad_digits o.hex_pad hex in
    if is_hex_text prefixed then even >>= (λ t. ok (parse_pairs t)) else err invalid_argument

-- The loop of `arrayify` on a number: the quotient's decimal text is cut at the point.
unfoldable pub number_bytes : ℕ → List ℕ
unfolding digits
number_bytes v = if v == 0 then 0 ∷ [] else digits 256 (omega arith) (λ d. d) v []

unfoldable pub arrayify : DataOptions → Hexable → Result (List ℕ)
unfolding arrayify_text number_bytes is_bytes check_safe_uint53
arrayify o (number (pos n)) = do check_safe_uint53 (pos n); ok (number_bytes n)
arrayify o (number (negsuc n)) = err numeric_fault
arrayify o (bigint n) = err invalid_argument
arrayify o (array v) = if is_bytes v then ok v else err invalid_argument
arrayify o (string s) = arrayify_text o s
arrayify o (object s) = arrayify_text (record o { allow_missing_prefix = false }) s

-- `while (start < result.length && result[start] === 0) start++`, and the slice from there.
unfoldable pub drop_zeros : List ℕ → List ℕ
drop_zeros [] = []
drop_zeros (b ∷ v) = let rest = drop_zeros v in if b == 0 then rest else b ∷ v

unfoldable pub strip_zeros : BytesLike → Result (List ℕ)
unfolding arrayify drop_zeros
strip_zeros d = do v ← arrayify no_options (as_hexable d); ok (drop_zeros v)
