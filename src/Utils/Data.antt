-- ===== src/Utils/Data.antt =====
-- src.ts/utils/data.ts: binary data as byte arrays and as `0x` texts.
-- A Uint8Array, or an array of numbers, is the list of its entries; a string is the list of its
-- code units. The model has no shared buffers, so a copy of an array is the array.
pub mod Hex
pub mod Slices
pub mod Texts
pub mod Pad
mod Runs
use corebc_js.Common.{
  ℕ, ◌+◌, ◌-◌, ◌*◌, ◌/◌, ◌%◌, Bool, true, false, ◌&&◌, ◌||◌, List, [], ◌∷◌, ◌++◌, Option, none,
  some, arith, Text, codes, ltb, leb, ◌==◌, if◌then◌else◌, length, get_or, drop, all, not, bit_and,
  Result, ok, err, assert, invalid_argument, numeric_fault, map, ◌>>=◌, ◌>>◌,
}
use corebc_js.Common.Integers.{ℤ, pos, negsuc}
use corebc_js.Common.Radix.{digits}

-- `string | Uint8Array`
pub data BytesLike : Type 0 where
  bytes : List ℕ → BytesLike
  text : Text → BytesLike

-- The arguments of `hexlify` and `arrayify`: a BytesLike, a number, a bigint, or an object with
-- a method `toHexString`, given by what that returns. A number is an integer here.
pub data Hexable : Type 0 where
  array : List ℕ → Hexable
  string : Text → Hexable
  number : ℤ → Hexable
  bigint : ℕ → Hexable
  object : Text → Hexable

pub data HexPad : Type 0 where
  left right : HexPad

pub record DataOptions : Type 0 where
  pub allow_missing_prefix : Bool
  pub hex_pad : Option HexPad

abbrev pub no_options : DataOptions
no_options = record { allow_missing_prefix = false; hex_pad = none }

unfoldable pub is_bytes : List ℕ → Bool
is_bytes v = all (λ b. ltb b 256) v

-- One character of the class [0-9A-Fa-f].
abbrev pub is_hex_digit : ℕ → Bool
is_hex_digit c =
    (leb b'0' c && leb c b'9') || (leb b'a' c && leb c b'f') || (leb b'A' c && leb c b'F')

-- `parseInt(c, 16)` of one hexadecimal digit.
abbrev pub hex_value : ℕ → ℕ
hex_value c = if leb c b'9' then c - b'0' else if leb c b'F' then c - 55 else c - 87

abbrev pub to_lower : ℕ → ℕ
to_lower c = if leb b'A' c && leb c b'Z' then c + 32 else c

abbrev pub lower_case : Text → Text
lower_case [] = []
lower_case (c ∷ s) = to_lower c ∷ lower_case s

-- `([0-9a-f][0-9a-f])*`, whatever the case of the letters.
unfoldable pub is_pairs : Text → Bool
is_pairs [] = true
is_pairs (c ∷ []) = false
is_pairs (c ∷ d ∷ s) = is_hex_digit c && is_hex_digit d && is_pairs s

-- `value.match(/^0x([0-9a-f][0-9a-f])*$/i)`: the flag lets the prefix be `0X` too.
unfoldable pub is_data_text : Text → Bool
unfolding is_pairs
is_data_text (z ∷ x ∷ s) = z == b'0' && (x == b'x' || x == b'X') && is_pairs s
is_data_text _ = false

-- The bytes of pairs of hexadecimal digits.
unfoldable pub pair_bytes : Text → List ℕ
pair_bytes (c ∷ d ∷ s) = (hex_value c * 16 + hex_value d) ∷ pair_bytes s
pair_bytes _ = []

unfoldable pub get_bytes : BytesLike → Result (List ℕ)
unfolding is_data_text pair_bytes
get_bytes (bytes v) = ok v
get_bytes (text s) = if is_data_text s then ok (pair_bytes (drop 2 s)) else err invalid_argument

-- The optional argument `length` of `isHexString`: absent, a number, or `true`.
pub data HexLength : Type 0 where
  any_length : HexLength
  exactly : ℕ → HexLength
  whole_bytes : HexLength

-- `value.match(/^0x[0-9A-Fa-f]*$/)`
unfoldable pub is_hex_text : Text → Bool
is_hex_text (z ∷ x ∷ s) = z == b'0' && x == b'x' && all is_hex_digit s
is_hex_text _ = false

unfoldable pub length_fits : HexLength → Text → Bool
length_fits any_length s = true
length_fits (exactly n) s = length s == 2 + 2 * n
length_fits whole_bytes s = length s % 2 == 0

unfoldable pub is_hex_string : Text → HexLength → Bool
unfolding is_hex_text length_fits
is_hex_string s n = is_hex_text s && length_fits n s

unfoldable pub is_bytes_like : BytesLike → Bool
unfolding is_hex_string
is_bytes_like (bytes v) = true
is_bytes_like (text s) = is_hex_string s whole_bytes

-- `HexCharacters[n]`
unfoldable pub hex_char : ℕ → ℕ
hex_char n = get_or (codes "0123456789abcdef") n 0

unfoldable pub byte_digits : List ℕ → Text
unfolding hex_char
byte_digits [] = []
byte_digits (v ∷ vs) = hex_char (bit_and v 0xf0 / 16) ∷ hex_char (bit_and v 0x0f) ∷ byte_digits vs

-- `hexlify` of a byte array.
unfoldable pub hexlify_bytes : List ℕ → Text
unfolding byte_digits
hexlify_bytes v = b'0' ∷ b'x' ∷ byte_digits v

-- The loop of `hexlify` on a number; `value.toString(16)` writes the same digits.
unfoldable pub hex_digits : ℕ → Text
unfolding hex_char digits
hex_digits v = digits 16 (omega arith) hex_char v []

-- An even number of digits, with a zero in front where one is missing.
abbrev pub even_digits : Text → Text
even_digits s = if length s % 2 == 0 then s else b'0' ∷ s

abbrev pub max_safe : ℕ
max_safe = 0x1fffffffffffff

unfoldable pub check_safe_uint53 : ℤ → Result (Unit {0})
check_safe_uint53 (pos n) = assert (ltb n max_safe) numeric_fault
check_safe_uint53 (negsuc n) = err numeric_fault

unfoldable pub hexlify_number : ℕ → Text
unfolding hex_digits
hexlify_number v = if v == 0 then codes "0x00" else b'0' ∷ b'x' ∷ even_digits (hex_digits v)

-- `value.toString(16)`
unfoldable pub to_string_16 : ℕ → Text
unfolding hex_digits
to_string_16 v = if v == 0 then codes "0" else hex_digits v

unfoldable pub hexlify_bigint : ℕ → Text
unfolding to_string_16
hexlify_bigint v = b'0' ∷ b'x' ∷ even_digits (to_string_16 v)

-- `value.substring(0, 2) === "0x"`
unfoldable pub starts_0x : Text → Bool
starts_0x (z ∷ x ∷ t) = z == b'0' && x == b'x'
starts_0x _ = false

unfoldable pub add_prefix : DataOptions → Text → Text
unfolding starts_0x
add_prefix o s = if o.allow_missing_prefix && not (starts_0x s) then b'0' ∷ b'x' ∷ s else s

-- What `hexlify` does to a hexadecimal text of odd length.
unfoldable pub pad_hex : Option HexPad → Text → Result Text
pad_hex (some left) s = ok (b'0' ∷ b'x' ∷ b'0' ∷ drop 2 s)
pad_hex (some right) s = ok (s ++ b'0' ∷ [])
pad_hex none s = err invalid_argument

-- The branch of `hexlify` for a text.
unfoldable pub hexlify_text : DataOptions → Text → Result Text
unfolding add_prefix pad_hex is_hex_text
hexlify_text o s =
    let prefixed = add_prefix o s in
    let even = if length prefixed % 2 == 0 then ok prefixed else pad_hex o.hex_pad prefixed in
    if is_hex_text prefixed then even >>= (λ t. ok (lower_case t)) else err invalid_argument

-- `value.includes(",") && value.startsWith("0x")`: a list of numbers behind the prefix.
unfoldable pub has_comma : Text → Bool
has_comma [] = false
has_comma (c ∷ s) = c == b',' || has_comma s

unfoldable pub split_commas : Text → Text → List Text
split_commas [] word = word ∷ []
split_commas (c ∷ s) word =
    let next = word ∷ split_commas s [] in
    let same = split_commas s (word ++ c ∷ []) in if c == b',' then next else same

-- `Number` of a text, stored in a Uint8Array, is the parameter `to_byte`.
module _ (to_byte : Text → ℕ) where
  unfoldable pub hexlify : DataOptions → Hexable → Result Text
  unfolding hexlify_bytes hexlify_text hexlify_number hexlify_bigint check_safe_uint53 is_bytes
      has_comma split_commas
  hexlify o (array v) = if is_bytes v then ok (hexlify_bytes v) else err invalid_argument
  hexlify o (string s) =
      let numbers = map to_byte (split_commas (drop 2 s) []) in
      if has_comma s && starts_0x s then ok (hexlify_bytes numbers) else hexlify_text o s
  hexlify o (number (pos n)) = do check_safe_uint53 (pos n); ok (hexlify_number n)
  hexlify o (number (negsuc n)) = err numeric_fault
  hexlify o (bigint n) = ok (hexlify_bigint n)
  hexlify o (object s) = ok s
