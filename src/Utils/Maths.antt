-- ===== src/Utils/Maths.antt =====
-- src.ts/utils/maths.ts: numeric arguments, two's complement, and big-endian forms.
-- A bigint is an integer; a width in bits or bytes is a natural number. `~x & (2 ** w - 1)` is the
-- remainder of x below 2 ** w, taken from 2 ** w - 1.
pub mod Literals
pub mod Twos
pub mod BigEndian
mod Runs
use mathlib.Core.Option
use corebc_js.Common.Radix.{of_digits}
use corebc_js.Utils.Data.{
  is_hex_digit, hex_value, even_digits, to_string_16, pair_bytes, hexlify_bytes, is_hex_string,
  whole_bytes, lower_case,
}
use corebc_js.Utils.Rlp.{nibble_text}
use corebc_js.Common.{
  ℕ, zero, suc, ◌+◌, ◌-◌, ◌*◌, ◌/◌, ◌%◌, ◌^◌, Bool, not, ◌&&◌, ◌||◌, Option, none, some, List, [],
  ◌∷◌, ◌++◌, map, codes, Text, ltb, leb, ◌==◌, if◌then◌else◌, length, drop, replicate, all, Result,
  ◌>>=◌, ◌>>◌, assert, ok, err, invalid_argument, numeric_fault,
}
use mathlib.Core.List.{reverse}
use corebc_js.Common.Integers.{ℤ, pos, negsuc}

-- `string | number | bigint`; `fraction` is a number that is no integer, NaN and the infinities
-- included.
pub data BigNumberish : Type 0 where
  bigint : ℤ → BigNumberish
  number : ℤ → BigNumberish
  fraction : BigNumberish
  text : Text → BigNumberish

abbrev pub max_value : ℕ
max_value = 0x1fffffffffffff

-- `value >= -maxValue && value <= maxValue`
abbrev pub is_safe : ℤ → Bool
is_safe (pos n) = leb n max_value
is_safe (negsuc n) = leb (n + 1) max_value

abbrev pub negate : ℤ → ℤ
negate (pos zero) = pos 0
negate (pos (suc n)) = negsuc n
negate (negsuc n) = pos (n + 1)

-- White space and line terminators of ECMAScript.
abbrev pub is_space : ℕ → Bool
is_space c =
    (leb 9 c && leb c 13)
    || c == 32
    || c == 0xa0
    || c == 0x1680
    || (leb 0x2000 c && leb c 0x200a)
    || c == 0x2028
    || c == 0x2029
    || c == 0x202f
    || c == 0x205f
    || c == 0x3000
    || c == 0xfeff

unfoldable pub trim_start : Text → Text
trim_start [] = []
trim_start (c ∷ s) = let rest = trim_start s in if is_space c then rest else c ∷ s

unfoldable pub trim : Text → Text
unfolding trim_start
trim s = reverse (trim_start (reverse (trim_start s)))

abbrev pub is_digit : ℕ → Bool
is_digit c = leb b'0' c && leb c b'9'

-- One or more digits of a base.
unfoldable pub parse_digits : ℕ → (ℕ → Bool) → Text → Option ℕ
parse_digits base ok? [] = none
parse_digits base ok? (c ∷ s) =
    if all ok? (c ∷ s) then some (of_digits base hex_value 0 (c ∷ s)) else none

unfoldable pub parse_signed : Text → Option ℤ
unfolding parse_digits
parse_signed [] = some (pos 0)
parse_signed (c ∷ s) =
    if c == b'-'
    then Option.map (λ n. negate (pos n)) (parse_digits 10 is_digit s)
    else if c == b'+'
    then Option.map pos (parse_digits 10 is_digit s)
    else Option.map pos (parse_digits 10 is_digit (c ∷ s))

-- `BigInt` of a trimmed text: empty, a decimal integer with a sign or none, or a literal with the
-- prefix 0x, 0o or 0b.
unfoldable pub parse_literal : Text → Option ℤ
unfolding parse_signed
parse_literal (z ∷ p ∷ s) =
    if z == b'0' && (p == b'x' || p == b'X')
    then Option.map pos (parse_digits 16 is_hex_digit s)
    else if z == b'0' && (p == b'o' || p == b'O')
    then Option.map pos (parse_digits 8 (λ c. leb b'0' c && leb c b'7') s)
    else if z == b'0' && (p == b'b' || p == b'B')
    then Option.map pos (parse_digits 2 (λ c. leb b'0' c && leb c b'1') s)
    else parse_signed (z ∷ p ∷ s)
parse_literal s = parse_signed s

unfoldable pub parse_bigint : Text → Option ℤ
unfolding parse_literal trim
parse_bigint s = parse_literal (trim s)

abbrev pub or_invalid : Option ℤ → Result ℤ
or_invalid none = err invalid_argument
or_invalid (some z) = ok z

-- The case of a text. Its second character is looked at behind a minus sign.
unfoldable pub text_to_bigint : Text → Result ℤ
unfolding parse_bigint
text_to_bigint [] = err invalid_argument
text_to_bigint (c ∷ []) =
    if c == b'-'
    then or_invalid (Option.map negate (parse_bigint []))
    else or_invalid (parse_bigint (c ∷ []))
text_to_bigint (c ∷ d ∷ s) =
    if c == b'-' && not (d == b'-')
    then or_invalid (Option.map negate (parse_bigint (d ∷ s)))
    else or_invalid (parse_bigint (c ∷ d ∷ s))

unfoldable pub get_big_int : BigNumberish → Result ℤ
unfolding text_to_bigint
get_big_int (bigint z) = ok z
get_big_int (number z) = do assert (is_safe z) invalid_argument; ok z
get_big_int fraction = err invalid_argument
get_big_int (text s) = text_to_bigint s

-- `assert(result >= 0)`
abbrev pub unsigned : ℤ → Result ℕ
unsigned (pos n) = ok n
unsigned (negsuc n) = err numeric_fault

unfoldable pub get_uint : BigNumberish → Result ℕ
unfolding get_big_int
get_uint value = get_big_int value >>= unsigned

unfoldable pub get_number : BigNumberish → Result ℤ
unfolding parse_bigint
get_number (bigint z) = do assert (is_safe z) invalid_argument; ok z
get_number (number z) = do assert (is_safe z) invalid_argument; ok z
get_number fraction = err invalid_argument
get_number (text []) = err invalid_argument
get_number (text (c ∷ s)) = do
  z ← or_invalid (parse_bigint (c ∷ s))
  assert (is_safe z) invalid_argument
  ok z

-- `1 << (width - 1)`; a shift to the left by -1 gives 0.
abbrev pub half_range : ℕ → ℕ
half_range zero = 0
half_range (suc w) = 2 ^ w

-- `~value & ((1 << width) - 1)`
abbrev pub complement : ℕ → ℕ → ℕ
complement value width = 2 ^ width - 1 - value % 2 ^ width

-- `value >> (width - 1)`; a shift to the right by -1 doubles.
abbrev pub top_bits : ℕ → ℕ → ℕ
top_bits value zero = 2 * value
top_bits value (suc w) = value / 2 ^ w

unfoldable pub from_twos : BigNumberish → ℕ → Result ℤ
from_twos value width = do
  v ← get_uint value
  assert (v / 2 ^ width == 0) numeric_fault
  ok (if top_bits v width == 0 then pos v else negsuc (complement v width))

unfoldable pub twos_of : ℤ → ℕ → Result ℕ
twos_of (pos n) width = do assert (ltb n (half_range width)) numeric_fault; ok n
twos_of (negsuc n) width = do
  assert (leb (n + 1) (half_range width)) numeric_fault
  ok (complement (n + 1) width + 1)

unfoldable pub to_twos : BigNumberish → ℕ → Result ℕ
unfolding twos_of
to_twos value width = do z ← get_big_int value; twos_of z width

-- `value & ((1 << bits) - 1)`
unfoldable pub mask : BigNumberish → ℕ → Result ℕ
mask value bits = do v ← get_uint value; ok (v % 2 ^ bits)

-- `toBigInt` of a byte array goes through the text of its digits behind "0x0".
unfoldable pub bytes_to_bigint : List ℕ → Result ℤ
bytes_to_bigint v = or_invalid (parse_bigint (b'0' ∷ b'x' ∷ b'0' ∷ nibble_text v))

-- `while (result.length < width * 2) result = "0" + result`
abbrev pub pad_start : ℕ → Text → Text
pad_start n s = replicate (n - length s) b'0' ++ s

-- `toBeHex`, with the width in bytes given or absent.
unfoldable pub to_be_hex : BigNumberish → Option ℕ → Result Text
to_be_hex value none = do v ← get_uint value; ok (b'0' ∷ b'x' ∷ even_digits (to_string_16 v))
to_be_hex value (some width) = do
  v ← get_uint value
  assert (leb (length (to_string_16 v)) (width * 2)) numeric_fault
  ok (b'0' ∷ b'x' ∷ pad_start (width * 2) (to_string_16 v))

unfoldable pub be_array : ℕ → List ℕ
be_array v = if v == 0 then [] else pair_bytes (even_digits (to_string_16 v))

unfoldable pub to_be_array : BigNumberish → Result (List ℕ)
unfolding be_array
to_be_array value = do v ← get_uint value; ok (be_array v)

-- `while (result.startsWith("0")) result = result.substring(1)`
unfoldable pub drop_zero_digits : Text → Text
drop_zero_digits [] = []
drop_zero_digits (c ∷ s) = let rest = drop_zero_digits s in if c == b'0' then rest else c ∷ s

abbrev pub quantity_digits : Text → Text
quantity_digits [] = codes "0"
quantity_digits (c ∷ s) = c ∷ s

abbrev pub quantity_text : Text → Text
quantity_text s = b'0' ∷ b'x' ∷ quantity_digits (drop_zero_digits (drop 2 s))

-- `toQuantity` of a byte array.
unfoldable pub bytes_to_quantity : List ℕ → Text
unfolding drop_zero_digits
bytes_to_quantity v = quantity_text (hexlify_bytes v)

-- `toQuantity` of a number, or of a text, which may be one of whole bytes.
unfoldable pub to_quantity : BigNumberish → Result Text
unfolding bytes_to_quantity is_hex_string
to_quantity (text s) =
    let of_number = to_be_array (text s) >>= (λ v. ok (bytes_to_quantity v)) in
    if is_hex_string s whole_bytes then ok (quantity_text (lower_case s)) else of_number
to_quantity (bigint z) = to_be_array (bigint z) >>= λ v. ok (bytes_to_quantity v)
to_quantity (number z) = to_be_array (number z) >>= λ v. ok (bytes_to_quantity v)
to_quantity fraction = err invalid_argument
