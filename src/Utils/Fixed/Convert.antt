-- ===== src/Utils/Fixed/Convert.antt =====
-- The static functions of FixedNumber in src.ts/utils/fixednumber.ts, and `toFormat`.
use corebc_js.Utils.Data.{BytesLike, get_bytes}
use corebc_js.Utils.Maths.{
  BigNumberish, bigint, from_twos, is_digit, get_big_int, bytes_to_bigint, or_invalid, parse_bigint,
}
use corebc_js.Utils.Fixed.Formats.{
  zeros, get_tens, FixedFormat, Format, get_format, lead_digits, after_digits,
}
use corebc_js.Utils.Fixed.Values.{check_value}
use corebc_js.Utils.Fixed.Number.{FixedNumber, new_fixed}
use corebc_js.Common.{
  ℕ, zero, suc, ◌+◌, ◌-◌, Bool, true, false, ◌&&◌, Option, none, some, [], ◌∷◌, ◌++◌, codes, Text,
  ltb, ◌==◌, if◌then◌else◌, length, take, drop, all, Result, ◌>>=◌, ◌>>◌, assert, ok, err,
  invalid_argument, numeric_fault,
}
use corebc_js.Common.Integers.{ℤ, pos, ◌*ℤ◌, tdiv, tmod, is_zero_ℤ}

-- `checkValue(value, format, op)`, whose result is not used, and the constructor.
unfoldable pub fixed_of : ℤ → Format → Result FixedNumber
fixed_of value format = check_value value format true >>= λ v. ok (new_fixed value format)

-- The value at the decimals of the format; `value` has `decimals` of them.
unfoldable pub rescaled : ℤ → ℕ → ℕ → Result ℤ
rescaled value decimals places =
    let tens = pos (get_tens (decimals - places)) in
    let divided = assert (is_zero_ℤ (tmod value tens)) numeric_fault >> ok (tdiv value tens) in
    if ltb places decimals
    then divided
    else if ltb decimals places
    then ok (value *ℤ pos (get_tens (places - decimals)))
    else ok value

abbrev pub or_zero : Option ℕ → ℕ
or_zero none = 0
or_zero (some n) = n

unfoldable pub from_value : BigNumberish → Option ℕ → FixedFormat → Result FixedNumber
from_value value decimals fixed_format = do
  format ← get_format fixed_format
  z ← get_big_int value
  v ← rescaled z (or_zero decimals) format.decimals
  fixed_of v format

-- The groups of `/^(-?)([0-9]*)\.?([0-9]*)$/`, the first as a test.
abbrev pub Groups : Type 0
Groups = Bool × Text × Text

unfoldable pub match_fraction : Bool → Text → Text → Option Groups
match_fraction minus whole [] = some (minus, whole, [])
match_fraction minus whole (c ∷ s) =
    if c == b'.' && all is_digit s then some (minus, whole, s) else none

unfoldable pub match_unsigned : Bool → Text → Option Groups
unfolding match_fraction
match_unsigned minus s = match_fraction minus (lead_digits s) (after_digits s)

unfoldable pub match_decimal : Text → Option Groups
unfolding match_unsigned
match_decimal [] = match_unsigned false []
match_decimal (c ∷ s) = if c == b'-' then match_unsigned true s else match_unsigned false (c ∷ s)

-- `while (decimal.length < format.decimals) decimal += Zeros`
unfoldable pub pad_back : ℕ → ℕ → Text → Text
pad_back zero decimals decimal = decimal
pad_back (suc fuel) decimals decimal = elim (ltb (length decimal) decimals) [
  | true ↦ pad_back fuel decimals (decimal ++ zeros)
  | false ↦ decimal
]

abbrev pub or_zero_digit : Text → Text
or_zero_digit [] = codes "0"
or_zero_digit (c ∷ s) = c ∷ s

abbrev pub minus_text : Bool → Text
minus_text minus = if minus then codes "-" else []

-- `BigInt` of the matched text, with the decimals padded out and cut to those of the format.
unfoldable pub decimal_value : Groups → ℕ → Result ℤ
unfolding pad_back
decimal_value (minus, whole, fraction) places =
    let decimal = pad_back places places fraction in
    do
      assert (all (λ c. c == b'0') (drop places decimal)) numeric_fault
      or_invalid (parse_bigint (minus_text minus ++ (or_zero_digit whole ++ take places decimal)))

-- `match && match[2].length + match[3].length > 0`
unfoldable pub some_digits : Option Groups → Result Groups
some_digits none = err invalid_argument
some_digits (some (minus, whole, fraction)) = do
  assert (ltb 0 (length whole + length fraction)) invalid_argument
  ok (minus, whole, fraction)

unfoldable pub from_string : Text → FixedFormat → Result FixedNumber
from_string value fixed_format = do
  groups ← some_digits (match_decimal value)
  format ← get_format fixed_format
  v ← decimal_value groups format.decimals
  fixed_of v format

unfoldable pub to_format : FixedNumber → FixedFormat → Result FixedNumber
unfolding from_string
to_format this fixed_format = from_string this.text fixed_format

-- The integer that bytes stand for in a format.
unfoldable pub bytes_value : Bool → ℤ → ℕ → Result ℤ
bytes_value true value width = from_twos (bigint value) width
bytes_value false value width = ok value

unfoldable pub from_bytes : BytesLike → FixedFormat → Result FixedNumber
unfolding bytes_value fixed_of
from_bytes value fixed_format = do
  bytes ← get_bytes value
  z ← bytes_to_bigint bytes
  format ← get_format fixed_format
  v ← bytes_value format.signed z format.width
  fixed_of v format
