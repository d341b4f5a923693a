-- ===== src/Utils/Fixed/Number.antt =====
-- The class FixedNumber of src.ts/utils/fixednumber.ts.
use corebc_js.Address.{text_eq}
use corebc_js.Utils.Fixed.Formats.{get_tens, Format}
use corebc_js.Utils.Fixed.Values.{check_value, to_text}
use corebc_js.Common.{
  ℕ, ◌-◌, ◌*◌, Bool, true, false, not, Option, none, some, Text, ltb, leb, if◌then◌else◌, Result,
  ◌>>=◌, ◌>>◌, assert, ok, invalid_argument, numeric_fault,
}
use corebc_js.Common.Integers.{
  ℤ, pos, negsuc, ltb_ℤ, leb_ℤ, ◌+ℤ◌, ◌-ℤ◌, ◌*ℤ◌, tdiv, tmod, is_zero_ℤ,
}

-- `text` is the property `_value`, and `tens` the private one of that name.
pub record FixedNumber : Type 0 where
  pub value : ℤ
  pub format : Format
  pub tens : ℕ
  pub text : Text

unfoldable pub new_fixed : ℤ → Format → FixedNumber
unfolding get_tens to_text
new_fixed value format = record {
  value = value;
  format = format;
  tens = get_tens format.decimals;
  text = to_text value format.decimals;
}

unfoldable pub check_format : FixedNumber → FixedNumber → Result (Unit {0})
check_format this other = assert (text_eq this.format.name other.format.name) invalid_argument

-- The private method `checkValue`.
unfoldable pub checked : ℤ → Format → Bool → Result FixedNumber
checked val format safe = check_value val format safe >>= λ v. ok (new_fixed v format)

-- The private methods with `safeOp` given or not; the public ones stand behind them.
unfoldable pub add_with : Bool → FixedNumber → FixedNumber → Result FixedNumber
unfolding check_format checked
add_with safe this o = do check_format this o; checked (this.value +ℤ o.value) this.format safe

unfoldable pub add_unsafe : FixedNumber → FixedNumber → Result FixedNumber
unfolding add_with
add_unsafe = add_with false

unfoldable pub add : FixedNumber → FixedNumber → Result FixedNumber
unfolding add_with
add = add_with true

unfoldable pub sub_with : Bool → FixedNumber → FixedNumber → Result FixedNumber
unfolding check_format checked
sub_with safe this o = do check_format this o; checked (this.value -ℤ o.value) this.format safe

unfoldable pub sub_unsafe : FixedNumber → FixedNumber → Result FixedNumber
unfolding sub_with
sub_unsafe = sub_with false

unfoldable pub sub : FixedNumber → FixedNumber → Result FixedNumber
unfolding sub_with
sub = sub_with true

unfoldable pub mul_with : Bool → FixedNumber → FixedNumber → Result FixedNumber
unfolding check_format checked
mul_with safe this o = do
  check_format this o
  checked (tdiv (this.value *ℤ o.value) (pos this.tens)) this.format safe

unfoldable pub mul_unsafe : FixedNumber → FixedNumber → Result FixedNumber
unfolding mul_with
mul_unsafe = mul_with false

unfoldable pub mul : FixedNumber → FixedNumber → Result FixedNumber
unfolding mul_with
mul = mul_with true

unfoldable pub mul_signal : FixedNumber → FixedNumber → Result FixedNumber
unfolding check_format checked
mul_signal this other = do
  check_format this other
  assert (is_zero_ℤ (tmod (this.value *ℤ other.value) (pos this.tens))) numeric_fault
  checked (tdiv (this.value *ℤ other.value) (pos this.tens)) this.format true

unfoldable pub div_with : Bool → FixedNumber → FixedNumber → Result FixedNumber
unfolding check_format checked
div_with safe this o = do
  assert (not (is_zero_ℤ o.value)) numeric_fault
  check_format this o
  checked (tdiv (this.value *ℤ pos this.tens) o.value) this.format safe

unfoldable pub div_unsafe : FixedNumber → FixedNumber → Result FixedNumber
unfolding div_with
div_unsafe = div_with false

unfoldable pub div : FixedNumber → FixedNumber → Result FixedNumber
unfolding div_with
div = div_with true

unfoldable pub div_signal : FixedNumber → FixedNumber → Result FixedNumber
unfolding check_format checked
div_signal this other = do
  assert (not (is_zero_ℤ other.value)) numeric_fault
  check_format this other
  assert (is_zero_ℤ (tmod (this.value *ℤ pos this.tens) other.value)) numeric_fault
  checked (tdiv (this.value *ℤ pos this.tens) other.value) this.format true

-- Both comparisons answer -1.
abbrev pub compare_values : ℤ → ℤ → ℤ
compare_values a b = if ltb_ℤ a b then negsuc 0 else if ltb_ℤ b a then negsuc 0 else pos 0

-- The value of `this`, coerced to the larger of the two magnitudes.
abbrev pub coerced : FixedNumber → FixedNumber → ℤ
coerced this other =
    if ltb this.format.decimals other.format.decimals
    then this.value *ℤ pos (get_tens (other.format.decimals - this.format.decimals))
    else this.value

unfoldable pub cmp : FixedNumber → FixedNumber → ℤ
cmp this other = compare_values (coerced this other) (coerced other this)

unfoldable pub eq : FixedNumber → FixedNumber → Bool
unfolding cmp
eq this other = is_zero_ℤ (cmp this other)

unfoldable pub lt : FixedNumber → FixedNumber → Bool
unfolding cmp
lt this other = ltb_ℤ (cmp this other) (pos 0)

unfoldable pub lte : FixedNumber → FixedNumber → Bool
unfolding cmp
lte this other = leb_ℤ (cmp this other) (pos 0)

unfoldable pub gt : FixedNumber → FixedNumber → Bool
unfolding cmp
gt this other = ltb_ℤ (pos 0) (cmp this other)

unfoldable pub gte : FixedNumber → FixedNumber → Bool
unfolding cmp
gte this other = leb_ℤ (pos 0) (cmp this other)

-- The bump of a negative value is overwritten by the next assignment.
unfoldable pub floor : FixedNumber → Result FixedNumber
unfolding checked
floor this = checked (tdiv this.value (pos this.tens) *ℤ pos this.tens) this.format true

-- The bump of a positive value is overwritten by the next assignment.
unfoldable pub ceiling : FixedNumber → Result FixedNumber
unfolding checked
ceiling this = checked (tdiv this.value (pos this.tens) *ℤ pos this.tens) this.format true

-- `value + bump`, cut to a multiple of the tens; `delta` is not 0.
unfoldable pub rounded : ℤ → ℕ → ℤ
rounded value delta =
    let tens = pos (get_tens delta) in tdiv (value +ℤ pos (5 * get_tens (delta - 1))) tens *ℤ tens

-- The checked value is not used.
unfoldable pub round_to : FixedNumber → ℕ → Result FixedNumber
unfolding rounded
round_to this decimals =
    let value = rounded this.value (this.format.decimals - decimals) in
    let fixed = check_value value this.format true >>= λ v. ok (new_fixed value this.format) in
    if leb this.format.decimals decimals then ok this else fixed

unfoldable pub round : FixedNumber → Option ℕ → Result FixedNumber
unfolding round_to
round this none = round_to this 0
round this (some decimals) = round_to this decimals

unfoldable pub is_zero : FixedNumber → Bool
is_zero this = is_zero_ℤ this.value

unfoldable pub is_negative : FixedNumber → Bool
is_negative this = ltb_ℤ this.value (pos 0)
