-- ===== src/Utils/Units.antt =====
-- src.ts/utils/units.ts: integers of the smallest unit and decimal texts.
-- `scientific` is scientificToDecimal, which goes through floating-point numbers. A unit given as a
-- number is natural.
pub mod RoundTrip
mod Runs
use mathlib.Core.Option
use corebc_js.Utils.Maths.{BigNumberish}
use corebc_js.Address.{text_eq}
use corebc_js.Utils.Fixed.Formats.{FixedFormat, object, absent, present}
use corebc_js.Utils.Fixed.Convert.{from_value, from_string}
use corebc_js.Common.{
  ℕ, suc, ◌*◌, Bool, false, ◌||◌, Option, none, some, List, [], ◌∷◌, ◌++◌, map, codes, Text, ◌==◌,
  if◌then◌else◌, take, Result, ◌>>=◌, ◌>>◌, ok, err, invalid_argument,
}
use corebc_js.Common.Integers.{ℤ}

abbrev pub unit_names : List Text
unit_names =
    codes "ore"
    ∷ codes "fecore"
    ∷ codes "picore"
    ∷ codes "nacore"
    ∷ codes "mcore"
    ∷ codes "micore"
    ∷ codes "core"
    ∷ []

-- `indexOf`, which is -1 for a text that is not there.
unfoldable pub index_of : Text → List Text → Option ℕ
index_of s [] = none
index_of s (t ∷ ts) =
    let rest = Option.map suc (index_of s ts) in if text_eq s t then some 0 else rest

-- The argument `unit`: absent, a text, or a number of decimals.
pub data Measure : Type 0 where
  no_unit : Measure
  named : Text → Measure
  exponent : ℕ → Measure

abbrev pub thrice : Option ℕ → Result ℕ
thrice none = err invalid_argument
thrice (some index) = ok (3 * index)

unfoldable pub unit_decimals : Measure → Result ℕ
unfolding index_of
unit_decimals no_unit = ok 18
unit_decimals (named s) = thrice (index_of s unit_names)
unit_decimals (exponent n) = ok n

-- `{ decimals }`
abbrev pub decimals_only : ℕ → FixedFormat
decimals_only n = object absent absent (present n)

unfoldable pub format_units : BigNumberish → Measure → Result Text
format_units value unit = do
  decimals ← unit_decimals unit
  fixed ← from_value value (some decimals) (decimals_only decimals)
  ok (fixed.text)

-- The parts of `split(".")` before the first point and behind it.
unfoldable pub before_point : Text → Text
before_point [] = []
before_point (c ∷ s) = let rest = before_point s in if c == b'.' then [] else c ∷ rest

unfoldable pub behind_point : Text → Option Text
unfolding before_point
behind_point [] = none
behind_point (c ∷ s) =
    let rest = behind_point s in if c == b'.' then some (before_point s) else rest

abbrev pub joined_parts : Text → Option Text → ℕ → Text → Text
joined_parts whole none decimals n = n
joined_parts whole (some fraction) decimals n = whole ++ (b'.' ∷ take decimals fraction)

unfoldable pub trim_decimals : Text → ℕ → Text
unfolding before_point behind_point
trim_decimals n decimals = joined_parts (before_point n) (behind_point n) decimals n

abbrev pub trim_for : Measure → Text → ℕ → Text
trim_for no_unit value decimals = value
trim_for (named s) value decimals = trim_decimals value decimals
trim_for (exponent n) value decimals = trim_decimals value decimals

-- `value.includes("e")`
unfoldable pub has_e : Text → Bool
has_e [] = false
has_e (c ∷ s) = let rest = has_e s in c == b'e' || rest

unfoldable pub parse_units : (Text → Text) → Text → Measure → Result ℤ
unfolding has_e trim_decimals
parse_units scientific value unit = do
  decimals ← unit_decimals unit
  fixed ←
      from_string (trim_for unit (if has_e value then scientific value else value) decimals)
        (decimals_only decimals)
  ok (fixed.value)

unfoldable pub format_xcb : BigNumberish → Result Text
unfolding format_units
format_xcb ore = format_units ore (exponent 18)

unfoldable pub parse_xcb : (Text → Text) → Text → Result ℤ
unfolding parse_units
parse_xcb scientific xcb = parse_units scientific xcb (exponent 18)
