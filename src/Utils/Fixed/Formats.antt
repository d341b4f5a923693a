-- ===== src/Utils/Fixed/Formats.antt =====
-- The formats of src.ts/utils/fixednumber.ts, and its powers of ten.
-- A number that a caller gives (decimals, a width) is natural, and `parseInt` of a width is exact.
use mathlib.Core.Option
use corebc_js.Common.Radix.{of_digits}
use corebc_js.Utils.Data.{hex_value}
use corebc_js.Utils.Maths.{is_digit}
use corebc_js.Address.{to_decimal, text_eq}
use corebc_js.Common.{
  ℕ, zero, suc, ◌%◌, Bool, true, false, ◌&&◌, Option, none, some, [], ◌∷◌, ◌++◌, codes, Text, ltb,
  leb, ◌==◌, if◌then◌else◌, length, take, drop, replicate, all, Result, ◌>>=◌, ◌>>◌, assert, ok,
  err, invalid_argument,
}

abbrev pub zeros : Text
zeros = replicate 128 b'0'

-- `while (result.length < decimals) result += result`
unfoldable pub grow_zeros : ℕ → ℕ → Text → Text
grow_zeros zero decimals result = result
grow_zeros (suc fuel) decimals result = elim (ltb (length result) decimals) [
  | true ↦ grow_zeros fuel decimals (result ++ result)
  | false ↦ result
]

-- `BigInt("1" + ...)` of a text of digits is the number that they spell.
unfoldable pub get_tens : ℕ → ℕ
unfolding grow_zeros
get_tens decimals =
    of_digits 10 hex_value 0 (b'1' ∷ take decimals (grow_zeros decimals decimals zeros))

-- A property of the object form: absent or null, of the type asked for, or of another type.
pub data Property (A : Type 0) : Type 0 where
  absent : Property A
  present : A → Property A
  mistyped : Property A

pub data FixedFormat : Type 0 where
  undefined : FixedFormat
  places : ℕ → FixedFormat
  string : Text → FixedFormat
  object : Property Bool → Property ℕ → Property ℕ → FixedFormat

pub record Format : Type 0 where
  pub signed : Bool
  pub width : ℕ
  pub decimals : ℕ
  pub name : Text

unfoldable pub check : {A : Type 0} → Property A → A → Result A
check absent default_value = ok default_value
check (present value) default_value = ok value
check mistyped default_value = err invalid_argument

-- The digits at the start of a text, and what follows them.
unfoldable pub lead_digits : Text → Text
lead_digits [] = []
lead_digits (c ∷ s) = let rest = lead_digits s in if is_digit c then c ∷ rest else []

unfoldable pub after_digits : Text → Text
after_digits [] = []
after_digits (c ∷ s) = let rest = after_digits s in if is_digit c then rest else c ∷ s

-- `parseInt` of digits.
abbrev pub spelled : Text → ℕ
spelled = of_digits 10 hex_value 0

-- `([0-9]+)x([0-9]+)$`
unfoldable pub match_sizes : Text → Text → Option (ℕ × ℕ)
match_sizes (d ∷ front) (x ∷ e ∷ back) =
    if x == b'x' && all is_digit (e ∷ back)
    then some (spelled (d ∷ front), spelled (e ∷ back))
    else none
match_sizes _ _ = none

-- `/^(u?)fixed([0-9]+)x([0-9]+)$/`, as the signedness, the width and the decimals.
unfoldable pub match_format : Text → Option (Bool × ℕ × ℕ)
unfolding match_sizes lead_digits after_digits
match_format s =
    if text_eq (take 5 s) (codes "fixed")
    then Option.map (λ (w, d). (true, w, d)) (sizes_behind 5)
    else if text_eq (take 6 s) (codes "ufixed")
    then Option.map (λ (w, d). (false, w, d)) (sizes_behind 6)
    else none
  where
    sizes_behind : ℕ → Option (ℕ × ℕ)
    sizes_behind n = match_sizes (lead_digits (drop n s)) (after_digits (drop n s))

unfoldable pub format_name : Bool → ℕ → ℕ → Text
format_name signed width decimals =
    (if signed then [] else codes "u")
    ++ (codes "fixed" ++ (to_decimal width ++ (codes "x" ++ to_decimal decimals)))

unfoldable pub make_format : Bool → ℕ → ℕ → Result Format
unfolding format_name
make_format signed width decimals = do
  assert (width % 8 == 0) invalid_argument
  assert (leb decimals 80) invalid_argument
  ok (record {
    signed = signed;
    width = width;
    decimals = decimals;
    name = format_name signed width decimals;
  })

unfoldable pub matched_format : Option (Bool × ℕ × ℕ) → Result Format
unfolding make_format
matched_format none = err invalid_argument
matched_format (some (signed, width, decimals)) = make_format signed width decimals

unfoldable pub text_format : Text → Result Format
unfolding matched_format match_format
text_format s =
    if text_eq s (codes "fixed")
    then make_format true 128 18
    else if text_eq s (codes "ufixed")
    then make_format false 128 18
    else matched_format (match_format s)

unfoldable pub get_format : FixedFormat → Result Format
unfolding text_format check
get_format undefined = make_format true 128 18
get_format (places n) = text_format (codes "fixed128x" ++ to_decimal n)
get_format (string s) = text_format s
get_format (object signed width decimals) = do
  s ← check signed true
  w ← check width 128
  d ← check decimals 18
  make_format s w d
