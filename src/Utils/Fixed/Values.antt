-- ===== src/Utils/Fixed/Values.antt =====
-- The check of a value and the text of a value in src.ts/utils/fixednumber.ts.
use corebc_js.Utils.Maths.{bigint, negate, from_twos, mask, half_range}
use corebc_js.Address.{to_decimal}
use corebc_js.Utils.Fixed.Formats.{zeros, Format}
use mathlib.Core.List.{reverse}
use corebc_js.Common.{
  ℕ, zero, suc, ◌+◌, ◌-◌, ◌%◌, ◌^◌, Bool, true, false, not, ◌&&◌, ◌||◌, [], ◌∷◌, ◌++◌, Text, ltb,
  leb, ◌==◌, if◌then◌else◌, length, take, drop, Result, ◌>>=◌, ◌>>◌, assert, ok, numeric_fault,
}
use corebc_js.Common.Integers.{ℤ, pos, negsuc, nat_abs, ◌+ℤ◌, tmod}

-- `val >= -limit && val < limit`
abbrev pub fits_signed : ℕ → ℤ → Bool
fits_signed limit (pos n) = ltb n limit
fits_signed limit (negsuc n) = leb (n + 1) limit

-- `val >= 0 && val < limit`
abbrev pub fits_unsigned : ℕ → ℤ → Bool
fits_unsigned limit (pos n) = ltb n limit
fits_unsigned limit (negsuc n) = false

-- `fromTwos(mask(val, width), width)`
unfoldable pub wrapped : ℕ → ℕ → Result ℤ
wrapped n width = do v ← mask (bigint (pos n)) width; from_twos (bigint (pos v)) width

unfoldable pub signed_value : ℤ → ℕ → Result ℤ
unfolding wrapped
signed_value (pos (suc n)) width = wrapped (suc n) width
signed_value (pos zero) width = do v ← wrapped 0 width; ok (negate v)
signed_value (negsuc n) width = do v ← wrapped (suc n) width; ok (negate v)

-- `& (limit - 1)` of what is not negative is the remainder below the limit, a power of 2.
unfoldable pub unsigned_value : ℤ → ℕ → ℤ
unsigned_value val limit =
    pos (nat_abs (tmod (tmod val (pos limit) +ℤ pos limit) (pos limit)) % limit)

-- `safe` tells whether `safeOp` is given.
unfoldable pub check_by : Bool → ℤ → ℕ → Bool → Result ℤ
unfolding signed_value unsigned_value
check_by true val width safe = do
  assert (not safe || fits_signed (half_range width) val) numeric_fault
  signed_value val width
check_by false val width safe = do
  assert (not safe || fits_unsigned (2 ^ width) val) numeric_fault
  ok (unsigned_value val (2 ^ width))

unfoldable pub check_value : ℤ → Format → Bool → Result ℤ
unfolding check_by
check_value val format safe = check_by format.signed val format.width safe

-- `while (str.length <= decimals) str = Zeros + str`
unfoldable pub pad_front : ℕ → ℕ → Text → Text
pad_front zero decimals str = str
pad_front (suc fuel) decimals str = elim (leb (length str) decimals) [
  | true ↦ pad_front fuel decimals (zeros ++ str)
  | false ↦ str
]

unfoldable pub insert_point : ℕ → Text → Text
insert_point decimals str =
    let index = length str - decimals in take index str ++ (b'.' ∷ drop index str)

-- `while (str[0] === "0" && str[1] !== ".") str = str.substring(1)`
unfoldable pub trim_zeros : Text → Text
trim_zeros [] = []
trim_zeros (c ∷ []) = if c == b'0' then [] else c ∷ []
trim_zeros (c ∷ d ∷ s) =
    let rest = trim_zeros (d ∷ s) in if c == b'0' && not (d == b'.') then rest else c ∷ d ∷ s

-- The same loop at the other end.
unfoldable pub trim_zeros_end : Text → Text
unfolding trim_zeros
trim_zeros_end s = reverse (trim_zeros (reverse s))

unfoldable pub pointed : ℕ → Text → Text
unfolding pad_front insert_point trim_zeros_end
pointed decimals str =
    trim_zeros_end (trim_zeros (insert_point decimals (pad_front (decimals + 1) decimals str)))

unfoldable pub unsigned_text : ℕ → ℕ → Text
unfolding pointed
unsigned_text n decimals = if decimals == 0 then to_decimal n else pointed decimals (to_decimal n)

unfoldable pub to_text : ℤ → ℕ → Text
unfolding unsigned_text
to_text (pos n) decimals = unsigned_text n decimals
to_text (negsuc n) decimals = b'-' ∷ unsigned_text (suc n) decimals
