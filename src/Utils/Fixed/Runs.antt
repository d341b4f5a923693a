-- ===== src/Utils/Fixed/Runs.antt =====
-- Runs of src.ts/utils/fixednumber.ts, and its theorems at concrete inputs.
use corebc_js.Utils.Maths.{mask, get_uint, from_twos}
use corebc_js.Address.{text_eq, to_decimal, decimal_char}
use corebc_js.Utils.Fixed.Formats.{get_format, string, Format}
use corebc_js.Utils.Fixed.Values.{check_value, check_by, to_text}
use corebc_js.Utils.Fixed.Number.{
  FixedNumber, new_fixed, add, sub, mul, mul_signal, div_signal, eq, lt, gt, lte, gte, floor,
  ceiling, round,
}
use corebc_js.Utils.Fixed.Convert.{from_string}
use corebc_js.Utils.Fixed.Wraps.{Wide, check_by-Wide}
use corebc_js.Utils.Fixed.Bounds.{Congruent}
use corebc_js.Utils.Fixed.Arithmetic.{
  Computes, Signals, Stored, arithmetic-Computes, signal-Signals,
}
use corebc_js.Utils.Fixed.Compare.{IsSame, eq_iff}
use corebc_js.Utils.Fixed.Rounds.{Rounding, Passed, floor-Stored, round-Rounding}
use corebc_js.Utils.Fixed.RoundTrip.{from_string-to_text}
use corebc_js.Common.{◌*◌, ◌/◌, ◌^◌, ◌≡◌, refl, ◌↔◌, true, false, not, some, codes, ok}
use corebc_js.Common.Integers.{ℤ, pos, negsuc, pos_part, neg_part, ◌+ℤ◌, ◌-ℤ◌, ◌*ℤ◌, tdiv}

abbrev byte_format : Format
byte_format = record { signed = true; width = 8; decimals = 1; name = codes "fixed8x1" }

parsed_format : get_format (string (codes "fixed8x1")) ≡ ok byte_format
unfolding get_format text_eq to_decimal
parsed_format = refl

-- -12.7 and 0.1
abbrev low : FixedNumber
low = new_fixed (negsuc 126) byte_format

abbrev tenth : FixedNumber
tenth = new_fixed (pos 1) byte_format

-- -12.8 fits in the format, and comes back as 12.8, which does not.
flipped_least : sub low tenth ≡ ok (new_fixed (pos 128) byte_format)
unfolding sub new_fixed text_eq check_value ◌-ℤ◌ mask get_uint from_twos
flipped_least = refl

arithmetic-Computes_example :
    Computes low tenth (low.value +ℤ tenth.value) (add low tenth)
    × Computes low tenth (low.value -ℤ tenth.value) (sub low tenth)
    × Computes low tenth (tdiv (low.value *ℤ tenth.value) (pos low.tens)) (mul low tenth)
arithmetic-Computes_example = arithmetic-Computes low tenth

signal-Signals_example :
    Signals low tenth (low.value *ℤ tenth.value) (pos low.tens) (mul_signal low tenth)
    × Signals low tenth (low.value *ℤ pos low.tens) tenth.value (div_signal low tenth)
signal-Signals_example = signal-Signals low tenth

check_by-Wide_example :
    (r : ℤ) × (check_by true (negsuc 200) 8 false ≡ ok r)
    × Congruent (2 ^ 8) r (negsuc 200)
    × Wide true 8 r
check_by-Wide_example = check_by-Wide true 8 (negsuc 200)

eq_iff_example :
    ((eq tenth low ≡ true) ↔ IsSame tenth low)
    × (lt tenth low ≡ not (eq tenth low))
    × (gt tenth low ≡ false)
    × (lte tenth low ≡ true)
    × (gte tenth low ≡ eq tenth low)
eq_iff_example = eq_iff tenth low

floor-Stored_example :
    (r : ℤ) × Stored low.format r (floor low)
    × (ceiling low ≡ floor low)
    × (pos_part r ≡ pos_part low.value / low.tens * low.tens)
    × (neg_part r ≡ neg_part low.value / low.tens * low.tens)
floor-Stored_example = floor-Stored low

-- -12.7 is rounded to -12.
round-Rounding_example :
    (r : ℤ) × Rounding (10 ^ 1) (5 * 10 ^ 0) (negsuc 126) r
    × Passed byte_format r (round low (some 0))
unfolding new_fixed
round-Rounding_example = round-Rounding low 0 0 refl

from_string-to_text_example :
    Passed byte_format
      (negsuc 126)
      (from_string (to_text (negsuc 126) 1) (string (codes "fixed8x1")))
from_string-to_text_example =
    from_string-to_text (negsuc 126) byte_format (string (codes "fixed8x1")) parsed_format

run_text : to_text (negsuc 126) 1 ≡ codes "-12.7"
unfolding to_text to_decimal decimal_char
run_text = refl
