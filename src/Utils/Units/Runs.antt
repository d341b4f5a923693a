-- ===== src/Utils/Units/Runs.antt =====
-- Runs of src.ts/utils/units.ts, and its theorem at concrete inputs.
use corebc_js.Utils.Maths.{bigint}
use corebc_js.Utils.Units.{exponent, format_units, parse_units, trim_decimals}
use corebc_js.Utils.Units.RoundTrip.{parse_units-format_units}
use corebc_js.Common.{arith, ◌≡◌, refl, codes, Text, ok}
use corebc_js.Common.Integers.{negsuc}

-- Surplus decimals are dropped, and so is what follows a second point.
surplus_dropped : trim_decimals (codes "1.239.7") 2 ≡ codes "1.23"
unfolding trim_decimals
surplus_dropped = refl

parse_units-format_units_example :
    (s : Text) × (format_units (bigint (negsuc 1049)) (exponent 3) ≡ ok s)
    × (parse_units (λ t. t) s (exponent 3) ≡ ok (negsuc 1049))
parse_units-format_units_example =
    parse_units-format_units (λ t. t) (negsuc 1049) 3 (omega arith) (omega arith)
