-- ===== src/Utils/Maths/Runs.antt =====
-- Runs of src.ts/utils/maths.ts, and its theorems at concrete inputs.
use corebc_js.Utils.Maths.{
  from_twos, to_twos, get_uint, get_big_int, to_be_array, bytes_to_bigint, text, bigint,
  to_quantity,
}
use corebc_js.Utils.Maths.Twos.{InRange, from_twos-to_twos}
use corebc_js.Utils.Maths.BigEndian.{to_be_array_lem}
use corebc_js.Utils.Data.{hexlify_bytes, pair_bytes, to_string_16}
use corebc_js.Utils.Data.Hex.{IsBytes}
use corebc_js.Utils.Data.Slices.{drop_zeros}
use corebc_js.Common.{ℕ, ◌^◌, ◌<◌, ◌≡◌, refl, List, codes, ok, err, invalid_argument, numeric_fault}
use corebc_js.Common.Integers.{pos, negsuc}

-- A minus sign alone is read as 0.
lone_minus : get_big_int (text (codes "-")) ≡ ok (pos 0)
unfolding get_big_int
lone_minus = refl

two_minus : get_big_int (text (codes "--5")) ≡ err invalid_argument
unfolding get_big_int
two_minus = refl

hex_text : get_uint (text (codes " 0xC0fe ")) ≡ ok 0xc0fe
unfolding get_uint
hex_text = refl

quantity : to_quantity (bigint (pos 0x0102)) ≡ ok (codes "0x102")
unfolding to_quantity to_be_array get_uint hexlify_bytes pair_bytes to_string_16
quantity = refl

from_twos-to_twos_example :
    (InRange 8 (negsuc 99)
      → ((v : ℕ) × (to_twos (bigint (negsuc 99)) 8 ≡ ok v)
          × (v < 2 ^ 8)
          × (from_twos (bigint (pos v)) 8 ≡ ok (negsuc 99))))
    × (¬ InRange 8 (negsuc 99) → to_twos (bigint (negsuc 99)) 8 ≡ err numeric_fault)
from_twos-to_twos_example = from_twos-to_twos 7 (negsuc 99)

to_be_array_lem_example :
    (v : List ℕ) × (to_be_array (bigint (pos 0x0102)) ≡ ok v)
    × IsBytes v
    × (drop_zeros v ≡ v)
    × (bytes_to_bigint v ≡ ok (pos 0x0102))
to_be_array_lem_example = to_be_array_lem 0x0102
