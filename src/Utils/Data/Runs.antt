-- ===== src/Utils/Data/Runs.antt =====
-- Runs of src.ts/utils/data.ts, and its theorems at concrete inputs.
use corebc_js.Utils.Data.{
  hex_char, text, string, number, no_options, get_bytes, hexlify_bytes, hexlify, whole_bytes,
  is_hex_string, lower_case,
}
use corebc_js.Utils.Data.Hex.{get_bytes-hexlify_bytes, hexlify_bytes-get_bytes}
use corebc_js.Utils.Data.Slices.{strip_zeros_left, hex_data_slice}
use corebc_js.Common.{
  ℕ, arith, ◌≡◌, refl, true, some, List, [], ◌∷◌, codes, Text, ok, err, invalid_argument,
}
use corebc_js.Common.Integers.{pos}

abbrev byte_of : Text → ℕ
byte_of s = 7

abbrev three : List ℕ
three = 0 ∷ 0x0a ∷ 0xff ∷ []

upper_prefix : get_bytes (text (codes "0XAB")) ≡ ok (0xab ∷ [])
unfolding get_bytes
upper_prefix = refl

odd_text : get_bytes (text (codes "0x123")) ≡ err invalid_argument
unfolding get_bytes
odd_text = refl

number_text : hexlify byte_of no_options (number (pos 1000)) ≡ ok (codes "0x03e8")
unfolding hexlify
number_text = refl

comma_text : hexlify byte_of no_options (string (codes "0x1,2")) ≡ ok (codes "0x0707")
unfolding hexlify hex_char
comma_text = refl

stripped : strip_zeros_left byte_of (text (codes "0x0000a0")) ≡ ok (codes "0xa0")
unfolding strip_zeros_left
stripped = refl

swapped_bounds : hex_data_slice byte_of (text (codes "0x00112233")) 3 (some 1) ≡ ok (codes "0x1122")
unfolding hex_data_slice
swapped_bounds = refl

get_bytes-hexlify_bytes_example : get_bytes (text (hexlify_bytes three)) ≡ ok three
get_bytes-hexlify_bytes_example = get_bytes-hexlify_bytes three (omega arith)

hexlify_bytes-get_bytes_example : hexlify_bytes (0xab ∷ []) ≡ lower_case (codes "0XAB")
hexlify_bytes-get_bytes_example = hexlify_bytes-get_bytes (codes "0XAB") upper_prefix

whole_text : is_hex_string (codes "0x0aFF") whole_bytes ≡ true
unfolding is_hex_string
whole_text = refl
