-- ===== src/Utils/Rlp/Runs.antt =====
-- Runs of src.ts/utils/rlp-encode.ts and rlp-decode.ts, and their theorems at concrete inputs.
use corebc_js.Utils.Data.{is_data_text, hexlify_bytes, hex_char, get_bytes}
use corebc_js.Utils.Rlp.{
  decode_byte, decode_step, decode, encode_array, encode_data, encode, Structured, leaf, list,
  no_items, item, encode_rlp, decode_rlp,
}
use corebc_js.Utils.Rlp.RoundTrip.{lower}
use corebc_js.Utils.Rlp.Encodes.{is_data, size, rlp_round_trip}
use corebc_js.Utils.Rlp.Total.{Settles, decode_rlp-Settles}
use corebc_js.Common.{arith, ◌≡◌, refl, codes, ◌>>=◌, ok, err, invalid_argument, buffer_overrun}

-- [ "0x", [ "0xC0FE" ], "0x05" ]
abbrev sample : Structured
sample = list (
    item (leaf (codes "0x"))
      (item (list (item (leaf (codes "0xC0FE")) no_items)) (item (leaf (codes "0x05")) no_items)))

sample_text : encode_rlp sample ≡ ok (codes "0xc680c382c0fe05")
unfolding encode_rlp encode get_bytes encode_data encode_array hex_char
sample_text = refl

-- The one byte 5 is also read from an encoding that the encoder never writes.
long_form : decode_rlp (codes "0x8105") ≡ ok (leaf (codes "0x05"))
unfolding decode_rlp get_bytes decode decode_step decode_byte hexlify_bytes
long_form = refl

cut_short : decode_rlp (codes "0xc2") ≡ err buffer_overrun
unfolding decode_rlp get_bytes decode decode_step decode_byte
cut_short = refl

junk : decode_rlp (codes "0x0505") ≡ err invalid_argument
unfolding decode_rlp get_bytes decode decode_step decode_byte
junk = refl

rlp_round_trip_example : (encode_rlp sample >>= decode_rlp) ≡ ok (lower sample)
unfolding is_data size is_data_text
rlp_round_trip_example = rlp_round_trip sample refl (omega arith)

decode_rlp-Settles_example : Settles (λ _. Unit {0}) (decode_rlp (codes "0xf8ff"))
decode_rlp-Settles_example = decode_rlp-Settles (codes "0xf8ff")
