-- ===== src/Crypto/Rlp/Runs.antt =====
-- The theorems on src.ts/crypto/rlp.ts at concrete inputs.
use corebc_js.Utils.Rlp
use corebc_js.Crypto.Rlp.{encode_leaf, encode_object, encode, decode}
use corebc_js.Utils.Data.{is_hex_string}
use corebc_js.Utils.Rlp.{Structured, leaf, list, no_items, item}
use corebc_js.Crypto.Rlp.Agrees.{decode-decode_rlp}
use corebc_js.Common.{◌≡◌, refl, codes, err, invalid_argument}

abbrev pair : Structured
pair = list (item (leaf (codes "0xAb01")) (item (leaf (codes "0x")) no_items))

upper_prefix : encode (leaf (codes "0Xab")) ≡ err invalid_argument
unfolding encode encode_object encode_leaf
upper_prefix = refl

decode-decode_rlp_example : decode (codes "0xc20506") ≡ Rlp.decode_rlp (codes "0xc20506")
unfolding is_hex_string
decode-decode_rlp_example = decode-decode_rlp (codes "0xc20506") refl
