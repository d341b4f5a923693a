-- ===== src/Utils/Base58/Runs.antt =====
-- Runs of src.ts/utils/base58.ts, and its theorem at a concrete input.
use corebc_js.Utils.Base58.{encode_base58, decode_base58, decode_loop, get_alpha}
use corebc_js.Utils.Base58.RoundTrip.{decode_base58-encode_base58}
use corebc_js.Utils.Data.{bytes}
use corebc_js.Utils.Rlp.Lengths.{be_value}
use corebc_js.Common.{◌≡◌, refl, [], ◌∷◌, codes, ◌>>=◌, ok, err, invalid_argument, arith}

-- The letter l is not in the alphabet.
bad_letter : decode_base58 (codes "2l") ≡ err invalid_argument
unfolding decode_base58 decode_loop get_alpha
bad_letter = refl

decode_base58-encode_base58_example :
    (encode_base58 (bytes (0 ∷ 1 ∷ 2 ∷ [])) >>= decode_base58) ≡ ok (be_value (0 ∷ 1 ∷ 2 ∷ []))
decode_base58-encode_base58_example = decode_base58-encode_base58 (0 ∷ 1 ∷ 2 ∷ []) (omega arith)
