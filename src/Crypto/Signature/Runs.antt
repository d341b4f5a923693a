-- ===== src/Crypto/Signature/Runs.antt =====
-- Runs of src.ts/crypto/signature.ts, and its theorems at concrete inputs.
use corebc_js.Crypto.Signature.{
  Signature, v28, get_network_id, get_network_id_v, get_normalized_v, normal_of,
}
use corebc_js.Crypto.Signature.Networks.{get_network_id-get_network_id_v}
use corebc_js.Utils.Maths.{bigint, get_big_int}
use corebc_js.Utils.Data.{hexlify_bytes}
use corebc_js.Common.{◌≡◌, refl, none, ◌∷◌, replicate, ok, err, invalid_argument}
use corebc_js.Common.Integers.{ℤ, pos}

unknown_v : get_normalized_v (bigint (pos 5)) ≡ err invalid_argument
unfolding get_normalized_v normal_of get_big_int
unknown_v = refl

get_network_id-get_network_id_v_example :
    (z : ℤ) × (get_network_id_v (bigint (pos 5)) v28 ≡ ok z)
    × (get_network_id (bigint z) ≡ ok (pos 5))
    × (get_normalized_v (bigint z) ≡ ok v28)
get_network_id-get_network_id_v_example = get_network_id-get_network_id_v 5 v28

abbrev sample : Signature
sample = record {
  r = hexlify_bytes (replicate 32 7);
  s = hexlify_bytes (0x12 ∷ replicate 31 9);
  v = v28;
  network_v = none;
}
