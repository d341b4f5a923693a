-- ===== src/Crypto/Signature/Networks.antt =====
-- The EIP-155 `v` of src.ts/crypto/signature.ts: `getnetworkId`, `getnetworkIdV`, `getNormalizedV`.
use corebc_js.Crypto.Signature.{
  V, v27, v28, get_network_id, get_network_id_v, get_normalized_v, network_of, normal_of,
}
use corebc_js.Utils.Maths.{bigint, get_big_int}
use corebc_js.Common.Integers.{ℤ, pos}
use corebc_js.Common.{ℕ, ◌+◌, ◌*◌, arith, ◌≡◌, refl, ok}

network_odd : (n : ℕ) → network_of (pos (n * 2 + 35)) ≡ ok (pos n)
unfolding network_of
network_odd n = ground arith

network_even : (n : ℕ) → network_of (pos (n * 2 + 36)) ≡ ok (pos n)
unfolding network_of
network_even n = ground arith

normal_odd : (n : ℕ) → normal_of (pos (n * 2 + 35)) ≡ ok v27
unfolding normal_of
normal_odd n = ground arith

normal_even : (n : ℕ) → normal_of (pos (n * 2 + 36)) ≡ ok v28
unfolding normal_of
normal_even n = ground arith

-- The EIP-155 `v` that `getnetworkIdV` makes of a network id that is not negative and of a `v`
-- holds both: `getnetworkId` reads the id back, and `getNormalizedV` the `v`.
pub get_network_id-get_network_id_v :
    (n : ℕ) (w : V)
    → (z : ℤ) × (get_network_id_v (bigint (pos n)) w ≡ ok z)
      × (get_network_id (bigint z) ≡ ok (pos n))
      × (get_normalized_v (bigint z) ≡ ok w)
unfolding get_network_id get_network_id_v get_normalized_v get_big_int
get_network_id-get_network_id_v n v27 = (pos (n * 2 + 35), refl, network_odd n, normal_odd n)
get_network_id-get_network_id_v n v28 = (pos (n * 2 + 36), refl, network_even n, normal_even n)
