-- ===== src/Utils/Base58.antt =====
-- src.ts/utils/base58.ts: numbers in base 58.
pub mod RoundTrip
mod Runs
use corebc_js.Common.Radix.{digits}
use corebc_js.Utils.Data.{BytesLike, get_bytes}
use corebc_js.Utils.Maths.{bytes_to_bigint}
use corebc_js.Common.Integers.{ℤ, pos, negsuc}
use corebc_js.Common.{
  ℕ, ◌+◌, ◌*◌, arith, Option, none, some, [], ◌∷◌, codes, Text, ◌==◌, if◌then◌else◌, get_or, Result,
  ◌>>=◌, ◌>>◌, ok, err, stuck, invalid_argument,
}

abbrev pub alphabet : Text
alphabet = codes "123456789ABCDEFGHJKLMNPQRSTUVWXYZabcdefghijkmnopqrstuvwxyz"

-- `Lookup[Alphabet[i]] = BigInt(i)`
unfoldable pub index_of : ℕ → Text → ℕ → Option ℕ
index_of c [] i = none
index_of c (a ∷ s) i = let rest = index_of c s (i + 1) in if a == c then some i else rest

unfoldable pub get_alpha : ℕ → Result ℕ
unfolding index_of
get_alpha c = elim (index_of c alphabet 0) [ none ↦ err invalid_argument | some i ↦ ok i ]

unfoldable pub alpha_char : ℕ → ℕ
alpha_char d = get_or alphabet d 0

-- `while (value) { result = Alphabet[value % 58] + result; value /= 58; }`
unfoldable pub number_to_base58 : ℕ → Text
unfolding digits alpha_char
number_to_base58 n = digits 58 (omega arith) alpha_char n []

-- The number of a byte array is never negative.
unfoldable pub integer_to_base58 : ℤ → Result Text
unfolding number_to_base58
integer_to_base58 (pos n) = ok (number_to_base58 n)
integer_to_base58 (negsuc n) = stuck

unfoldable pub encode_base58 : BytesLike → Result Text
unfolding get_bytes bytes_to_bigint integer_to_base58
encode_base58 value = do v ← get_bytes value; z ← bytes_to_bigint v; integer_to_base58 z

unfoldable pub decode_loop : ℕ → Text → Result ℕ
unfolding get_alpha
decode_loop result [] = ok result
decode_loop result (c ∷ s) = get_alpha c >>= λ d. decode_loop (result * 58 + d) s

unfoldable pub decode_base58 : Text → Result ℕ
unfolding decode_loop
decode_base58 s = decode_loop 0 s
