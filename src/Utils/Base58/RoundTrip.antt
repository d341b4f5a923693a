-- ===== src/Utils/Base58/RoundTrip.antt =====
-- Writing and reading back in src.ts/utils/base58.ts.
use corebc_js.Common.Bits.{all_below, all_below_sound, eq_below}
use corebc_js.Common.Radix.{of_digits, of_digits-digits, digits-All}
use corebc_js.Utils.Base58.{
  get_alpha, alpha_char, number_to_base58, integer_to_base58, encode_base58, decode_loop,
  decode_base58,
}
use corebc_js.Utils.Data.{bytes, get_bytes}
use corebc_js.Utils.Data.Hex.{IsBytes}
use corebc_js.Utils.Rlp.Lengths.{be_value}
use corebc_js.Utils.Maths.BigEndian.{bytes_to_bigint_lem}
use corebc_js.Common.{
  ℕ, ◌+◌, ◌*◌, ◌<◌, ◌≡◌, refl, ◌∙◌, ap, Bool, true, false, List, [], ◌∷◌, Text, All, Result, ◌>>=◌,
  value_or, ok, err, stuck,
}

alpha_value : ℕ → ℕ
alpha_value c = value_or 0 (get_alpha c)

abbrev is_ok : Result ℕ → Bool
is_ok (ok n) = true
is_ok (err e) = false
is_ok stuck = false

is_ok_value : (m : Result ℕ) → is_ok m ≡ true → m ≡ ok (value_or 0 m)
is_ok_value (ok n) h = refl
is_ok_value (err e) h = cc
is_ok_value stuck h = cc

alpha_value-alpha_char : (d : ℕ) → d < 58 → alpha_value (alpha_char d) ≡ d
unfolding all_below alpha_value alpha_char get_alpha
alpha_value-alpha_char d h = eq_below 58 (λ y. alpha_value (alpha_char y)) (λ y. y) d refl h

get_alpha-alpha_char : (d : ℕ) → d < 58 → get_alpha (alpha_char d) ≡ ok (alpha_value (alpha_char d))
unfolding all_below alpha_value alpha_char get_alpha
get_alpha-alpha_char d h =
    is_ok_value (get_alpha (alpha_char d))
      (all_below_sound 58 (λ y. is_ok (get_alpha (alpha_char y))) d refl h)

decode_loop-of_digits :
    (n : ℕ) (s : Text)
    → All (λ c. get_alpha c ≡ ok (alpha_value c)) s
    → decode_loop n s ≡ ok (of_digits 58 alpha_value n s)
unfolding decode_loop
decode_loop-of_digits n [] h = refl
decode_loop-of_digits n (c ∷ s) (hc, hs) =
    ap (λ m. m >>= λ d. decode_loop (n * 58 + d) s) hc
    ∙ decode_loop-of_digits (n * 58 + alpha_value c) s hs

number_to_base58-All : (n : ℕ) → All (λ c. get_alpha c ≡ ok (alpha_value c)) (number_to_base58 n)
unfolding number_to_base58
number_to_base58-All n =
    digits-All 58 _ alpha_char (λ c. get_alpha c ≡ ok (alpha_value c)) get_alpha-alpha_char n [] tt

number_to_base58-value : (n : ℕ) → of_digits 58 alpha_value 0 (number_to_base58 n) ≡ n
unfolding number_to_base58
number_to_base58-value n = of_digits-digits 58 _ alpha_char alpha_value alpha_value-alpha_char n []

-- The text that `encodeBase58` writes of a byte array is read by `decodeBase58` as the number that
-- the bytes stand for, the first the most significant.
pub decode_base58-encode_base58 :
    (v : List ℕ) → IsBytes v → (encode_base58 (bytes v) >>= decode_base58) ≡ ok (be_value v)
unfolding encode_base58 decode_base58 integer_to_base58 get_bytes
decode_base58-encode_base58 v h =
    ap (λ m. m >>= integer_to_base58 >>= decode_base58) (bytes_to_bigint_lem v h)
    ∙ decode_loop-of_digits 0 (number_to_base58 (be_value v)) (number_to_base58-All (be_value v))
    ∙ ap ok (number_to_base58-value (be_value v))
