-- ===== src/Utils/Utf8/Runs.antt =====
-- Runs of src.ts/utils/utf8.ts, and its theorems at concrete inputs.
use corebc_js.Utils.Data.{bytes}
use corebc_js.Utils.Utf8.{
  to_utf8_bytes, to_utf8_string, get_utf8_code_points, points_loop, units_of, error_func,
  ignore_func, replace_func,
}
use corebc_js.Utils.Utf8.RoundTrip.{to_utf8_string-to_utf8_bytes}
use corebc_js.Utils.Utf8.Totality.{get_utf8_code_points-ne-stuck}
use corebc_js.Common.{
  ℕ, arith, ◌≡◌, refl, ◌≢◌, inl, inr, List, [], ◌∷◌, codes, ◌>>=◌, ok, err, stuck, invalid_argument,
}

-- A second half of a pair with no first half is written, as three bytes that no decoder takes.
lone_half :
    (to_utf8_bytes (0xdc00 ∷ []) >>= λ v. to_utf8_string error_func (bytes v))
    ≡ err invalid_argument
unfolding to_utf8_bytes to_utf8_string points_loop
lone_half = refl

lone_first : to_utf8_bytes (0xd800 ∷ b'a' ∷ []) ≡ err invalid_argument
unfolding to_utf8_bytes
lone_first = refl

-- An overlong slash, replaced.
overlong_slash : to_utf8_string replace_func (bytes (0xc0 ∷ 0xaf ∷ b'!' ∷ [])) ≡ ok (codes "/!")
unfolding to_utf8_string replace_func
overlong_slash = refl

stray : get_utf8_code_points ignore_func (bytes (b'a' ∷ 0x80 ∷ 0x81 ∷ b'b' ∷ [])) ≡ ok (codes "ab")
unfolding get_utf8_code_points ignore_func
stray = refl

to_utf8_string-to_utf8_bytes_example :
    (v : List ℕ) × (to_utf8_bytes (units_of (b'a' ∷ 0xe9 ∷ 0x20ac ∷ 0x1f600 ∷ [])) ≡ ok v)
    × (get_utf8_code_points error_func (bytes v) ≡ ok (b'a' ∷ 0xe9 ∷ 0x20ac ∷ 0x1f600 ∷ []))
    × (to_utf8_string error_func (bytes v) ≡ ok (units_of (b'a' ∷ 0xe9 ∷ 0x20ac ∷ 0x1f600 ∷ [])))
to_utf8_string-to_utf8_bytes_example =
    to_utf8_string-to_utf8_bytes error_func (b'a' ∷ 0xe9 ∷ 0x20ac ∷ 0x1f600 ∷ []) (
      (omega arith, inl (omega arith)),
      (
        (omega arith, inl (omega arith)),
        ((omega arith, inl (omega arith)), ((omega arith, inr (omega arith)), tt)),
      ),
    )

get_utf8_code_points-ne-stuck_example :
    get_utf8_code_points ignore_func (bytes (0xf0 ∷ 0x80 ∷ [])) ≢ stuck
unfolding ignore_func
get_utf8_code_points-ne-stuck_example =
    get_utf8_code_points-ne-stuck ignore_func (λ reason offset v out bad h. cc)
      (bytes (0xf0 ∷ 0x80 ∷ []))
