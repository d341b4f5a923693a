-- ===== src/Utils/Utf8.antt =====
-- src.ts/utils/utf8.ts: UTF-8. A string is the list of its 16-bit units. A mask of leading bits is
-- written as the quotient that it keeps, `x & 0x3f` as the remainder, and `|` of parts that share no
-- bit as their sum. The normalisation of `toUtf8Bytes` is left to its caller.
pub mod Points
pub mod RoundTrip
pub mod Totality
mod Runs
use corebc_js.Utils.Data.{BytesLike, get_bytes}
use corebc_js.Common.{
  ℕ, zero, suc, ◌+◌, ◌-◌, ◌*◌, ◌/◌, ◌%◌, ◌^◌, Bool, ◌&&◌, Option, none, some, List, [], ◌∷◌, ◌++◌,
  Text, ltb, leb, ◌==◌, if◌then◌else◌, length, get_elem?, get_or, drop, Result, ◌>>=◌, ◌>>◌, assert,
  ok, err, stuck, invalid_argument,
}

pub data Utf8ErrorReason : Type 0 where
  unexpected_continue bad_prefix overrun missing_continue out_of_range utf16_surrogate overlong :
      Utf8ErrorReason

-- An error function gets the reason, the offset, the bytes, the output and the bad code point. It
-- gives the output, which it may push to, and the number of bytes to skip.
abbrev pub Utf8ErrorFunc : Type 0
Utf8ErrorFunc = Utf8ErrorReason → ℕ → List ℕ → List ℕ → Option ℕ → Result (List ℕ × ℕ)

abbrev pub error_func : Utf8ErrorFunc
error_func reason offset v output bad = err invalid_argument

-- `for (let o = offset + 1; o < bytes.length; o++)`, on the bytes from there.
unfoldable pub skip_continue : List ℕ → ℕ
skip_continue [] = 0
skip_continue (b ∷ v) = let rest = skip_continue v in if b / 64 == 2 then suc rest else 0

abbrev pub skipped : Utf8ErrorReason → ℕ → List ℕ → ℕ
skipped unexpected_continue offset v = skip_continue (drop (offset + 1) v)
skipped bad_prefix offset v = skip_continue (drop (offset + 1) v)
skipped overrun offset v = length v - offset - 1
skipped missing_continue offset v = 0
skipped out_of_range offset v = 0
skipped utf16_surrogate offset v = 0
skipped overlong offset v = 0

unfoldable pub ignore_func : Utf8ErrorFunc
unfolding skip_continue
ignore_func reason offset v output bad = ok (output, skipped reason offset v)

unfoldable pub replace_func : Utf8ErrorFunc
unfolding ignore_func
replace_func overlong offset v output none = err invalid_argument
replace_func overlong offset v output (some point) = ok (output ++ point ∷ [], 0)
replace_func reason offset v output bad = ignore_func reason offset v (output ++ 0xfffd ∷ []) bad

-- What the first byte says: a whole character, the number of bytes behind it with the largest code
-- point that needs fewer, or no first byte.
pub data Lead : Type 0 where
  single : Lead
  extra : ℕ → ℕ → Lead
  invalid : Utf8ErrorReason → Lead

unfoldable pub lead_of : ℕ → Lead
lead_of c =
    if c / 128 == 0
    then single
    else if c / 32 == 6
    then extra 1 0x7f
    else if c / 16 == 14
    then extra 2 0x7ff
    else if c / 8 == 30
    then extra 3 0xffff
    else if c / 64 == 2
    then invalid unexpected_continue
    else invalid bad_prefix

-- `for (let j = 0; j < extraLength; j++)`; `none` is the null of a byte that does not continue.
unfoldable pub read_extra : ℕ → List ℕ → ℕ → ℕ → Option ℕ × ℕ
read_extra zero v i res = (some res, i)
read_extra (suc n) v i res =
    let b = get_or v i 0 in
    let rest = read_extra n v (i + 1) (res * 64 + b % 64) in if b / 64 == 2 then rest else (none, i)

module _ (on_error : Utf8ErrorFunc) where
  -- `i += onError(reason, offset, bytes, result, bad)`
  abbrev pub report : Utf8ErrorReason → ℕ → List ℕ → List ℕ → Option ℕ → ℕ → Result (List ℕ × ℕ)
  report reason offset v out bad i = do
    (out', n) ← on_error reason offset v out bad
    ok (out', i + n)

  -- The checks of the code point read; `i` is behind its last byte.
  unfoldable pub check_point : ℕ → ℕ → ℕ → List ℕ → List ℕ → ℕ → Result (List ℕ × ℕ)
  check_point n mask point v out i =
      if ltb 0x10ffff point
      then report out_of_range (i - 1 - n) v out (some point) i
      else if leb 0xd800 point && leb point 0xdfff
      then report utf16_surrogate (i - 1 - n) v out (some point) i
      else if leb point mask
      then report overlong (i - 1 - n) v out (some point) i
      else ok (out ++ point ∷ [], i)

  abbrev pub finish : ℕ → ℕ → List ℕ → List ℕ → Option ℕ × ℕ → Result (List ℕ × ℕ)
  finish n mask v out (none, i) = report missing_continue i v out none i
  finish n mask v out (some point, i) = check_point n mask point v out i

  -- One round of the loop, with `c` at the offset `i - 1`.
  unfoldable pub point_step : Lead → ℕ → List ℕ → List ℕ → ℕ → Result (List ℕ × ℕ)
  unfolding read_extra check_point
  point_step single c v out i = ok (out ++ c ∷ [], i)
  point_step (invalid reason) c v out i = report reason (i - 1) v out none i
  point_step (extra n mask) c v out i =
      if leb (length v) (i - 1 + n)
      then report overrun (i - 1) v out none i
      else finish n mask v out (read_extra n v i (c % 2 ^ (7 - n)))

  -- `while (i < bytes.length)`. Each round moves on, so as many rounds as bytes are enough.
  unfoldable pub points_loop : ℕ → List ℕ → ℕ → List ℕ → Result (List ℕ)
  unfolding lead_of point_step
  points_loop zero v i out = if ltb i (length v) then stuck else ok out
  points_loop (suc f) v i out = elim (get_elem? v i) [
    | none ↦ ok out
    | some c ↦ do (out', i') ← point_step (lead_of c) c v out (i + 1); points_loop f v i' out'
  ]

  unfoldable pub get_utf8_code_points : BytesLike → Result (List ℕ)
  unfolding get_bytes points_loop
  get_utf8_code_points d = do v ← get_bytes d; points_loop (length v) v 0 []

-- The bytes of one unit that is no first half of a pair, and of a pair.
abbrev pub unit_bytes : ℕ → List ℕ
unit_bytes c =
    if ltb c 0x80
    then c ∷ []
    else if ltb c 0x800
    then (0xc0 + c / 64) ∷ (0x80 + c % 64) ∷ []
    else (0xe0 + c / 4096) ∷ (0x80 + c / 64 % 64) ∷ (0x80 + c % 64) ∷ []

abbrev pub pair_point : ℕ → ℕ → ℕ
pair_point c c2 = 0x10000 + c % 1024 * 1024 + c2 % 1024

abbrev pub four_bytes : ℕ → List ℕ
four_bytes p =
    (0xf0 + p / 262144) ∷ (0x80 + p / 4096 % 64) ∷ (0x80 + p / 64 % 64) ∷ (0x80 + p % 64) ∷ []

-- `(c & 0xfc00) == 0xd800` and `(c2 & 0xfc00) === 0xdc00`
abbrev pub is_high : ℕ → Bool
is_high c = c / 1024 == 0x36

abbrev pub is_low : ℕ → Bool
is_low c = c / 1024 == 0x37

-- `toUtf8Bytes`
unfoldable pub to_utf8_bytes : Text → Result (List ℕ)
to_utf8_bytes [] = ok []
to_utf8_bytes (c ∷ []) = if is_high c then err invalid_argument else ok (unit_bytes c)
to_utf8_bytes (c ∷ c2 ∷ s) =
    let single = to_utf8_bytes (c2 ∷ s) >>= λ v. ok (unit_bytes c ++ v) in
    let pair = do
      assert (is_low c2) invalid_argument
      v ← to_utf8_bytes s
      ok (four_bytes (pair_point c c2) ++ v)
    in if is_high c then pair else single

-- `_toUtf8String`
abbrev pub point_units : ℕ → Text
point_units p =
    if leb p 0xffff
    then p ∷ []
    else (0xd800 + (p - 0x10000) / 1024 % 1024) ∷ (0xdc00 + (p - 0x10000) % 1024) ∷ []

unfoldable pub units_of : List ℕ → Text
units_of [] = []
units_of (p ∷ ps) = point_units p ++ units_of ps

unfoldable pub to_utf8_string : Utf8ErrorFunc → BytesLike → Result Text
unfolding get_utf8_code_points units_of
to_utf8_string on_error d = do ps ← get_utf8_code_points on_error d; ok (units_of ps)

unfoldable pub to_utf8_code_points : Text → Result (List ℕ)
unfolding to_utf8_bytes get_utf8_code_points
to_utf8_code_points s = do v ← to_utf8_bytes s; get_utf8_code_points error_func (BytesLike.bytes v)
