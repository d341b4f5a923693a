-- ===== src/Abi/Defaults.antt =====
-- The `defaultValue` methods of src.ts/abi/coders; the names that a tuple of values also has are left out.
use corebc_js.Utils.Data.{hexlify_bytes, byte_digits, hex_char}
use corebc_js.Utils.Maths.{max_value}
use corebc_js.Utils.Maths.Twos.{InRange, range_positive}
use corebc_js.Abi.Encode.{encode_types}
use corebc_js.Abi.Decode.{decode_types}
use corebc_js.Abi.Refines.{decode_types-encode_types}
use corebc_js.Utils.Data.Hex.{IsByte}
use corebc_js.Utils.Utf8.{units_of}
use corebc_js.Common.Integers.{pos}
use corebc_js.Abi.{
  Coder, Coders, Value, Values, number, address, boolean, fixed_bytes, bytes, string, null, array,
  tuple, no_coders, coder, int, flag, chars, list, nothing, no_values, value, count, repeat_coder,
}
use corebc_js.Abi.Layout.{
  layout, FitsNumber, Fits, fits_number, fits_boolean, fits_fixed, fits_bytes, fits_string,
  fits_array, fits_tuple, FitsAll, fits_none, fits_item,
}
use corebc_js.Common.{
  ℕ, zero, suc, ◌+◌, ◌-◌, ◌*◌, ◌≤◌, ◌<◌, arith, ◌≡◌, refl, sym, ◌∙◌, ap, Bool, true, false, Option,
  none, some, List, [], ◌∷◌, length, take, replicate, length-replicate, All-replicate, ok,
}
use mathlib.Core.Path.{subst}

-- `result.push(defaultChild)`, n times.
abbrev pub repeat_value : ℕ → Value → Values
repeat_value zero v = no_values
repeat_value (suc n) v = value v (repeat_value n v)

unfoldable mutual
  pub default_value : Coder → Value
  default_value (number size signed) = int (pos 0)
  default_value address = chars (b'0' ∷ b'x' ∷ replicate 40 b'0')
  default_value boolean = flag false
  default_value (fixed_bytes size) = chars (take (2 + size * 2) (b'0' ∷ b'x' ∷ replicate 64 b'0'))
  default_value bytes = chars (b'0' ∷ b'x' ∷ [])
  default_value string = chars []
  default_value null = nothing
  default_value (array c none) = list no_values
  default_value (array c (some n)) = list (repeat_value n (default_value c))
  default_value (tuple cs) = list (default_values cs)

  pub default_values : Coders → Values
  default_values no_coders = no_values
  default_values (coder c cs) = value (default_value c) (default_values cs)

-- Types of a valid size, with no address and no null in them.
mutual
  pub data Plain : Coder → Type 0 where
    plain_number : {size : ℕ} {signed : Bool} → 0 < size → size ≤ 32 → Plain (number size signed)
    plain_boolean : Plain boolean
    plain_fixed : {size : ℕ} → 0 < size → size ≤ 32 → Plain (fixed_bytes size)
    plain_bytes : Plain bytes
    plain_string : Plain string
    plain_array : {c : Coder} {k : Option ℕ} → Plain c → Plain (array c k)
    plain_tuple : {cs : Coders} → AllPlain cs → Plain (tuple cs)

  pub data AllPlain : Coders → Type 0 where
    plain_none : AllPlain no_coders
    plain_item : {c : Coder} {cs : Coders} → Plain c → AllPlain cs → AllPlain (coder c cs)

number-Fits : (size : ℕ) (signed : Bool) → 0 < size → FitsNumber size signed (pos 0)
number-Fits size true h =
    let w = size * 8 - 1 in
    let width : suc w ≡ size * 8 = omega arith in
    subst (λ b. InRange b (pos 0)) width (range_positive w)
number-Fits size false h = range_positive (size * 8)

take-replicate : (n m : ℕ) (c : ℕ) → n ≤ m → take n (replicate m c) ≡ replicate n c
take-replicate zero m c h = refl
take-replicate (suc n) zero c h = absurd (omega arith)
take-replicate (suc n) (suc m) c h = ap (λ s. c ∷ s) (take-replicate n m c (omega arith))

byte_digits-replicate : (n : ℕ) → byte_digits (replicate n 0) ≡ replicate (n * 2) b'0'
unfolding byte_digits hex_char
byte_digits-replicate zero = refl
byte_digits-replicate (suc n) =
    let twice : suc (suc (n * 2)) ≡ suc n * 2 = omega arith in
    ap (λ s. b'0' ∷ b'0' ∷ s) (byte_digits-replicate n) ∙ ap (λ k. replicate k b'0') twice

zero_bytes :
    (size : ℕ)
    → size ≤ 32
    → take (2 + size * 2) (b'0' ∷ b'x' ∷ replicate 64 b'0') ≡ hexlify_bytes (replicate size 0)
unfolding hexlify_bytes
zero_bytes size h =
    let two : 2 + size * 2 ≡ suc (suc (size * 2)) = omega arith in
    ap (λ k. take k (b'0' ∷ b'x' ∷ replicate 64 b'0')) two
    ∙ ap (λ s. b'0' ∷ b'x' ∷ s)
        (take-replicate (size * 2) 64 b'0' (omega arith) ∙ sym (byte_digits-replicate size))

repeated :
    (n : ℕ) (c : Coder) (v : Value)
    → Fits c v
    → (count (repeat_value n v) ≡ n) × FitsAll (repeat_coder n c) (repeat_value n v)
repeated zero c v h = (refl, fits_none)
repeated (suc n) c v h = let (same, fits) = repeated n c v h in (ap suc same, fits_item h fits)

array-Fits :
    (c : Coder) (k : Option ℕ)
    → Fits c (default_value c)
    → Fits (array c k) (default_value (array c k))
unfolding default_value
array-Fits c none h = fits_array fits_none (omega arith)
array-Fits c (some n) h =
    let (same, fits) = repeated n c (default_value c) h in
    fits_array
      (subst (λ m. FitsAll (repeat_coder m c) (repeat_value n (default_value c))) (sym same) fits)
      (sym same)

mutual
  unfolding default_value hexlify_bytes units_of

  Plain-Fits : {c : Coder} → Plain c → Fits c (default_value c)
  Plain-Fits (plain_number lo hi) = fits_number lo hi (number-Fits _ _ lo)
  Plain-Fits plain_boolean = fits_boolean
  Plain-Fits (plain_fixed lo hi) =
      fits_fixed (replicate _ 0) (All-replicate IsByte _ 0 (omega arith)) (length-replicate _ 0) hi
        lo (zero_bytes _ hi)
  Plain-Fits plain_bytes = fits_bytes [] tt refl
  Plain-Fits plain_string = fits_string [] tt refl
  Plain-Fits (plain_array h) = array-Fits _ _ (Plain-Fits h)
  Plain-Fits (plain_tuple h) = fits_tuple (AllPlain-FitsAll h)

  AllPlain-FitsAll : {cs : Coders} → AllPlain cs → FitsAll cs (default_values cs)
  AllPlain-FitsAll plain_none = fits_none
  AllPlain-FitsAll (plain_item h hs) = fits_item (Plain-Fits h) (AllPlain-FitsAll hs)

-- The default values of types of a valid size, with no address and no null in them, are encoded and given
-- back, if the length of their layout is a safe integer.
pub decode_types-default_values :
    (cs : Coders) (loose : Bool)
    → AllPlain cs
    → length (layout (tuple cs) (list (default_values cs))) ≤ max_value
    → (v : List ℕ) × (encode_types cs (default_values cs) ≡ ok v)
      × (decode_types cs v loose ≡ ok (default_values cs))
decode_types-default_values cs loose h small =
    decode_types-encode_types cs (default_values cs) loose (AllPlain-FitsAll h) small
