-- ===== src/Abi/Standard.antt =====
-- The layout of values that the contract ABI specifies, next to the coders of src.ts/abi/coders: its own
-- list of dynamic types, words, paddings, offsets and UTF-8, with none of the functions of the coders.
-- The octets of a value come from the evidence that its text spells them; an address has 22 of them here.
use corebc_js.Abi.{
  Coder, Coders, Value, Values, number, address, boolean, fixed_bytes, bytes, string, null, array,
  tuple, no_coders, coder, count,
}
use corebc_js.Abi.Layout.{
  pattern, flag_number, Fits, fits_number, fits_address, fits_boolean, fits_fixed, fits_bytes,
  fits_string, fits_array, fits_tuple, FitsAll, fits_none, fits_item,
}
use corebc_js.Common.{
  ℕ, ◌+◌, zero, suc, ◌-◌, ◌/◌, ◌%◌, Bool, true, false, Option, none, some, List, [], ◌∷◌, ◌++◌, ltb,
  if◌then◌else◌, length, replicate,
}

-- The dynamic types: bytes, string, arrays without a length, and what holds a dynamic type.
unfoldable mutual
  pub varies : Coder → Bool
  varies (number size signed) = false
  varies address = false
  varies boolean = false
  varies (fixed_bytes size) = false
  varies bytes = true
  varies string = true
  varies null = false
  varies (array c none) = true
  varies (array c (some k)) = varies c
  varies (tuple cs) = one_varies cs

  pub one_varies : Coders → Bool
  one_varies no_coders = false
  one_varies (coder c cs) = if varies c then true else one_varies cs

-- The lowest k octets of a number, the most significant first.
unfoldable pub big_endian : ℕ → ℕ → List ℕ
big_endian zero n = []
big_endian (suc k) n = big_endian k (n / 256) ++ (n % 256) ∷ []

-- Octets, filled on the right with zeros up to a multiple of 32.
unfoldable pub filled : List ℕ → List ℕ
filled w = w ++ replicate (31 - (length w + 31) % 32) 0

unfoldable pub counted : List ℕ → List ℕ
unfolding big_endian filled
counted w = big_endian 32 (length w) ++ filled w

-- UTF-8, by the ranges of the code points.
unfoldable pub utf8_octets : ℕ → List ℕ
utf8_octets p =
    if ltb p 128
    then p ∷ []
    else if ltb p 2048
    then (192 + p / 64) ∷ (128 + p % 64) ∷ []
    else if ltb p 65536
    then (224 + p / 4096) ∷ (128 + p / 64 % 64) ∷ (128 + p % 64) ∷ []
    else (240 + p / 262144) ∷ (128 + p / 4096 % 64) ∷ (128 + p / 64 % 64) ∷ (128 + p % 64) ∷ []

unfoldable pub utf8 : List ℕ → List ℕ
unfolding utf8_octets
utf8 [] = []
utf8 (p ∷ ps) = utf8_octets p ++ utf8 ps

abbrev pub count_octets : Option ℕ → ℕ → List ℕ
unfolding big_endian
count_octets none n = big_endian 32 n
count_octets (some k) n = []

unfoldable mutual
  unfolding varies big_endian filled counted utf8

  pub standard : {c : Coder} {v : Value} → Fits c v → List ℕ
  standard (fits_number {z = z} lo hi h) = big_endian 32 (pattern z)
  standard (fits_address w h l e g) = replicate 10 0 ++ w
  standard (fits_boolean {b = b}) = big_endian 32 (flag_number b)
  standard (fits_fixed w h l hi lo e) = filled w
  standard (fits_bytes w h e) = counted w
  standard (fits_string ps h e) = counted (utf8 ps)
  standard (fits_array {k = k} {vs = vs} h n) =
      count_octets k (count vs) ++ (head_parts (head_length h) h 0 ++ tail_parts h)
  standard (fits_tuple h) = head_parts (head_length h) h 0 ++ tail_parts h

  -- The length of all heads.
  pub head_length : {cs : Coders} {vs : Values} → FitsAll cs vs → ℕ
  head_length fits_none = 0
  head_length (fits_item {c = c} f h) =
      (if varies c then 32 else length (standard f)) + head_length h

  -- A dynamic item has as its head the distance of its tail from the first head, where the tails start
  -- at `start` and the items before have tails of `d` octets.
  pub head_parts : {cs : Coders} {vs : Values} → ℕ → FitsAll cs vs → ℕ → List ℕ
  head_parts start fits_none d = []
  head_parts start (fits_item {c = c} f h) d =
      (if varies c then big_endian 32 (start + d) else standard f)
      ++ head_parts start h (if varies c then d + length (standard f) else d)

  pub tail_parts : {cs : Coders} {vs : Values} → FitsAll cs vs → List ℕ
  tail_parts fits_none = []
  tail_parts (fits_item {c = c} f h) = (if varies c then standard f else []) ++ tail_parts h
