-- ===== src/Abi/Layout.antt =====
-- The layout of values that the coders of src.ts/abi/coders produce, as one function: the heads of the
-- items, then their tails, with the dynamic types and paddings of the coders. Standard describes what
-- the ABI specifies without these. `Fits` says which values a coder takes and gives back as they are.
use corebc_js.Common.Radix.{of_digits}
use corebc_js.Common.Integers.{ℤ, pos, negsuc}
use corebc_js.Utils.Data.{hexlify_bytes, hex_value, pair_bytes}
use corebc_js.Utils.Data.Hex.{IsBytes}
use corebc_js.Utils.Maths.{be_array}
use corebc_js.Utils.Maths.Twos.{InRange}
use corebc_js.Utils.Utf8.{to_utf8_bytes, units_of}
use corebc_js.Utils.Utf8.Points.{IsScalar}
use corebc_js.Address.{get_address}
use corebc_js.Abi.{
  Coder, Coders, Value, Values, number, address, boolean, fixed_bytes, bytes, string, array, tuple,
  no_coders, coder, int, flag, chars, list, no_values, value, count, is_dynamic, repeat_coder,
  word_size,
}
use corebc_js.Abi.Writer.{pad_right}
use corebc_js.Common.{
  ℕ, ◌+◌, ◌-◌, ◌*◌, ◌^◌, ◌≤◌, ◌<◌, ◌≡◌, Bool, true, false, Option, none, some, List, [], ◌++◌,
  if◌then◌else◌, length, drop, replicate, All, value_or, ok, Text,
}

-- A number as 32 bytes, the most significant first.
unfoldable pub word : ℕ → List ℕ
unfolding be_array
word n = replicate (word_size - length (be_array n)) 0 ++ be_array n

-- The two's complement pattern of 256 bits.
abbrev pub pattern : ℤ → ℕ
pattern (pos n) = n
pattern (negsuc n) = 2 ^ 256 - (n + 1)

abbrev pub flag_number : Bool → ℕ
flag_number true = 1
flag_number false = 0

abbrev pub sized : List ℕ → List ℕ
sized w = word (length w) ++ pad_right w

abbrev pub count_word : Option ℕ → ℕ → List ℕ
count_word none n = word n
count_word (some k) n = []

unfoldable mutual
  unfolding word

  pub layout : Coder → Value → List ℕ
  layout (array c k) (list vs) =
      let cs = repeat_coder (count vs) c in
      count_word k (count vs) ++ (heads (head_space cs vs) cs vs 0 ++ tails cs vs)
  layout (tuple cs) (list vs) = heads (head_space cs vs) cs vs 0 ++ tails cs vs
  layout (number size signed) (int z) = word (pattern z)
  layout address (chars s) = word (of_digits 16 hex_value 0 (drop 2 s))
  layout boolean (flag b) = word (flag_number b)
  layout (fixed_bytes size) (chars s) = pad_right (pair_bytes (drop 2 s))
  layout bytes (chars s) = sized (pair_bytes (drop 2 s))
  layout string (chars s) = sized (value_or [] (to_utf8_bytes s))
  layout c v = []

  -- The bytes of all heads together.
  pub head_space : Coders → Values → ℕ
  head_space (coder c cs) (value v vs) =
      (if is_dynamic c then word_size else length (layout c v)) + head_space cs vs
  head_space cs vs = 0

  -- The heads, where the tails start at `start` and `d` bytes of tails are taken already.
  pub heads : ℕ → Coders → Values → ℕ → List ℕ
  heads start (coder c cs) (value v vs) d =
      (if is_dynamic c then word (start + d) else layout c v)
      ++ heads start cs vs (if is_dynamic c then d + length (layout c v) else d)
  heads start cs vs d = []

  pub tails : Coders → Values → List ℕ
  tails (coder c cs) (value v vs) = (if is_dynamic c then layout c v else []) ++ tails cs vs
  tails cs vs = []

abbrev pub FitsNumber : ℕ → Bool → ℤ → Type 0
FitsNumber size true z = InRange (size * 8) z
FitsNumber size false (pos n) = n < 2 ^ (size * 8)
FitsNumber size false (negsuc n) = ⊥

abbrev pub items_layout : Coders → Values → List ℕ
items_layout cs vs = heads (head_space cs vs) cs vs 0 ++ tails cs vs

-- A count that is read is refused where the elements take less than a word each.
abbrev pub FitsCount : Option ℕ → ℕ → ℕ → Type 0
FitsCount none n space = n * word_size ≤ word_size + space
FitsCount (some k) n space = k ≡ n

mutual
  pub data Fits : Coder → Value → Type 0 where
    fits_number :
        {size : ℕ} {signed : Bool} {z : ℤ}
        → 0 < size
        → size ≤ 32
        → FitsNumber size signed z
        → Fits (number size signed) (int z)
    fits_address :
        {s : Text} (w : List ℕ)
        → IsBytes w
        → length w ≡ 22
        → s ≡ hexlify_bytes w
        → get_address s ≡ ok s
        → Fits address (chars s)
    fits_boolean : {b : Bool} → Fits boolean (flag b)
    fits_fixed :
        {size : ℕ} {s : Text} (w : List ℕ)
        → IsBytes w
        → length w ≡ size
        → size ≤ 32
        → 0 < size
        → s ≡ hexlify_bytes w
        → Fits (fixed_bytes size) (chars s)
    fits_bytes : {s : Text} (w : List ℕ) → IsBytes w → s ≡ hexlify_bytes w → Fits bytes (chars s)
    fits_string :
        {s : Text} (ps : List ℕ) → All IsScalar ps → s ≡ units_of ps → Fits string (chars s)
    fits_array :
        {c : Coder} {k : Option ℕ} {vs : Values}
        → FitsAll (repeat_coder (count vs) c) vs
        → FitsCount k (count vs) (length (items_layout (repeat_coder (count vs) c) vs))
        → Fits (array c k) (list vs)
    fits_tuple : {cs : Coders} {vs : Values} → FitsAll cs vs → Fits (tuple cs) (list vs)

  pub data FitsAll : Coders → Values → Type 0 where
    fits_none : FitsAll no_coders no_values
    fits_item :
        {c : Coder} {cs : Coders} {v : Value} {vs : Values}
        → Fits c v
        → FitsAll cs vs
        → FitsAll (coder c cs) (value v vs)
