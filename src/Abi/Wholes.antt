-- ===== src/Abi/Wholes.antt =====
-- The layout of values is a row of whole words of 32 bytes.
use corebc_js.Utils.Data.Hex.{IsByte, IsBytes}
use corebc_js.Utils.Maths.{max_value}
use corebc_js.Common.Integers.{ℤ}
use corebc_js.Abi.{
  Coder, Coders, Value, Values, number, address, boolean, fixed_bytes, bytes, string, array, tuple,
  no_coders, coder, list, no_values, value, count, is_dynamic, repeat_coder, int, flag, chars,
}
use corebc_js.Abi.Writer.{pad_right}
use corebc_js.Abi.Layout.{
  FitsNumber, pattern, layout, word, sized, heads, head_space, tails, items_layout, Fits,
  fits_number, fits_address, fits_boolean, fits_fixed, fits_bytes, fits_string, fits_array,
  fits_tuple, FitsAll, fits_none, fits_item, FitsCount,
}
use corebc_js.Abi.Words.{length-word, word-IsBytes, length-pad_right}
use corebc_js.Abi.Scalars.{number_of-pattern}
use corebc_js.Abi.Addresses.{address_number}
use corebc_js.Abi.Blobs.{bytes_of_text, long_enough}
use corebc_js.Abi.Heads.{head, head_size, tail, head_space-le, word-long, tail_taken}
use corebc_js.Utils.Utf8.{to_utf8_bytes, units_of, unit_bytes}
use corebc_js.Utils.Utf8.Points.{IsScalar, point_bytes, points_bytes}
use corebc_js.Utils.Data.{hexlify_bytes}
use corebc_js.Utils.Utf8.RoundTrip.{to_utf8_bytes-units_of}
use corebc_js.Common.{
  ℕ, ◌+◌, ◌-◌, ◌%◌, ◌^◌, ◌≤◌, ◌<◌, arith, ◌≡◌, refl, inl, inr, List, [], ◌++◌, ◌==◌, if◌then◌else◌,
  Bool-cases, length, replicate, length-append, All-append, All-replicate, sym, ◌∙◌, ap, Bool, true,
  false, Option, none, some, ◌∷◌, Text, ltb, leb, ltb→lt, leb→le, All, value_or,
}
use mathlib.Core.Path.{subst}

pub record Whole (v : List ℕ) : Type 0 where
  pub byte_each : IsBytes v
  pub whole_words : length v % 32 ≡ 0

nil-Whole : Whole []
nil-Whole = record { byte_each = tt; whole_words = refl }

append-Whole : (v w : List ℕ) → Whole v → Whole w → Whole (v ++ w)
append-Whole v w h k = record {
  byte_each = All-append IsByte v w h.byte_each k.byte_each;
  whole_words = omega (arith, length-append v w, h.whole_words, k.whole_words);
}

word-Whole : (n : ℕ) → n < 2 ^ 256 → Whole (word n)
word-Whole n h = record { byte_each = word-IsBytes n; whole_words = omega (arith, length-word n h) }

pad_right-Whole : (w : List ℕ) → IsBytes w → Whole (pad_right w)
pad_right-Whole w h = record {
  byte_each = padded_bytes w h;
  whole_words = omega (arith, length-pad_right w);
}
  where
    padded_bytes : (w : List ℕ) → IsBytes w → IsBytes (pad_right w)
    padded_bytes w h = elim (Bool-cases (length w % 32 == 0)) [
      | inl e ↦ rw e h
      | inr e ↦ rw e (
          All-append IsByte w (replicate (32 - length w % 32) 0) h
            (All-replicate IsByte (32 - length w % 32) 0 (omega arith)))
    ]

sized-Whole : (w : List ℕ) → IsBytes w → length (sized w) ≤ max_value → Whole (sized w)
sized-Whole w h small =
    let both = length-append (word (length w)) (pad_right w) in
    append-Whole (word (length w)) (pad_right w)
      (word-Whole (length w) (omega (arith, long_enough w))) (pad_right-Whole w h)

abbrev IsWhole : Coder → Value → Type 0
IsWhole c v = length (layout c v) ≤ max_value → Whole (layout c v)

abbrev AreWhole : Coders → Values → Type 0
AreWhole cs vs =
    (start d : ℕ)
    → start + d + length (tails cs vs) ≤ max_value
    → head_space cs vs + length (tails cs vs) ≤ max_value
    → Whole (heads start cs vs d) × Whole (tails cs vs)

items-Whole :
    (cs : Coders) (vs : Values)
    → AreWhole cs vs
    → length (items_layout cs vs) ≤ max_value
    → Whole (items_layout cs vs)
items-Whole cs vs h small =
    let start = head_space cs vs in
    let both = length-append (heads start cs vs 0) (tails cs vs) in
    let space = head_space-le start cs vs 0 in
    let (first, second) = h start 0 (omega arith) (omega arith) in
    append-Whole (heads start cs vs 0) (tails cs vs) first second

item-AreWhole :
    (c : Coder) (v : Value) (cs : Coders) (vs : Values)
    → IsWhole c v
    → AreWhole cs vs
    → AreWhole (coder c cs) (value v vs)
unfolding heads
item-AreWhole c v cs vs one more start d small small' =
    let both = length-append (tail c v) (tails cs vs) in
    let d' = if is_dynamic c then d + length (layout c v) else d in
    let (hs, ts) = more start d' (omega (arith, tail_taken c v d)) (omega arith) in
    let (h, t) = parts (start + d) (omega arith) (omega arith) in
    (
      append-Whole (head c v (start + d)) (heads start cs vs d') h hs,
      append-Whole (tail c v) (tails cs vs) t ts,
    )
  where
    parts :
        (n : ℕ)
        → n ≤ max_value
        → head_size c v + length (tail c v) ≤ max_value
        → Whole (head c v n) × Whole (tail c v)
    parts n h k = elim (Bool-cases (is_dynamic c)) [
      | inl e ↦
          let fits : 32 + length (layout c v) ≤ max_value = rw e at k in
          rw e (word-Whole n (omega arith), one (omega arith))
      | inr e ↦
          let fits : length (layout c v) + 0 ≤ max_value = rw e at k in
          rw e (one (omega arith), nil-Whole)
    ]

point_bytes-IsBytes : (p : ℕ) → p ≤ 0x10ffff → IsBytes (point_bytes p)
point_bytes-IsBytes p h = elim (Bool-cases (leb p 0xffff)) [
  | inl e ↦ rw e (unit p (leb→le p 0xffff e))
  | inr e ↦ rw e (omega arith, (omega arith, (omega arith, (omega arith, tt))))
]
  where
    unit : (p : ℕ) → p ≤ 0xffff → IsBytes (unit_bytes p)
    unit p h = elim (Bool-cases (ltb p 0x80)) [
      | inl e ↦ let small = ltb→lt p 0x80 e in rw e (omega arith, tt)
      | inr e ↦ elim (Bool-cases (ltb p 0x800)) [
        | inl g ↦ let small = ltb→lt p 0x800 g in rw e (rw g (omega arith, (omega arith, tt)))
        | inr g ↦ rw e (rw g (omega arith, (omega arith, (omega arith, tt))))
      ]
    ]

points_bytes-IsBytes : (ps : List ℕ) → All IsScalar ps → IsBytes (points_bytes ps)
points_bytes-IsBytes [] h = tt
points_bytes-IsBytes (p ∷ ps) (hp, h) =
    All-append IsByte (point_bytes p) (points_bytes ps) (point_bytes-IsBytes p hp.0)
      (points_bytes-IsBytes ps h)

string-IsWhole :
    (s : Text) (ps : List ℕ) → All IsScalar ps → s ≡ units_of ps → IsWhole string (chars s)
unfolding layout
string-IsWhole s ps h e small =
    let written : sized (value_or [] (to_utf8_bytes s)) ≡ sized (points_bytes ps) =
      ap (λ m. sized (value_or [] m)) (ap to_utf8_bytes e ∙ to_utf8_bytes-units_of ps h) in
    subst Whole (sym written) (
      sized-Whole (points_bytes ps) (points_bytes-IsBytes ps h)
        (subst (λ t. length t ≤ max_value) written small))

bytes-IsWhole : (s : Text) (w : List ℕ) → IsBytes w → s ≡ hexlify_bytes w → IsWhole bytes (chars s)
unfolding layout
bytes-IsWhole s w h e small =
    let same = ap sized (bytes_of_text s w h e) in
    subst Whole (sym same) (sized-Whole w h (subst (λ t. length t ≤ max_value) same small))

fixed-IsWhole :
    (size : ℕ) (s : Text) (w : List ℕ)
    → IsBytes w
    → s ≡ hexlify_bytes w
    → IsWhole (fixed_bytes size) (chars s)
unfolding layout
fixed-IsWhole size s w h e small =
    subst (λ t. Whole (pad_right t)) (sym (bytes_of_text s w h e)) (pad_right-Whole w h)

number-IsWhole :
    (size : ℕ) (signed : Bool) (z : ℤ)
    → 0 < size
    → size ≤ 32
    → FitsNumber size signed z
    → IsWhole (number size signed) (int z)
unfolding layout
number-IsWhole size signed z lo hi h small =
    word-Whole (pattern z) (number_of-pattern size signed z lo hi h).0

address-IsWhole :
    (s : Text) (w : List ℕ)
    → IsBytes w
    → length w ≡ 22
    → s ≡ hexlify_bytes w
    → IsWhole address (chars s)
unfolding layout
address-IsWhole s w h l e small = word-Whole _ (address_number s w h l e)

boolean-IsWhole : (b : Bool) → IsWhole boolean (flag b)
unfolding layout
boolean-IsWhole true small = word-Whole 1 (omega arith)
boolean-IsWhole false small = word-Whole 0 (omega arith)

array-IsWhole :
    (c : Coder) (k : Option ℕ) (vs : Values)
    → AreWhole (repeat_coder (count vs) c) vs
    → FitsCount k (count vs) (length (items_layout (repeat_coder (count vs) c) vs))
    → IsWhole (array c k) (list vs)
unfolding layout
array-IsWhole c (some k) vs h fits small = items-Whole (repeat_coder (count vs) c) vs h small
array-IsWhole c none vs h fits small =
    let items = items_layout (repeat_coder (count vs) c) vs in
    let both = length-append (word (count vs)) items in
    let long = word-long (count vs) in
    append-Whole (word (count vs)) items (word-Whole (count vs) (omega arith))
      (items-Whole (repeat_coder (count vs) c) vs h (omega arith))

tuple-IsWhole : (cs : Coders) (vs : Values) → AreWhole cs vs → IsWhole (tuple cs) (list vs)
unfolding layout
tuple-IsWhole cs vs h small = items-Whole cs vs h small

no_items-AreWhole : AreWhole no_coders no_values
unfolding layout
no_items-AreWhole start d h k = (nil-Whole, nil-Whole)

mutual
  Fits-IsWhole : {c : Coder} {v : Value} → Fits c v → IsWhole c v
  Fits-IsWhole (fits_number lo hi h) = number-IsWhole _ _ _ lo hi h
  Fits-IsWhole (fits_address w h l e g) = address-IsWhole _ w h l e
  Fits-IsWhole fits_boolean = boolean-IsWhole _
  Fits-IsWhole (fits_fixed w h l hi lo e) = fixed-IsWhole _ _ w h e
  Fits-IsWhole (fits_bytes w h e) = bytes-IsWhole _ w h e
  Fits-IsWhole (fits_string ps h e) = string-IsWhole _ ps h e
  Fits-IsWhole (fits_array h n) = array-IsWhole _ _ _ (FitsAll-AreWhole h) n
  Fits-IsWhole (fits_tuple h) = tuple-IsWhole _ _ (FitsAll-AreWhole h)

  FitsAll-AreWhole : {cs : Coders} {vs : Values} → FitsAll cs vs → AreWhole cs vs
  FitsAll-AreWhole fits_none = no_items-AreWhole
  FitsAll-AreWhole (fits_item h hs) = item-AreWhole _ _ _ _ (Fits-IsWhole h) (FitsAll-AreWhole hs)

-- The layout of values that fit, if its length is a safe integer, is bytes and whole words of them.
pub layout-Whole :
    (cs : Coders) (vs : Values)
    → FitsAll cs vs
    → length (layout (tuple cs) (list vs)) ≤ max_value
    → Whole (layout (tuple cs) (list vs))
layout-Whole cs vs h small = Fits-IsWhole (fits_tuple h) small
