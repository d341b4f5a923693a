-- ===== src/Abi/Conforms.antt =====
-- The coders of src.ts/abi/coders write and read the layout of values that the ABI specifies.
use corebc_js.Utils.Data.Hex.{IsBytes}
use corebc_js.Utils.Data.{hexlify_bytes}
use corebc_js.Utils.Maths.{max_value}
use corebc_js.Utils.Utf8.Points.{IsScalar}
use corebc_js.Utils.Utf8.{units_of, to_utf8_bytes}
use corebc_js.Utils.Utf8.RoundTrip.{to_utf8_bytes-units_of}
use corebc_js.Abi.{Coder, Coders, Value, Values, address, string, chars, count, repeat_coder}
use corebc_js.Abi.Layout.{
  layout, word, pattern, items_layout, sized, Fits, fits_number, fits_address, fits_boolean,
  fits_fixed, fits_bytes, fits_string, fits_array, fits_tuple, FitsAll, fits_none, fits_item,
  FitsCount, count_word,
}
use corebc_js.Abi.Writer.{pad_right}
use corebc_js.Abi.Scalars.{number_of-pattern}
use corebc_js.Abi.Addresses.{number_of_address, address_bound}
use corebc_js.Abi.Blobs.{bytes_of_text}
use corebc_js.Abi.Octets.{
  word-big_endian, word-be_value, pad_right-filled, sized-counted, length-counted,
  points_bytes-utf8,
}
use corebc_js.Abi.Standard.{
  big_endian, counted, utf8, count_octets, standard, head_length, head_parts, tail_parts,
}
use corebc_js.Abi.Encode.{encode_types}
use corebc_js.Abi.Decode.{decode_types}
use corebc_js.Abi.RoundTrip.{decode_types-layout}
use corebc_js.Abi.Refines.{encode_types-layout}
use corebc_js.Common.{
  ℕ, ◌+◌, ◌≤◌, arith, ◌≡◌, refl, ◌∙◌, ap, Bool, true, false, none, some, List, [], ◌++◌, Text,
  length, replicate, All, length-append, value_or, sym, Option, ok,
}
use mathlib.Core.Path.{ap₂, subst}
use corebc_js.Abi.Parts.{
  item_room, items_same, items_room, SameParts, item-SameParts, no_items-SameParts,
}

address-standard :
    (s : Text) (w : List ℕ)
    → IsBytes w
    → length w ≡ 22
    → s ≡ hexlify_bytes w
    → layout address (chars s) ≡ replicate 10 0 ++ w
unfolding layout
address-standard s w h l e =
    ap word (number_of_address s w h e) ∙ word-be_value w h l (address_bound w h l)

string-standard :
    (s : Text) (ps : List ℕ)
    → All IsScalar ps
    → s ≡ units_of ps
    → length (utf8 ps) ≤ max_value
    → layout string (chars s) ≡ counted (utf8 ps)
unfolding layout
string-standard s ps h e small =
    ap (λ t. sized (value_or [] (to_utf8_bytes t))) e
    ∙ ap (λ m. sized (value_or [] m)) (to_utf8_bytes-units_of ps h)
    ∙ ap sized (points_bytes-utf8 ps)
    ∙ sized-counted (utf8 ps) small

count-standard :
    (c : Coder) (k : Option ℕ) (vs : Values) (h : FitsAll (repeat_coder (count vs) c) vs)
    → FitsCount k (count vs) (length (items_layout (repeat_coder (count vs) c) vs))
    → items_layout (repeat_coder (count vs) c) vs ≡ head_parts (head_length h) h 0 ++ tail_parts h
    → length (head_parts (head_length h) h 0 ++ tail_parts h) ≤ max_value
    → count_word k (count vs) ≡ count_octets k (count vs)
unfolding big_endian
count-standard c none vs h fits same small =
    word-big_endian (count vs) (omega (arith, ap length same))
count-standard c (some k) vs h fits same small = refl

mutual
  unfolding layout standard

  pub layout-standard :
      {c : Coder} {v : Value} (f : Fits c v)
      → length (standard f) ≤ max_value
      → layout c v ≡ standard f
  layout-standard (fits_number {size = size} {signed = signed} {z = z} lo hi h) small =
      word-big_endian (pattern z) (number_of-pattern size signed z lo hi h).0
  layout-standard (fits_address w h l e g) small = address-standard _ w h l e
  layout-standard (fits_boolean {b = true}) small = word-big_endian 1 (omega arith)
  layout-standard (fits_boolean {b = false}) small = word-big_endian 0 (omega arith)
  layout-standard (fits_fixed w h l hi lo e) small =
      ap pad_right (bytes_of_text _ w h e) ∙ pad_right-filled w
  layout-standard (fits_bytes w h e) small =
      ap sized (bytes_of_text _ w h e) ∙ sized-counted w (omega (arith, length-counted w))
  layout-standard (fits_string ps h e) small =
      string-standard _ ps h e (omega (arith, length-counted (utf8 ps)))
  layout-standard (fits_array {c = c} {k = k} {vs = vs} h n) small =
      let parts = head_parts (head_length h) h 0 ++ tail_parts h in
      let fits : length parts ≤ max_value =
        omega (arith, length-append (count_octets k (count vs)) parts) in
      let room = items_room h fits in
      let same = items_same h (parts-SameParts h room) room in
      ap₂ (λ a b. a ++ b) (count-standard c k vs h n same fits) same
  layout-standard (fits_tuple h) small =
      let room = items_room h small in items_same h (parts-SameParts h room) room

  parts-SameParts :
      {cs : Coders} {vs : Values} (h : FitsAll cs vs)
      → head_length h + length (tail_parts h) ≤ max_value
      → SameParts cs vs h
  parts-SameParts fits_none room = no_items-SameParts
  parts-SameParts (fits_item f h) room =
      let (one, others) = item_room f h max_value room in
      item-SameParts f h (layout-standard f one) (parts-SameParts h others)

-- `AbiCoder.encode` writes what the ABI specifies for values that fit their types, where its length is
-- a safe integer.
pub encode_types-standard :
    (cs : Coders) (vs : Values) (h : FitsAll cs vs)
    → length (standard (fits_tuple h)) ≤ max_value
    → encode_types cs vs ≡ ok (standard (fits_tuple h))
encode_types-standard cs vs h small =
    let same = layout-standard (fits_tuple h) small in
    encode_types-layout cs vs h (subst (λ w. length w ≤ max_value) (sym same) small) ∙ ap ok same

-- `AbiCoder.decode` gives back values that fit their types, from what the ABI specifies for them and
-- from longer data that starts with it, loose or not, where the length of the data is a safe integer.
pub decode_types-standard :
    (cs : Coders) (vs : Values) (rest : List ℕ) (loose : Bool) (h : FitsAll cs vs)
    → length (standard (fits_tuple h) ++ rest) ≤ max_value
    → decode_types cs (standard (fits_tuple h) ++ rest) loose ≡ ok vs
decode_types-standard cs vs rest loose h small =
    let w = standard (fits_tuple h) in
    let same = layout-standard (fits_tuple h) (omega (arith, length-append w rest)) in
    subst (λ t. decode_types cs (t ++ rest) loose ≡ ok vs) same
      (decode_types-layout cs vs rest loose h
        (subst (λ t. length (t ++ rest) ≤ max_value) (sym same) small))
