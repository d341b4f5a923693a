-- ===== src/Abi/Runs.antt =====
-- Runs of src.ts/abi/coders, and its theorems at concrete inputs.
use corebc_js.Utils.Data.{BytesLike, hexlify_bytes, pair_bytes, to_string_16, is_bytes}
use corebc_js.Utils.Data.Hex.{is_bytes_sound}
use corebc_js.Utils.Maths.{max_value, get_uint}
use corebc_js.Utils.Rlp.{nibble_text}
use corebc_js.Utils.Utf8.{to_utf8_bytes, units_of}
use corebc_js.Common.Integers.{pos, negsuc}
use corebc_js.Abi.{
  address, fixed_bytes, Coders, Values, number, boolean, string, null, array, tuple, bytes,
  is_dynamic, count, word_size, no_coders, coder, int, flag, chars, list, nothing, no_values, value,
}
use corebc_js.Abi.Writer.{new_writer}
use corebc_js.Abi.Reader.{Reader, read_bytes}
use corebc_js.Abi.Encode.{encode, encode_types}
use corebc_js.Abi.Decode.{decode, decode_types}
use corebc_js.Abi.Layout.{
  layout, fits_tuple, fits_number, fits_boolean, fits_string, fits_array, FitsAll, fits_none,
  fits_item,
}
use corebc_js.Abi.Standard.{standard, big_endian}
use corebc_js.Abi.Conforms.{encode_types-standard, decode_types-standard}
use corebc_js.Abi.Sources.{decode-Whole}
use corebc_js.Abi.Gives.{InType}
use corebc_js.Abi.Guards.{out_of_range, encode-Misfit}
use corebc_js.Abi.Untrusted.{decode-count, decode-InType}
use corebc_js.Abi.Interface.{
  Fragment, encode_function_data, encode_error_result, encode_function_result, decode_function_data,
  decode_error_result, decode_function_result,
}
use corebc_js.Abi.Calls.{
  decode_function_data-encode_function_data, decode_function_result-encode_function_result,
}
use corebc_js.Address.{get_address}
use corebc_js.Abi.Defaults.{
  default_value, default_values, plain_boolean, plain_fixed, plain_array, plain_none, plain_item,
  decode_types-default_values,
}
use corebc_js.Abi.Refines.{decode_types-encode_types}
use corebc_js.Common.{
  bad_data, ◌≤◌, arith, refl, inl, true, false, none, [], ◌∷◌, leb→le, length, ℕ, ◌*◌, ◌≡◌, some,
  List, ◌++◌, replicate, ok, err, invalid_argument, plain_error, ◌>>=◌, buffer_overrun, Text, ◌+◌,
}

-- (int16, string, bool[])
abbrev sample_types : Coders
sample_types = coder (number 2 true) (coder string (coder (array boolean none) no_coders))

abbrev sample_values : Values
sample_values =
    value (int (pos 5))
      (value (chars (b'h' ∷ 0x20ac ∷ [])) (value (list (value (flag true) no_values)) no_values))

unfoldable sample_fits : FitsAll sample_types sample_values
unfolding units_of layout is_dynamic pair_bytes to_string_16
sample_fits = fits_item (fits_number (omega arith) (omega arith) (omega arith)) (
    fits_item
      (fits_string (b'h' ∷ 0x20ac ∷ [])
        ((omega arith, inl (omega arith)), ((omega arith, inl (omega arith)), tt)) refl)
      (fits_item (fits_array (fits_item fits_boolean fits_none) (leb→le 32 64 refl)) fits_none))

sample_small : length (layout (tuple sample_types) (list sample_values)) ≤ max_value
unfolding layout is_dynamic pair_bytes to_string_16 to_utf8_bytes
sample_small = leb→le _ max_value refl

standard_small : length (standard (fits_tuple sample_fits)) ≤ max_value
unfolding standard sample_fits
standard_small = leb→le _ max_value refl

encode_types-standard_example :
    encode_types sample_types sample_values ≡ ok (standard (fits_tuple sample_fits))
encode_types-standard_example =
    encode_types-standard sample_types sample_values sample_fits standard_small

decode_types-encode_types_example :
    (v : List ℕ) × (encode_types sample_types sample_values ≡ ok v)
    × (decode_types sample_types v false ≡ ok sample_values)
decode_types-encode_types_example =
    decode_types-encode_types sample_types sample_values false sample_fits sample_small

with_rest : length (standard (fits_tuple sample_fits) ++ 7 ∷ []) ≤ max_value
unfolding standard sample_fits
with_rest = leb→le _ max_value refl

decode_types-standard_example :
    decode_types sample_types (standard (fits_tuple sample_fits) ++ 7 ∷ []) true ≡ ok sample_values
decode_types-standard_example =
    decode_types-standard sample_types sample_values (7 ∷ []) true sample_fits with_rest

-- An offset that points behind the data, in data that is too short.
abbrev broken : List ℕ
broken = replicate 31 0 ++ 64 ∷ 1 ∷ 2 ∷ []

-- Two bytes without padding, and a third behind them.
abbrev unpadded : Reader
unpadded = record { loose = true; contents = replicate 31 0 ++ 2 ∷ 7 ∷ 8 ∷ 9 ∷ []; offset = 0 }

decode-Whole_example :
    (w front rest : List ℕ) × (chars (hexlify_bytes (7 ∷ 8 ∷ [])) ≡ chars (hexlify_bytes w))
    × (unpadded.contents ≡ front ++ (big_endian 32 (length w) ++ (w ++ rest)))
    × (length front ≡ 0)
    × (0 + 32 + length w ≤ (decode bytes unpadded).1.offset)
    × ((decode bytes unpadded).1.offset ≤ length unpadded.contents)
unfolding is_bytes decode nibble_text get_uint
decode-Whole_example = decode-Whole unpadded (is_bytes_sound unpadded.contents refl) refl

-- int8, of a word that ends in 0x80.
abbrev negative : Reader
negative = record { loose = false; contents = replicate 31 0 ++ 0x80 ∷ []; offset = 0 }

decode-InType_example : InType 1 true (int (negsuc 127))
unfolding is_bytes decode nibble_text get_uint
decode-InType_example =
    decode-InType 1 true negative (omega arith) (is_bytes_sound negative.contents refl) refl

-- bool[] with no elements.
abbrev no_elements : Reader
no_elements = record { loose = false; contents = replicate 32 0; offset = 0 }

decode-count_example :
    (vs : Values) × (list no_values ≡ list vs)
    × (count vs * word_size ≤ length no_elements.contents)
unfolding decode nibble_text is_dynamic
decode-count_example = decode-count boolean no_elements refl

encode-Misfit_example : encode (number 1 false) (int (pos 256)) new_writer ≡ err invalid_argument
encode-Misfit_example = encode-Misfit new_writer (out_of_range (omega arith) (λ h. omega arith))

-- The value null is taken for a missing one when a coder of null is decoded in a tuple.
null_refused : decode_types (coder null no_coders) [] false ≡ err plain_error
unfolding decode_types read_bytes is_dynamic
null_refused = refl

null_written : encode_types (coder null no_coders) (value nothing no_values) ≡ ok []
unfolding encode_types is_dynamic
null_written = refl

-- Elements that take no bytes, of bool[0][], are written but not read back.
abbrev empty_elements : Values
empty_elements = value (list (value (list no_values) (value (list no_values) no_values))) no_values

empty_elements_lost :
    (encode_types (coder (array (array boolean (some 0)) none) no_coders) empty_elements >>= λ v.
    decode_types (coder (array (array boolean (some 0)) none) no_coders) v true)
    ≡ err buffer_overrun
unfolding encode_types decode_types is_dynamic pair_bytes to_string_16 get_uint nibble_text
empty_elements_lost = refl

abbrev sample_selector : List ℕ
sample_selector = 0xa9 ∷ 0x05 ∷ 0x9c ∷ 0xbb ∷ []

abbrev sample_function : Fragment
sample_function = record {
  selector = hexlify_bytes sample_selector;
  inputs = sample_types;
  outputs = sample_types;
}

decode_function_data-encode_function_data_example :
    (t : Text) × (encode_function_data (λ s. 0) sample_function sample_values ≡ ok t)
    × (decode_function_data sample_function (BytesLike.text t) ≡ ok sample_values)
    × (encode_error_result (λ s. 0) sample_function sample_values ≡ ok t)
    × (decode_error_result sample_function (BytesLike.text t) ≡ ok sample_values)
unfolding is_bytes
decode_function_data-encode_function_data_example =
    decode_function_data-encode_function_data (λ s. 0) sample_function sample_selector sample_values
      (is_bytes_sound sample_selector refl) refl refl sample_fits sample_small

decode_function_result-encode_function_result_example :
    (t : Text) × (encode_function_result (λ s. 0) sample_function sample_values ≡ ok t)
    × (decode_function_result sample_function (BytesLike.text t) ≡ ok sample_values)
decode_function_result-encode_function_result_example =
    decode_function_result-encode_function_result (λ s. 0) sample_function sample_values sample_fits
      sample_small

-- A result that is cut off.
cut_off : decode_function_result sample_function (BytesLike.bytes (0 ∷ [])) ≡ err bad_data
unfolding decode_function_result
cut_off = refl

-- The default of an address is too short for its own coder.
address_default_refused : encode address (default_value address) new_writer ≡ err invalid_argument
unfolding encode default_value get_address
address_default_refused = refl

-- bool, bytes4[1]
abbrev default_types : Coders
default_types = coder boolean (coder (array (fixed_bytes 4) (some 1)) no_coders)

default_small :
    length (layout (tuple default_types) (list (default_values default_types))) ≤ max_value
unfolding layout default_value is_dynamic pair_bytes to_string_16
default_small = leb→le _ max_value refl

decode_types-default_values_example :
    (v : List ℕ) × (encode_types default_types (default_values default_types) ≡ ok v)
    × (decode_types default_types v true ≡ ok (default_values default_types))
decode_types-default_values_example =
    decode_types-default_values default_types true
      (plain_item plain_boolean
        (plain_item (plain_array (plain_fixed (omega arith) (omega arith))) plain_none))
      default_small
