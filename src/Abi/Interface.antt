-- ===== src/Abi/Interface.antt =====
-- src.ts/abi/interface.ts: the data of a call, of an error and of a result. A fragment is given by its
-- types and by its selector, which `id` makes of its signature with a hash; the look-up of a fragment by
-- its name is left out.
use corebc_js.Utils.Data.{BytesLike, get_bytes, hexlify_bytes, hexlify, no_options, string}
use corebc_js.Utils.Data.Slices.{concat, data_slice}
use corebc_js.Address.{text_eq}
use corebc_js.Abi.{Coders, Values}
use corebc_js.Abi.Encode.{encode_types}
use corebc_js.Abi.Decode.{decode_types}
use corebc_js.Common.{
  bad_data, ℕ, ◌%◌, false, none, some, [], ◌∷◌, Text, ◌==◌, if◌then◌else◌, length, Result, ◌>>=◌,
  ◌>>◌, assert, ok, err, stuck, invalid_argument,
}

pub record Fragment : Type 0 where
  pub selector : Text
  pub inputs : Coders
  pub outputs : Coders

-- `AbiCoder.encode` as the text that it returns.
unfoldable pub encode_params : Coders → Values → Result Text
unfolding encode_types hexlify_bytes
encode_params cs vs = do v ← encode_types cs vs; ok (hexlify_bytes v)

-- `AbiCoder.decode` of a text or a byte array.
unfoldable pub decode_params : Coders → BytesLike → Result Values
unfolding decode_types get_bytes
decode_params cs d = do v ← get_bytes d; decode_types cs v false

module _ (to_byte : Text → ℕ) where
  unfoldable pub encode_function_data : Fragment → Values → Result Text
  unfolding encode_params concat
  encode_function_data f vs = do
    s ← encode_params f.inputs vs
    concat to_byte (BytesLike.text f.selector ∷ BytesLike.text s ∷ [])

  unfoldable pub encode_error_result : Fragment → Values → Result Text
  unfolding encode_params concat
  encode_error_result f vs = do
    s ← encode_params f.inputs vs
    concat to_byte (BytesLike.text f.selector ∷ BytesLike.text s ∷ [])

  unfoldable pub encode_function_result : Fragment → Values → Result Text
  unfolding encode_params hexlify
  encode_function_result f vs = do
    s ← encode_params f.outputs vs
    hexlify to_byte no_options (string s)

unfoldable pub decode_function_data : Fragment → BytesLike → Result Values
unfolding data_slice decode_params text_eq
decode_function_data f d = do
  s ← data_slice d (some 0) (some 4)
  assert (text_eq s f.selector) invalid_argument
  rest ← data_slice d (some 4) none
  decode_params f.inputs (BytesLike.text rest)

unfoldable pub decode_error_result : Fragment → BytesLike → Result Values
unfolding data_slice decode_params text_eq
decode_error_result f d = do
  s ← data_slice d (some 0) (some 4)
  assert (text_eq s f.selector) invalid_argument
  rest ← data_slice d (some 4) none
  decode_params f.inputs (BytesLike.text rest)

-- `catch`: any error of the decoder is a BAD_DATA.
abbrev pub or_bad : Result Values → Result Values
or_bad (ok vs) = ok vs
or_bad (err e) = err bad_data
or_bad stuck = stuck

unfoldable pub decode_function_result : Fragment → BytesLike → Result Values
unfolding get_bytes decode_types
decode_function_result f d = do
  v ← get_bytes d
  if length v % 32 == 0 then or_bad (decode_types f.outputs v false) else err bad_data
