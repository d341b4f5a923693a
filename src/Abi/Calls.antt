-- ===== src/Abi/Calls.antt =====
-- The data of calls, errors and results is read back.
use corebc_js.Utils.Data.{BytesLike, hexlify_bytes, hexlify, no_options, string}
use corebc_js.Utils.Data.Hex.{IsByte, IsBytes, get_bytes-hexlify_bytes}
use corebc_js.Utils.Data.Texts.{hexlify-hexlify_bytes}
use corebc_js.Utils.Data.Pad.{concat_two}
use corebc_js.Utils.Data.Slices.{concat, data_slice}
use corebc_js.Utils.Maths.{max_value}
use corebc_js.Address.{text_eq}
use corebc_js.Abi.{Coders, Values, tuple, list}
use corebc_js.Abi.Decode.{decode_types}
use corebc_js.Abi.Layout.{layout, FitsAll}
use corebc_js.Abi.Refines.{encode_types-layout}
use corebc_js.Abi.RoundTrip.{decode_types-layout}
use corebc_js.Abi.Wholes.{layout-Whole}
use corebc_js.Abi.Interface.{
  Fragment, encode_params, decode_params, encode_function_data, encode_error_result,
  encode_function_result, decode_function_data, decode_error_result, decode_function_result, or_bad,
}
use corebc_js.Common.{
  bad_data, ℕ, ◌-◌, ◌≤◌, arith, ◌≡◌, refl, sym, ◌∙◌, ap, true, false, none, some, List, [], ◌∷◌,
  ◌++◌, append-nil, Text, le→leb, ==_iff, length, take, length-append, take_all, drop-append,
  take-append, All-append, ◌>>=◌, ok, ◌%◌, ◌==◌, if◌then◌else◌, Result, ◌>>◌, assert, err,
  invalid_argument,
}
use mathlib.Core.Path.{subst}

text_eq_refl : (s : Text) → text_eq s s ≡ true
unfolding text_eq
text_eq_refl [] = refl
text_eq_refl (c ∷ s) = rw ((==_iff c c).1 refl) (text_eq_refl s)

-- Four bytes in front of the others.
selector_slice :
    (v w : List ℕ)
    → IsBytes v
    → IsBytes w
    → length v ≡ 4
    → (data_slice (BytesLike.text (hexlify_bytes (v ++ w))) (some 0) (some 4)
        ≡ ok (hexlify_bytes v))
      × (data_slice (BytesLike.text (hexlify_bytes (v ++ w))) (some 4) none ≡ ok (hexlify_bytes w))
unfolding data_slice
selector_slice v w hv hw l =
    let read = get_bytes-hexlify_bytes (v ++ w) (All-append IsByte v w hv hw) in
    let total = length-append v w in
    (
      rw (read, le→leb 4 (length (v ++ w)) (omega arith))
          (ap (λ t. ok (hexlify_bytes t)) (take-append v w 4 (sym l))),
      rw (read, le→leb 0 (length (v ++ w)) (omega arith))
          (ap (λ t. ok (hexlify_bytes t))
            (ap (take (length (v ++ w) - 4)) (drop-append v w 4 (sym l))
              ∙ ap (λ k. take k w) (omega arith)
              ∙ take_all w)),
    )

encode_params-layout :
    (cs : Coders) (vs : Values)
    → FitsAll cs vs
    → length (layout (tuple cs) (list vs)) ≤ max_value
    → encode_params cs vs ≡ ok (hexlify_bytes (layout (tuple cs) (list vs)))
unfolding encode_params
encode_params-layout cs vs h small =
    ap (λ m. m >>= λ v. ok (hexlify_bytes v)) (encode_types-layout cs vs h small)

decode_layout :
    (cs : Coders) (vs : Values)
    → FitsAll cs vs
    → length (layout (tuple cs) (list vs)) ≤ max_value
    → decode_types cs (layout (tuple cs) (list vs)) false ≡ ok vs
decode_layout cs vs h small =
    let v = layout (tuple cs) (list vs) in
    subst (λ t. decode_types cs t false ≡ ok vs) (append-nil v)
      (decode_types-layout cs vs [] false h
        (subst (λ t. length t ≤ max_value) (sym (append-nil v)) small))

decode_params-layout :
    (cs : Coders) (vs : Values)
    → FitsAll cs vs
    → length (layout (tuple cs) (list vs)) ≤ max_value
    → decode_params cs (BytesLike.text (hexlify_bytes (layout (tuple cs) (list vs)))) ≡ ok vs
unfolding decode_params
decode_params-layout cs vs h small =
    let v = layout (tuple cs) (list vs) in
    ap (λ m. m >>= λ t. decode_types cs t false)
      (get_bytes-hexlify_bytes v (layout-Whole cs vs h small).byte_each)
    ∙ decode_layout cs vs h small

-- The selector and the arguments, put together and taken apart.
called :
    (to_byte : Text → ℕ) (selector : List ℕ) (cs : Coders) (vs : Values)
    → IsBytes selector
    → length selector ≡ 4
    → FitsAll cs vs
    → length (layout (tuple cs) (list vs)) ≤ max_value
    → (t : Text) × ((encode_params cs vs >>= λ s.
          concat to_byte (BytesLike.text (hexlify_bytes selector) ∷ BytesLike.text s ∷ []))
        ≡ ok t)
      × ((data_slice (BytesLike.text t) (some 0) (some 4) >>= λ s.
            assert (text_eq s (hexlify_bytes selector)) invalid_argument
            >> (data_slice (BytesLike.text t) (some 4) none >>= λ rest.
                decode_params cs (BytesLike.text rest)))
          ≡ ok vs)
called to_byte selector cs vs hs l h small =
    let v = layout (tuple cs) (list vs) in
    let hv = (layout-Whole cs vs h small).byte_each in
    let (first, second) = selector_slice selector v hs hv l in
    let rest = data_slice (BytesLike.text (hexlify_bytes (selector ++ v))) (some 4) none in
    let read = λ (m : Result Text). m >>= λ s. decode_params cs (BytesLike.text s) in
    (
      hexlify_bytes (selector ++ v),
      ap
            (λ m. m >>= λ s.
              concat to_byte (BytesLike.text (hexlify_bytes selector) ∷ BytesLike.text s ∷ []))
            (encode_params-layout cs vs h small)
          ∙ concat_two to_byte selector v hs hv,
      ap (λ m. m >>= λ s. assert (text_eq s (hexlify_bytes selector)) invalid_argument >> read rest)
            first
          ∙ ap (λ b. assert b invalid_argument >> read rest) (text_eq_refl (hexlify_bytes selector))
          ∙ ap read second
          ∙ decode_params-layout cs vs h small,
    )

-- Arguments that fit the inputs of a function or an error, with a selector of four bytes and a layout
-- whose length is a safe integer, are encoded behind the selector and decoded again.
pub decode_function_data-encode_function_data :
    (to_byte : Text → ℕ) (f : Fragment) (selector : List ℕ) (vs : Values)
    → IsBytes selector
    → length selector ≡ 4
    → f.selector ≡ hexlify_bytes selector
    → FitsAll f.inputs vs
    → length (layout (tuple f.inputs) (list vs)) ≤ max_value
    → (t : Text) × (encode_function_data to_byte f vs ≡ ok t)
      × (decode_function_data f (BytesLike.text t) ≡ ok vs)
      × (encode_error_result to_byte f vs ≡ ok t)
      × (decode_error_result f (BytesLike.text t) ≡ ok vs)
unfolding encode_function_data decode_function_data encode_error_result decode_error_result
decode_function_data-encode_function_data to_byte f selector vs hs l e h small =
    let (t, written, read) = called to_byte selector f.inputs vs hs l h small in
    let put =
      subst
        (λ s.
          (encode_params f.inputs vs >>= λ u.
          concat to_byte (BytesLike.text s ∷ BytesLike.text u ∷ []))
          ≡ ok t)
        (sym e) written in
    let got =
      subst
        (λ s.
          (data_slice (BytesLike.text t) (some 0) (some 4) >>= λ u.
          assert (text_eq u s) invalid_argument
          >> (data_slice (BytesLike.text t) (some 4) none >>= λ rest.
              decode_params f.inputs (BytesLike.text rest)))
          ≡ ok vs)
        (sym e) read in
    (t, put, got, put, got)

-- Results that fit the outputs of a function, with a layout whose length is a safe integer, are encoded
-- and decoded again; the length of the data passes the test of decodeFunctionResult.
pub decode_function_result-encode_function_result :
    (to_byte : Text → ℕ) (f : Fragment) (vs : Values)
    → FitsAll f.outputs vs
    → length (layout (tuple f.outputs) (list vs)) ≤ max_value
    → (t : Text) × (encode_function_result to_byte f vs ≡ ok t)
      × (decode_function_result f (BytesLike.text t) ≡ ok vs)
unfolding encode_function_result decode_function_result
decode_function_result-encode_function_result to_byte f vs h small =
    let v = layout (tuple f.outputs) (list vs) in
    let whole = layout-Whole f.outputs vs h small in
    (
      hexlify_bytes v,
      ap (λ m. m >>= λ s. hexlify to_byte no_options (string s))
            (encode_params-layout f.outputs vs h small)
          ∙ hexlify-hexlify_bytes to_byte v whole.byte_each,
      ap
            (λ m. m >>= λ b.
              if length b % 32 == 0 then or_bad (decode_types f.outputs b false) else err bad_data)
            (get_bytes-hexlify_bytes v whole.byte_each)
          ∙ ap (λ b. if b then or_bad (decode_types f.outputs v false) else err bad_data)
              ((==_iff (length v % 32) 0).1 whole.whole_words)
          ∙ ap or_bad (decode_layout f.outputs vs h small),
    )
