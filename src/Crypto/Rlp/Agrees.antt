-- ===== src/Crypto/Rlp/Agrees.antt =====
-- src.ts/crypto/rlp.ts and src.ts/utils/rlp-encode.ts, rlp-decode.ts compute the same.
use corebc_js.Utils.Rlp
use corebc_js.Common.Bits.{all_below, all_below_sound}
use corebc_js.Utils.Data.{
  text, string, no_options, is_hex_string, whole_bytes, get_bytes, hexlify_number, to_string_16,
}
use corebc_js.Utils.Data.Slices.{arrayify}
use corebc_js.Utils.Data.Texts.{arrayify-get_bytes, hex_string-IsData}
use corebc_js.Utils.Rlp.{
  Structured, Items, leaf, list, no_items, item, encode_array, encode_data, hexlify_byte,
}
use corebc_js.Utils.Rlp.Encodes.{is_data, is_data_items}
use corebc_js.Utils.Rlp.Headers.{same_text, same_text→eq}
use corebc_js.Crypto.Rlp.{
  encode_leaf, encode_object, encode_children, encode, in_range, decode_byte, decode_step,
  decode_object, decode_children, decode_bytes, decode,
}
use corebc_js.Common.{
  ℕ, ◌<◌, arith, ◌≡◌, refl, sym, true, List, Result, zero, suc, ◌+◌, ◌∙◌, ap, inl, inr, leb, lt→leb,
  Bool-cases, ◌>>=◌, assert, ok, buffer_overrun, ◌*◌, Bool, ◌&&◌, none, some, Text, ◌==◌,
  if◌then◌else◌, &&-left, &&-right, length, get_elem?, ◌>>◌, err, invalid_argument, type_error, ltb,
}
use mathlib.Core.Path.{fun_ext}

in_range-assert : (limit end : ℕ) → in_range limit end ≡ assert (leb end limit) buffer_overrun
unfolding in_range
in_range-assert limit end = ground arith

number_table : all_below 128 (λ b. same_text (hexlify_byte b) (hexlify_number b)) ≡ true
unfolding all_below same_text hexlify_byte hexlify_number to_string_16
number_table = refl

hexlify_number-byte : (b : ℕ) → b < 128 → hexlify_number b ≡ hexlify_byte b
hexlify_number-byte b h = sym (
    same_text→eq _ _
      (all_below_sound 128 (λ c. same_text (hexlify_byte c) (hexlify_number c)) b number_table h))

module _ (children : ℕ → ℕ → Result (Structured × ℕ)) (v : List ℕ) (o : ℕ) where
  decode_byte-eq : (b : ℕ) → decode_byte children v o b ≡ Rlp.decode_byte children v o b
  unfolding decode_byte Rlp.decode_byte
  decode_byte-eq b = elim (Bool-cases (leb 0x80 b)) [
    | inl e ↦ simp (in_range-assert, e)
    | inr e ↦
        let small : b < 128 = ground arith in
        rw
          (lt→leb 0xf8 b (omega arith), lt→leb 0xc0 b (omega arith), lt→leb 0xb8 b (omega arith), e)
          (ap (λ t. ok (leaf t, 1)) (hexlify_number-byte b small))
  ]

  decode_step-eq : decode_step children v o ≡ Rlp.decode_step children v o
  unfolding decode_step Rlp.decode_step
  decode_step-eq = ap dispatch (fun_ext decode_byte-eq)
    where
      dispatch : (ℕ → Result (Structured × ℕ)) → Result (Structured × ℕ)
      dispatch k =
          if length v == 0
          then err buffer_overrun
          else elim (get_elem? v o) [ none ↦ err type_error | some b ↦ k b ]

mutual
  unfolding decode_object Rlp.decode

  decode_object-eq : (f : ℕ) (v : List ℕ) (o : ℕ) → decode_object f v o ≡ Rlp.decode f v o
  decode_object-eq zero v o = refl
  decode_object-eq (suc f) v o =
      decode_step-eq _ v o
      ∙ ap (λ c. Rlp.decode_step c v o)
          (fun_ext (λ child.
            fun_ext
              (λ n. ap (λ m. m >>= λ xs. ok (list xs, 1 + n)) (decode_children-eq f v o child n))))

  decode_children-eq :
      (f : ℕ) (v : List ℕ) (o child n : ℕ)
      → decode_children f v o child n ≡ Rlp.decode_children f v o child n
  decode_children-eq zero v o child n = refl
  decode_children-eq (suc f) v o child n =
      let more : decode_children f v o ≡ Rlp.decode_children f v o =
        fun_ext (λ c. fun_ext (λ m. decode_children-eq f v o c m)) in
      simp (decode_object-eq f v child, in_range-assert)
        (ap
          (λ (k : ℕ → ℕ → Result Items).
            if ltb child (o + 1 + n)
            then Rlp.decode f v child >>= (λ (x, c).
              assert (leb (child + c) (o + 1 + n)) buffer_overrun
              >> (k (child + c) n >>= λ xs. ok (item x xs)))
            else ok no_items)
          more)

decode_bytes-eq :
    (v : List ℕ)
    → decode_bytes v ≡ (
        Rlp.decode (2 * length v + 1) v 0 >>= λ (x, consumed).
        assert (consumed == length v) invalid_argument >> ok x)
unfolding decode_bytes
decode_bytes-eq v = rw (decode_object-eq (2 * length v + 1) v 0)

-- On every text of whole bytes the two decoders give the same outcome, errors included.
pub decode-decode_rlp :
    (s : Text) → is_hex_string s whole_bytes ≡ true → decode s ≡ Rlp.decode_rlp s
unfolding decode Rlp.decode_rlp
decode-decode_rlp s h =
    ap (λ r. r >>= decode_bytes) (arrayify-get_bytes s h)
    ∙ ap (λ k. get_bytes (text s) >>= k) (fun_ext decode_bytes-eq)

-- Every leaf is a text of whole bytes with the prefix `0x`.
unfoldable mutual
  pub is_hex_data : Structured → Bool
  is_hex_data (leaf s) = is_hex_string s whole_bytes
  is_hex_data (list xs) = is_hex_items xs

  pub is_hex_items : Items → Bool
  is_hex_items no_items = true
  is_hex_items (item x xs) = is_hex_data x && is_hex_items xs

encode_leaf-eq :
    (s : Text)
    → is_hex_string s whole_bytes ≡ true
    → encode_leaf s ≡ (get_bytes (text s) >>= encode_data)
unfolding encode_leaf
encode_leaf-eq s h =
    ap (λ b. if b then arrayify no_options (string s) >>= encode_data else err invalid_argument) h
    ∙ ap (λ r. r >>= encode_data) (arrayify-get_bytes s h)

mutual
  unfolding encode_object Rlp.encode is_hex_data

  encode_object-eq : (x : Structured) → is_hex_data x ≡ true → encode_object x ≡ Rlp.encode x
  encode_object-eq (leaf s) h = encode_leaf-eq s h
  encode_object-eq (list xs) h = ap (λ r. r >>= encode_array) (encode_children-eq xs h)

  encode_children-eq :
      (xs : Items) → is_hex_items xs ≡ true → encode_children xs ≡ Rlp.encode_items xs
  encode_children-eq no_items h = refl
  encode_children-eq (item x xs) h = rw (
    encode_object-eq x (&&-left (is_hex_data x) (is_hex_items xs) h),
    encode_children-eq xs (&&-right (is_hex_data x) (is_hex_items xs) h),
  )

mutual
  unfolding is_hex_data is_data

  is_hex_data-is_data : (x : Structured) → is_hex_data x ≡ true → is_data x ≡ true
  is_hex_data-is_data (leaf s) h = hex_string-IsData s h
  is_hex_data-is_data (list xs) h = is_hex_items-is_data_items xs h

  is_hex_items-is_data_items : (xs : Items) → is_hex_items xs ≡ true → is_data_items xs ≡ true
  is_hex_items-is_data_items no_items h = refl
  is_hex_items-is_data_items (item x xs) h = rw (
    is_hex_data-is_data x (&&-left (is_hex_data x) (is_hex_items xs) h),
    is_hex_items-is_data_items xs (&&-right (is_hex_data x) (is_hex_items xs) h),
  )
