-- ===== src/Utils/Rlp/RoundTrip.antt =====
-- src.ts/utils/rlp-decode.ts reads back what src.ts/utils/rlp-encode.ts writes.
use corebc_js.Utils.Data.{text, get_bytes, lower_case, hexlify_bytes, byte_digits, hex_char}
use corebc_js.Utils.Data.Hex.{
  IsByte, IsBytes, get_bytes-IsBytes, hexlify_bytes-get_bytes, get_bytes-hexlify_bytes,
}
use corebc_js.Utils.Rlp.{
  Structured, Items, leaf, list, no_items, item, encode, encode_items, encode_array, encode_data,
  decode_step, decode, decode_children, nibble_text, encode_rlp, decode_rlp,
}
use corebc_js.Common.Bits.{high_nibble}
use corebc_js.Utils.Rlp.Lengths.{arrayify_integer_lem}
use corebc_js.Utils.Rlp.Steps.{decode_step-byte, single_byte}
use corebc_js.Utils.Rlp.Headers.{
  Header, brief, full, encode_array-Headed, encode_data-Headed, hexlify_byte-bytes,
  decode_step-data, decode_step-array,
}
use corebc_js.Common.{
  ℕ, zero, suc, ◌+◌, ◌*◌, ◌^◌, ◌<◌, arith, ◌≡◌, ap, inl, inr, List, ◌++◌, length, length-append,
  Result, ok, ◌-◌, ◌≤◌, refl, sym, ◌∙◌, ◌∷◌, append_assoc, lt→ltb, le→ltb, le→leb, get_elem?-append,
  regroup, ◌>>=◌, >>=-eq-ok, ok-injective, Text, bit_and, [], All-append, append-nil, ==_refl,
}
use mathlib.Core.Path.{ap₂, subst}

-- The data with each text in lower case: the form in which texts are written.
unfoldable mutual
  pub lower : Structured → Structured
  lower (leaf s) = leaf (lower_case s)
  lower (list xs) = list (lower_items xs)

  pub lower_items : Items → Items
  lower_items no_items = no_items
  lower_items (item x xs) = item (lower x) (lower_items xs)

Header-IsBytes :
    {short long n : ℕ} {h : List ℕ}
    → short ≤ 0xc0
    → long ≤ 0xf7
    → n < 2 ^ 31
    → Header short long n h
    → IsBytes h
Header-IsBytes a b small (brief le e) = subst IsBytes (sym e) (omega arith)
Header-IsBytes a b small (full s lt es e) =
    let (sp, one) = arrayify_integer_lem _ s (omega arith) small es in
    let bound = sp.small in subst IsBytes (sym e) (omega arith, sp.byte_each)

encode_data-IsBytes :
    (d v : List ℕ) → IsBytes d → encode_data d ≡ ok v → length v < 2 ^ 31 → IsBytes v
encode_data-IsBytes d v hd e small = elim (encode_data-Headed d e) [
  | inl (b, eb, hb, ev) ↦ subst IsBytes (sym ev) hd
  | inr (h, head, ev) ↦ subst IsBytes (sym ev) (
      All-append IsByte h d
        (Header-IsBytes (omega arith) (omega arith)
          (omega (arith, ap length ev, length-append {0} h d)) head)
        hd)
]

module _ (children : ℕ → ℕ → Result (Structured × ℕ)) (front d rest : List ℕ) where
  -- A leaf behind `front`.
  decode_step-encode_data :
      (v : List ℕ)
      → encode_data d ≡ ok v
      → length v < 2 ^ 31
      → decode_step children (front ++ (v ++ rest)) (length front)
        ≡ ok (leaf (hexlify_bytes d), length v)
  decode_step-encode_data v e small = elim (encode_data-Headed d e) [
    | inl (b, eb, hb, ev) ↦
        rw (ev, eb)
          (decode_step-byte children (front ++ (b ∷ rest)) (length front) b
              (get_elem?-append front b rest (length front) refl)
            ∙ single_byte children _ _ b hb
            ∙ ap (λ t. ok (leaf t, 1)) (hexlify_byte-bytes b hb))
    | inr (h, hd, ev) ↦ rw ev (
        decode_step-data children front d rest h
          (omega (arith, ap length ev, length-append {0} h d)) hd)
  ]

Header-positive : {short long n : ℕ} {h : List ℕ} → Header short long n h → 1 ≤ length h
Header-positive (brief small e) = omega (arith, ap length e)
Header-positive (full s long es e) = omega (arith, ap length e)

-- Every encoding has a first byte.
pub encode-positive : (x : Structured) {v : List ℕ} → encode x ≡ ok v → 1 ≤ length v
unfolding encode
encode-positive (leaf s) e =
    let (d, _, ev) = >>=-eq-ok (get_bytes (text s)) encode_data e in
    elim (encode_data-Headed d ev) [
      | inl (b, eb, hb, same) ↦ omega (arith, ap length (same ∙ eb))
      | inr (h, hd, same) ↦ omega (arith, ap length same, length-append {0} h d, Header-positive hd)
    ]
encode-positive (list xs) e =
    let (p, _, ev) = >>=-eq-ok (encode_items xs) encode_array e in
    let (h, hd, same) = encode_array-Headed p ev in
    omega (arith, ap length same, length-append {0} h p, Header-positive hd)

leaf_step :
    (s : Text) (f : ℕ) (v front rest : List ℕ)
    → encode (leaf s) ≡ ok v
    → length v < 2 ^ 31
    → decode (suc f) (front ++ (v ++ rest)) (length front) ≡ ok (leaf (lower_case s), length v)
unfolding encode decode
leaf_step s f v front rest e small =
    let (d, ed, ev) = >>=-eq-ok (get_bytes (text s)) encode_data e in
    decode_step-encode_data _ front d rest v ev small
    ∙ ap (λ t. ok (leaf t, length v)) (hexlify_bytes-get_bytes s ed)

list_step :
    (f : ℕ) (front h p rest : List ℕ) (ys : Items)
    → length p < 2 ^ 31
    → Header 0xc0 0xf7 (length p) h
    → decode_children f
        ((front ++ h) ++ (p ++ rest))
        (length front)
        (length front + length h)
        (length (h ++ p) - 1)
      ≡ ok ys
    → decode (suc f) (front ++ ((h ++ p) ++ rest)) (length front) ≡ ok (list ys, length (h ++ p))
unfolding decode
list_step f front h p rest ys small hd e =
    decode_step-array _ front p rest h small hd
    ∙ ap (λ m. m >>= λ xs. ok (list xs, 1 + (length (h ++ p) - 1)))
        (ap
            (λ t.
              decode_children f t (length front) (length front + length h) (length (h ++ p) - 1))
            (regroup front h p rest)
          ∙ e)
    ∙ ap (λ n. ok (list ys, n)) (omega (arith, length-append {0} h p, Header-positive hd))

item_step :
    (f : ℕ) (v : List ℕ) (offset child n : ℕ) (y : Structured) (c : ℕ) (ys : Items)
    → decode f v child ≡ ok (y, c)
    → 1 ≤ c
    → child + c ≤ offset + 1 + n
    → decode_children f v offset (child + c) n ≡ ok ys
    → decode_children (suc f) v offset child n ≡ ok (item y ys)
unfolding decode
item_step f v offset child n y c ys e one fits es =
    rw (lt→ltb child (offset + 1 + n) (omega arith), e, le→leb _ _ fits, es)

no_step :
    (f : ℕ) (v : List ℕ) (offset child n : ℕ)
    → offset + 1 + n ≤ child
    → decode_children (suc f) v offset child n ≡ ok no_items
unfolding decode
no_step f v offset child n h = rw (le→ltb child (offset + 1 + n) h)

mutual
  unfolding encode lower

  decode-encode_lem :
      (x : Structured) (f : ℕ) (v front rest : List ℕ)
      → encode x ≡ ok v
      → length v < 2 ^ 31
      → 2 * length v < f
      → decode f (front ++ (v ++ rest)) (length front) ≡ ok (lower x, length v)
  decode-encode_lem (leaf s) zero v front rest e small h = absurd (omega arith)
  decode-encode_lem (leaf s) (suc f) v front rest e small h = leaf_step s f v front rest e small
  decode-encode_lem (list xs) zero v front rest e small h = absurd (omega arith)
  decode-encode_lem (list xs) (suc f) v front rest e small h =
      let (p, ep, ev) = >>=-eq-ok (encode_items xs) encode_array e in
      let (k, hd, same) = encode_array-Headed p ev in
      let size = ap length same in
      let facts = length-append {0} k p in
      let one = Header-positive hd in
      rw same (
        list_step f front k p rest (lower_items xs) (omega arith) hd (
          decode_children-encode_items xs f p (front ++ k) rest (length front)
            (length front + length k) (length (k ++ p) - 1) ep (omega arith) (omega arith)
            (omega (arith, length-append {0} front k)) (omega (arith, length-append {0} front k))))

  decode_children-encode_items :
      (xs : Items) (f : ℕ) (v front rest : List ℕ) (offset child n : ℕ)
      → encode_items xs ≡ ok v
      → length v < 2 ^ 31
      → 2 * length v + 1 < f
      → child ≡ length front
      → offset + 1 + n ≡ length front + length v
      → decode_children f (front ++ (v ++ rest)) offset child n ≡ ok (lower_items xs)
  decode_children-encode_items no_items zero v front rest offset child n e small h ec en =
      absurd (omega arith)
  decode_children-encode_items no_items (suc f) v front rest offset child n e small h ec en =
      no_step f _ offset child n (omega (arith, ap length (ok-injective e)))
  decode_children-encode_items (item x xs) zero v front rest offset child n e small h ec en =
      absurd (omega arith)
  decode_children-encode_items (item x xs) (suc f) v front rest offset child n e small h ec en =
      let (p, ep, e') = >>=-eq-ok (encode x) (λ a. encode_items xs >>= λ q. ok (a ++ q)) e in
      let (q, eq, ev) = >>=-eq-ok (encode_items xs) (λ q. ok (p ++ q)) e' in
      let same : v ≡ p ++ q = sym (ok-injective ev) in
      let size = ap length same in
      let facts = length-append {0} p q in
      let one = encode-positive x ep in
      let ends = length-append {0} front p in
      rw (same, ec)
        (item_step f _ offset (length front) n (lower x) (length p) (lower_items xs)
          (ap (λ t. decode f t (length front)) (ap (λ t. front ++ t) (append_assoc p q rest))
            ∙ decode-encode_lem x f p front (q ++ rest) ep (omega arith) (omega arith))
          one (omega arith)
          (ap (λ t. decode_children f t offset (length front + length p) n) (regroup front p q rest)
            ∙ decode_children-encode_items xs f q (front ++ p) rest offset (length front + length p)
                n eq (omega arith) (omega arith) (omega arith) (omega arith)))

mutual
  unfolding encode

  pub encode-IsBytes :
      (x : Structured) (v : List ℕ) → encode x ≡ ok v → length v < 2 ^ 31 → IsBytes v
  encode-IsBytes (leaf s) v e small =
      let (d, ed, ev) = >>=-eq-ok (get_bytes (text s)) encode_data e in
      encode_data-IsBytes d v (get_bytes-IsBytes s ed) ev small
  encode-IsBytes (list xs) v e small =
      let (p, ep, ev) = >>=-eq-ok (encode_items xs) encode_array e in
      let (h, hd, same) = encode_array-Headed p ev in
      let size = ap length same in
      let facts = length-append {0} h p in
      subst IsBytes (sym same) (
        All-append IsByte h p (Header-IsBytes (omega arith) (omega arith) (omega arith) hd)
          (encode_items-IsBytes xs p ep (omega arith)))

  encode_items-IsBytes :
      (xs : Items) (v : List ℕ) → encode_items xs ≡ ok v → length v < 2 ^ 31 → IsBytes v
  encode_items-IsBytes no_items v e small = subst IsBytes (ok-injective e) tt
  encode_items-IsBytes (item x xs) v e small =
      let (p, ep, e') = >>=-eq-ok (encode x) (λ a. encode_items xs >>= λ q. ok (a ++ q)) e in
      let (q, eq, ev) = >>=-eq-ok (encode_items xs) (λ q. ok (p ++ q)) e' in
      let same : v ≡ p ++ q = sym (ok-injective ev) in
      let size = ap length same in
      let facts = length-append {0} p q in
      subst IsBytes (sym same) (
        All-append IsByte p q (encode-IsBytes x p ep (omega arith))
          (encode_items-IsBytes xs q eq (omega arith)))

pub nibble_text-byte_digits : (v : List ℕ) → IsBytes v → nibble_text v ≡ byte_digits v
unfolding nibble_text byte_digits
nibble_text-byte_digits [] h = refl
nibble_text-byte_digits (b ∷ v) (hb, hv) =
    ap₂ (λ c t. c ∷ hex_char (bit_and b 0x0f) ∷ t) (ap hex_char (sym (high_nibble b hb)))
      (nibble_text-byte_digits v hv)

get_bytes-nibble_text :
    (v : List ℕ) → IsBytes v → get_bytes (text (b'0' ∷ b'x' ∷ nibble_text v)) ≡ ok v
unfolding hexlify_bytes
get_bytes-nibble_text v h =
    ap (λ t. get_bytes (text (b'0' ∷ b'x' ∷ t))) (nibble_text-byte_digits v h)
    ∙ get_bytes-hexlify_bytes v h

-- The text of an encoding is what `hexlify` writes for its bytes.
pub encode_rlp-hexlify_bytes :
    (x : Structured) (v : List ℕ)
    → encode x ≡ ok v
    → length v < 2 ^ 31
    → encode_rlp x ≡ ok (hexlify_bytes v)
unfolding encode_rlp hexlify_bytes
encode_rlp-hexlify_bytes x v e small =
    rw e (ap (λ t. ok (b'0' ∷ b'x' ∷ t)) (nibble_text-byte_digits v (encode-IsBytes x v e small)))

-- Where data encodes to less than 2 ^ 31 bytes, decoding the text of the encoding gives the data,
-- each of its texts in lower case.
pub decode_rlp-encode_rlp :
    (x : Structured) (v : List ℕ)
    → encode x ≡ ok v
    → length v < 2 ^ 31
    → (encode_rlp x >>= decode_rlp) ≡ ok (lower x)
unfolding encode_rlp decode_rlp
decode_rlp-encode_rlp x v e small =
    let read = get_bytes-nibble_text v (encode-IsBytes x v e small) in
    let whole = decode-encode_lem x (2 * length v + 1) v [] [] e small (omega arith) in
    let here = ap (λ t. decode (2 * length v + 1) t 0) (sym (append-nil v)) ∙ whole in
    rw (e, read, here, ==_refl)
