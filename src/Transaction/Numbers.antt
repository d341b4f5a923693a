-- ===== src/Transaction/Numbers.antt =====
-- The numeric fields of src.ts/transaction/transaction.ts: `serialize` writes them, `parse` reads them.
use corebc_js.Common.Radix.{of_digits, length-digits}
use corebc_js.Common.Integers.{pos}
use corebc_js.Utils.Data.{
  array, string, bigint, bytes, hexlify, hexlify_bytes, hexlify_bigint, add_prefix, hex_char,
  byte_digits, no_options, is_hex_text, is_hex_digit, hex_value, even_digits, to_string_16,
  hex_digits, pair_bytes,
}
use corebc_js.Utils.Data.Hex.{IsBytes}
use corebc_js.Utils.Data.Slices.{arrayify, arrayify_text, strip_zeros, drop_zeros}
use corebc_js.Utils.Data.Texts.{byte_digits-IsPlain, digit_pairs}
use corebc_js.Utils.Data.Pad.{is_bytes-IsBytes}
use corebc_js.Utils.Rlp.{leaf}
use corebc_js.Utils.Rlp.Lengths.{be_value}
use corebc_js.Utils.Maths.{be_array}
use corebc_js.Utils.Maths.BigEndian.{
  be_array-Spelling, to_string_16-digits, to_string_16-hex_digits, hex_of_bytes,
}
use corebc_js.Utils.Rlp.RoundTrip.{nibble_text-byte_digits}
use corebc_js.Address.{text_eq}
use corebc_js.Transaction.Serialize.{numeric_field, bigint_field}
use corebc_js.Transaction.Parse.{handle_number}
use corebc_js.Common.{
  ℕ, suc, ◌%◌, arith, ◌≡◌, ◌∙◌, ap, inl, inr, true, false, Text, ◌==◌, ==_iff, Bool-cases, length,
  all, ok, zero, ◌*◌, ◌^◌, ◌≤◌, ◌<◌, refl, sym, List, [], ◌∷◌, le→leb, ◌>>=◌,
}

-- The padding of the option does nothing to a bigint, whose text is even already.
padded_digits :
    (s : Text)
    → all is_hex_digit s ≡ true
    → (all is_hex_digit (even_digits s) ≡ true) × (length (even_digits s) % 2 ≡ 0)
padded_digits s h = elim (Bool-cases (length s % 2 == 0)) [
  | inl e ↦ rw e (h, (==_iff (length s % 2) 0).0 e)
  | inr e ↦ rw e (h, omega (arith, (==_iff (length s % 2) 0).1, odd_length (length s) e))
]
  where
    odd_length : (n : ℕ) → (n % 2 == 0) ≡ false → suc n % 2 ≡ 0
    odd_length n e = ground arith

be_array-pair_bytes : (n : ℕ) → 0 < n → be_array n ≡ pair_bytes (even_digits (to_string_16 n))
unfolding be_array
be_array-pair_bytes n h = elim (Bool-cases (n == 0)) [ inl e ↦ ground arith | inr e ↦ rw e refl ]

arrayify-hexlify_bigint :
    (n : ℕ) → 0 < n → arrayify no_options (string (hexlify_bigint n)) ≡ ok (be_array n)
unfolding arrayify arrayify_text hexlify_bigint is_hex_text add_prefix
arrayify-hexlify_bigint n h =
    let (d, v) = to_string_16-digits n in
    let (all_hex, even) = padded_digits (to_string_16 n) d in
    let (pairs, parsed) = digit_pairs (even_digits (to_string_16 n)) all_hex even in
    rw all_hex (rw even (ap ok (parsed ∙ sym (be_array-pair_bytes n h))))

length-pair_bytes : (s : Text) → length (pair_bytes s) * 2 ≤ length s
unfolding pair_bytes
length-pair_bytes [] = omega arith
length-pair_bytes (c ∷ []) = omega arith
length-pair_bytes (c ∷ d ∷ s) = omega (arith, length-pair_bytes s)

length-hex_digits : (n : ℕ) → n < 2 ^ 256 → length (hex_digits n) ≤ 64
unfolding hex_digits
length-hex_digits n h = length-digits 16 _ hex_char 64 n [] h

length-even_digits : (s : Text) → length s ≤ 64 → length (even_digits s) ≤ 64
length-even_digits s h = elim (Bool-cases (length s % 2 == 0)) [
  | inl e ↦ rw e h
  | inr e ↦ rw e (below (length s) h e)
]
  where
    below : (n : ℕ) → n ≤ 64 → (n % 2 == 0) ≡ false → suc n ≤ 64
    below n h e = ground arith

pub length-be_array : (n : ℕ) → 0 < n → n < 2 ^ 256 → length (be_array n) ≤ 32
length-be_array n h b =
    let s = even_digits (to_string_16 n) in
    let t : length (to_string_16 n) ≤ 64 =
      omega (arith, ap length (to_string_16-hex_digits n h), length-hex_digits n b) in
    omega (
      arith,
      ap length (be_array-pair_bytes n h),
      length-pair_bytes s,
      length-even_digits (to_string_16 n) t,
    )

strip_zeros-be_array : (n : ℕ) → strip_zeros (bytes (be_array n)) ≡ ok (be_array n)
unfolding strip_zeros arrayify
strip_zeros-be_array n =
    let (b, v, z) = be_array-Spelling n in rw (is_bytes-IsBytes (be_array n) b) (ap ok z)

pub hexlify-array :
    (to_byte : Text → ℕ) (v : List ℕ)
    → IsBytes v
    → hexlify to_byte no_options (array v) ≡ ok (hexlify_bytes v)
unfolding hexlify
hexlify-array to_byte v h = rw (is_bytes-IsBytes v h) refl

numeric_field-bigint :
    (to_byte : Text → ℕ) (n : ℕ)
    → 0 < n
    → n < 2 ^ 256
    → numeric_field to_byte (bigint n) ≡ ok (leaf (hexlify_bytes (be_array n)))
unfolding numeric_field hexlify
numeric_field-bigint to_byte n h b =
    let (hb, v, z) = be_array-Spelling n in
    rw (arrayify-hexlify_bigint n h) (
      rw (strip_zeros-be_array n) (
        rw (le→leb (length (be_array n)) 32 (length-be_array n h b))
          (rw (is_bytes-IsBytes (be_array n) hb) refl)))

bytes_read :
    (v : List ℕ)
    → IsBytes v
    → 0 < be_value v
    → handle_number (leaf (hexlify_bytes v)) ≡ ok (pos (be_value v))
unfolding handle_number is_hex_text hexlify_bytes text_eq byte_digits
bytes_read [] h p = absurd (omega arith)
bytes_read (b ∷ v) h p =
    let plain = byte_digits-IsPlain (b ∷ v) h in
    rw plain.digits_only (
      ap (λ t. ok (pos (of_digits 16 hex_value 0 t))) (sym (nibble_text-byte_digits (b ∷ v) h))
      ∙ ap (λ t. ok (pos t)) (hex_of_bytes 0 (b ∷ v) h))

zero_field : (to_byte : Text → ℕ) → (bigint_field to_byte (pos 0) >>= handle_number) ≡ ok (pos 0)
unfolding numeric_field handle_number hexlify hexlify_bytes arrayify strip_zeros drop_zeros text_eq
zero_field to_byte = refl

-- Every number below 2 ^ 256 that `serialize` writes in a field of at most 32 bytes, `parse` reads
-- back from it.
pub handle_number-bigint_field :
    (to_byte : Text → ℕ) (n : ℕ)
    → n < 2 ^ 256
    → (bigint_field to_byte (pos n) >>= handle_number) ≡ ok (pos n)
handle_number-bigint_field to_byte zero b = zero_field to_byte
handle_number-bigint_field to_byte (suc n) b =
    let (hb, v, z) = be_array-Spelling (suc n) in
    ap (λ m. m >>= handle_number) (numeric_field-bigint to_byte (suc n) (omega arith) b)
    ∙ bytes_read (be_array (suc n)) hb (omega (arith, v))
    ∙ ap (λ t. ok (pos t)) v
