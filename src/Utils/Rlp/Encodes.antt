-- ===== src/Utils/Rlp/Encodes.antt =====
-- src.ts/utils/rlp-encode.ts returns an encoding for all data, and it is read back.
use corebc_js.Utils.Data.{text, get_bytes, is_data_text, pair_bytes}
use corebc_js.Utils.Rlp.{
  Structured, Items, leaf, list, no_items, item, encode, encode_items, encode_array, encode_data,
  arrayify_integer, encode_rlp, decode_rlp,
}
use corebc_js.Utils.Rlp.Lengths.{arrayify_integer-Spells}
use corebc_js.Utils.Rlp.RoundTrip.{lower, decode_rlp-encode_rlp}
use corebc_js.Common.{
  ℕ, ◌+◌, ◌^◌, ◌≤◌, ◌<◌, arith, ◌≡◌, refl, inl, inr, Bool, true, ◌&&◌, List, [], ◌∷◌, ◌++◌, Text,
  leb, ◌==◌, Bool-cases, &&-left, &&-right, length, get_or, drop, length-append, length-drop,
  Result, ◌>>=◌, ok,
}

-- Every leaf is a text of binary data.
unfoldable mutual
  pub is_data : Structured → Bool
  is_data (leaf s) = is_data_text s
  is_data (list xs) = is_data_items xs

  pub is_data_items : Items → Bool
  is_data_items no_items = true
  is_data_items (item x xs) = is_data x && is_data_items xs

-- A bound on the bytes of an encoding: five for each header, and the characters of the texts.
unfoldable mutual
  pub size : Structured → ℕ
  size (leaf s) = 5 + length s
  size (list xs) = 5 + size_items xs

  pub size_items : Items → ℕ
  size_items no_items = 0
  size_items (item x xs) = size x + size_items xs

abbrev pub Encodes : Result (List ℕ) → ℕ → Type 0
Encodes r n = (v : List ℕ) × (r ≡ ok v) × (length v ≤ n)

header_total :
    (long : ℕ) (p : List ℕ)
    → length p < 2 ^ 31
    → Encodes
        (arrayify_integer (length p) >>= λ n. ok ((long + length n) ∷ (n ++ p)))
        (5 + length p)
header_total long p h =
    let (s, e, sp) = arrayify_integer-Spells (length p) h in
    ((long + length s) ∷ (s ++ p), rw e, omega (arith, sp.small, length-append {0} s p))

encode_array_total : (p : List ℕ) → length p < 2 ^ 31 → Encodes (encode_array p) (5 + length p)
unfolding encode_array
encode_array_total p h = elim (Bool-cases (leb (length p) 55)) [
  | inl short ↦ ((0xc0 + length p) ∷ p, rw short, omega arith)
  | inr long ↦ rw long (header_total 0xf7 p h)
]

encode_data_total : (p : List ℕ) → length p < 2 ^ 31 → Encodes (encode_data p) (5 + length p)
unfolding encode_data
encode_data_total p h = elim (Bool-cases (length p == 1 && leb (get_or p 0 0) 0x7f)) [
  | inl one ↦ (p, rw one, omega arith)
  | inr more ↦ elim (Bool-cases (leb (length p) 55)) [
    | inl short ↦ ((0x80 + length p) ∷ p, rw (more, short), omega arith)
    | inr long ↦ rw (more, long) (header_total 0xb7 p h)
  ]
]

length-pair_bytes : (s : Text) → length (pair_bytes s) ≤ length s
unfolding pair_bytes
length-pair_bytes [] = omega arith
length-pair_bytes (c ∷ []) = omega arith
length-pair_bytes (c ∷ d ∷ s) = omega (arith, length-pair_bytes s)

get_bytes_total : (s : Text) → is_data_text s ≡ true → Encodes (get_bytes (text s)) (length s)
unfolding get_bytes
get_bytes_total s h =
    (pair_bytes (drop 2 s), rw h, omega (arith, length-pair_bytes (drop 2 s), length-drop {0} 2 s))

chain_total :
    {r : Result (List ℕ)} {f : List ℕ → Result (List ℕ)} {n m : ℕ}
    → Encodes r n
    → ((v : List ℕ) → length v ≤ n → Encodes (f v) m)
    → Encodes (r >>= f) m
chain_total (v, e, h) k = rw e (k v h)

mutual
  unfolding encode size is_data

  pub encode_total_lem :
      (x : Structured) → is_data x ≡ true → size x < 2 ^ 31 → Encodes (encode x) (size x)
  encode_total_lem (leaf s) d h =
      chain_total (get_bytes_total s d)
        λ v hv. let (w, e, hw) = encode_data_total v (omega arith) in (w, e, omega arith)
  encode_total_lem (list xs) d h =
      chain_total (encode_items_total xs d (omega arith))
        λ v hv. let (w, e, hw) = encode_array_total v (omega arith) in (w, e, omega arith)

  encode_items_total :
      (xs : Items)
      → is_data_items xs ≡ true
      → size_items xs < 2 ^ 31
      → Encodes (encode_items xs) (size_items xs)
  encode_items_total no_items d h = ([], refl, omega arith)
  encode_items_total (item x xs) d h =
      chain_total (encode_total_lem x (&&-left (is_data x) (is_data_items xs) d) (omega arith))
        λ v hv.
          chain_total
            (encode_items_total xs (&&-right (is_data x) (is_data_items xs) d) (omega arith))
            λ w hw. (v ++ w, refl, omega (arith, length-append {0} v w))

-- All data whose leaves are texts of binary data, and whose size stays below 2 ^ 31, are encoded
-- without an error, and their encoding decodes to them, each text in lower case.
pub rlp_round_trip :
    (x : Structured)
    → is_data x ≡ true
    → size x < 2 ^ 31
    → (encode_rlp x >>= decode_rlp) ≡ ok (lower x)
rlp_round_trip x d h =
    let (v, e, hv) = encode_total_lem x d h in decode_rlp-encode_rlp x v e (omega arith)
