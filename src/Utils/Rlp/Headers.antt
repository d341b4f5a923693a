-- ===== src/Utils/Rlp/Headers.antt =====
-- The headers that src.ts/utils/rlp-encode.ts writes, as src.ts/utils/rlp-decode.ts reads them.
use corebc_js.Common.Bits.{all_below, all_below_sound}
use corebc_js.Utils.Data.{to_string_16, hexlify_bytes}
use corebc_js.Utils.Rlp.{
  Structured, leaf, encode_array, encode_data, arrayify_integer, unarrayify_integer, hexlify_byte,
  decode_byte, decode_step,
}
use corebc_js.Utils.Rlp.Steps.{decode_step-byte, short_data, long_data, short_array, long_array}
use corebc_js.Utils.Rlp.Lengths.{Spells, arrayify_integer_lem, unarrayify_integer-append}
use corebc_js.Common.{
  ℕ, ◌+◌, ◌≤◌, ◌<◌, ◌≡◌, sym, inl, inr, List, [], ◌∷◌, ◌++◌, leb, leb→le, Bool-cases, length,
  ok-injective, ok, arith, refl, ◌⊎◌, Bool, true, false, ◌&&◌, Text, ◌==◌, ==_iff, &&-left,
  &&-right, get_or, ◌>>=◌, >>=-eq-ok, ◌-◌, ◌^◌, ◌∙◌, ap, append_assoc, slice, length-append,
  slice-append, length_three, regroup, Result, get_elem?-append,
}
use mathlib.Core.Path.{ap₂}

unfoldable pub same_text : Text → Text → Bool
same_text [] [] = true
same_text (c ∷ s) (d ∷ t) = c == d && same_text s t
same_text _ _ = false

pub same_text→eq : (s t : Text) → same_text s t ≡ true → s ≡ t
unfolding same_text
same_text→eq [] [] h = refl
same_text→eq [] (d ∷ t) h = cc
same_text→eq (c ∷ s) [] h = cc
same_text→eq (c ∷ s) (d ∷ t) h =
    ap₂ (λ x r. x ∷ r) ((==_iff c d).0 (&&-left _ _ h)) (same_text→eq s t (&&-right _ _ h))

single_table : all_below 128 (λ b. same_text (hexlify_byte b) (hexlify_bytes (b ∷ []))) ≡ true
unfolding all_below same_text hexlify_byte to_string_16 hexlify_bytes
single_table = refl

pub hexlify_byte-bytes : (b : ℕ) → b < 128 → hexlify_byte b ≡ hexlify_bytes (b ∷ [])
hexlify_byte-bytes b h = same_text→eq _ _ (
    all_below_sound 128 (λ c. same_text (hexlify_byte c) (hexlify_bytes (c ∷ []))) b single_table h)

-- What stands before the payload: a byte, and the bytes of the length where it is above 55.
pub data Header (short long n : ℕ) (h : List ℕ) : Type 0 where
  brief : n ≤ 55 → h ≡ (short + n) ∷ [] → Header short long n h
  full :
      (s : List ℕ)
      → 55 < n
      → arrayify_integer n ≡ ok s
      → h ≡ (long + length s) ∷ s
      → Header short long n h

abbrev pub Headed : ℕ → ℕ → List ℕ → List ℕ → Type 0
Headed short long p v = (h : List ℕ) × Header short long (length p) h × (v ≡ h ++ p)

full_header :
    (short long : ℕ) (p : List ℕ) {v : List ℕ}
    → 55 < length p
    → (arrayify_integer (length p) >>= λ n. ok ((long + length n) ∷ (n ++ p))) ≡ ok v
    → Headed short long p v
full_header short long p {v} h e =
    let (s, es, ev) =
      >>=-eq-ok (arrayify_integer (length p)) (λ n. ok ((long + length n) ∷ (n ++ p))) e in
    ((long + length s) ∷ s, full s h es refl, sym (ok-injective ev))

pub encode_array-Headed : (p : List ℕ) {v : List ℕ} → encode_array p ≡ ok v → Headed 0xc0 0xf7 p v
unfolding encode_array
encode_array-Headed p {v} e = elim (Bool-cases (leb (length p) 55)) [
  | inl short ↦
      ((0xc0 + length p) ∷ [], brief (leb→le _ _ short) refl, sym (ok-injective (rw short at e)))
  | inr long ↦ full_header 0xc0 0xf7 p (ground arith) (rw long at e)
]

pub encode_data-Headed :
    (p : List ℕ) {v : List ℕ}
    → encode_data p ≡ ok v
    → ((b : ℕ) × (p ≡ b ∷ []) × (b < 128) × (v ≡ p)) ⊎ Headed 0x80 0xb7 p v
unfolding encode_data
encode_data-Headed p {v} e = elim (Bool-cases (length p == 1 && leb (get_or p 0 0) 0x7f)) [
  | inl one ↦ inl (single p one (ok-injective (rw one at e)))
  | inr more ↦ inr (elim (Bool-cases (leb (length p) 55)) [
    | inl short ↦ (
      (0x80 + length p) ∷ [],
      brief (leb→le _ _ short) refl,
      sym (ok-injective (rw (more, short) at e)),
    )
    | inr long ↦ full_header 0x80 0xb7 p (ground arith) (rw (more, long) at e)
  ])
]
  where
    single :
        (p : List ℕ)
        → (length p == 1 && leb (get_or p 0 0) 0x7f) ≡ true
        → p ≡ v
        → (b : ℕ) × (p ≡ b ∷ []) × (b < 128) × (v ≡ p)
    single [] h q = cc
    single (b ∷ []) h q = (b, refl, ground arith, sym q)
    single (b ∷ c ∷ r) h q = absurd (ground arith)

-- The encoding `header ++ part` behind `front`, read from its first byte.
module _ (children : ℕ → ℕ → Result (Structured × ℕ)) (front part rest : List ℕ) where
  abbrev at_header : List ℕ → Result (Structured × ℕ)
  at_header h = decode_step children (front ++ ((h ++ part) ++ rest)) (length front)

  data_slice :
      (h : List ℕ) (i j : ℕ)
      → i ≡ length front + length h
      → j ≡ i + length part
      → slice i j (front ++ ((h ++ part) ++ rest)) ≡ part
  data_slice h i j e g =
      ap (slice i j) (regroup front h part rest)
      ∙ slice-append (front ++ h) part rest i j (omega (arith, length-append {0} front h))
          (omega (arith, length-append {0} front h))

  total_length :
      (h : List ℕ)
      → length (front ++ ((h ++ part) ++ rest))
        ≡ length front + length h + length part + length rest
  total_length h = omega (arith, length_three {0} front (h ++ part) rest, length-append {0} h part)

  be_length :
      (b : ℕ) (s : List ℕ) (o : ℕ)
      → Spells (length part) s
      → o ≡ length front + 1
      → unarrayify_integer (front ++ (((b ∷ s) ++ part) ++ rest)) o (length s) ≡ length part
  be_length b s o sp e =
      ap (λ t. unarrayify_integer t o (length s))
        (regroup front (b ∷ []) (s ++ part) rest
          ∙ ap (λ t. (front ++ b ∷ []) ++ t) (append_assoc s part rest))
      ∙ unarrayify_integer-append (front ++ b ∷ []) s (part ++ rest) o
          (omega (arith, length-append {0} front (b ∷ [])))
      ∙ sp.value

  header_byte :
      (b : ℕ) (s : List ℕ)
      → at_header (b ∷ s)
        ≡ decode_byte children (front ++ (((b ∷ s) ++ part) ++ rest)) (length front) b
  header_byte b s =
      decode_step-byte children _ (length front) b
        (get_elem?-append front b ((s ++ part) ++ rest) (length front) refl)

  abbrev found : List ℕ → ℕ → Result (Structured × ℕ)
  found p n = ok (leaf (hexlify_bytes p), n)

  data_result :
      (h : List ℕ) (i j n : ℕ)
      → i ≡ length front + length h
      → j ≡ i + length part
      → n ≡ length h + length part
      → found (slice i j (front ++ ((h ++ part) ++ rest))) n ≡ found part (length (h ++ part))
  data_result h i j n e g k =
      ap₂ found (data_slice h i j e g) (omega (arith, length-append {0} h part))

  pub decode_step-data :
      (h : List ℕ)
      → length part < 2 ^ 31
      → Header 0x80 0xb7 (length part) h
      → at_header h ≡ ok (leaf (hexlify_bytes part), length (h ++ part))
  decode_step-data h small (brief short e) =
      let b = 0x80 + length part in
      rw e (
        header_byte b []
        ∙ short_data children _ (length front) b (omega arith) (omega arith)
            (omega (arith, total_length (b ∷ [])))
        ∙ data_result (b ∷ []) _ _ _ (omega arith) (omega arith) (omega arith))
  decode_step-data h small (full s long es e) =
      let b = 0xb7 + length s in
      let (sp, one) = arrayify_integer_lem (length part) s (omega arith) small es in
      let size : b - 0xb7 ≡ length s = omega arith in
      rw e (
        header_byte b s
        ∙ long_data children _ (length front) b (length part) (omega arith)
            (omega (arith, sp.small))
            (ap (unarrayify_integer _ (length front + 1)) size
              ∙ be_length b s (length front + 1) sp refl)
            (omega (arith, total_length (b ∷ s)))
        ∙ data_result (b ∷ s) _ _ _ (omega arith) (omega arith) (omega arith))

  pub decode_step-array :
      (h : List ℕ)
      → length part < 2 ^ 31
      → Header 0xc0 0xf7 (length part) h
      → at_header h ≡ children (length front + length h) (length (h ++ part) - 1)
  decode_step-array h small (brief short e) =
      let b = 0xc0 + length part in
      rw e (
        header_byte b []
        ∙ short_array children _ (length front) b (omega arith) (omega arith)
            (omega (arith, total_length (b ∷ [])))
        ∙ ap₂ children (omega arith) (omega arith))
  decode_step-array h small (full s long es e) =
      let b = 0xf7 + length s in
      let (sp, one) = arrayify_integer_lem (length part) s (omega arith) small es in
      let size : b - 0xf7 ≡ length s = omega arith in
      rw e (
        header_byte b s
        ∙ long_array children _ (length front) b (length part) (omega arith)
            (ap (unarrayify_integer _ (length front + 1)) size
              ∙ be_length b s (length front + 1) sp refl)
            (omega (arith, total_length (b ∷ s)))
        ∙ ap₂ children (omega arith) (omega (arith, length-append {0} s part)))
