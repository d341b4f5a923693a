-- ===== src/Utils/Rlp/Steps.antt =====
-- One step of `_decode` of src.ts/utils/rlp-decode.ts, branch by branch.
use corebc_js.Utils.Data.{hexlify_bytes}
use corebc_js.Utils.Rlp.{
  Structured, leaf, unarrayify_integer, hexlify_byte, decode_byte, decode_step,
}
use corebc_js.Common.{
  ℕ, ◌+◌, ◌-◌, ◌≤◌, ◌<◌, arith, ◌≡◌, inl, inr, some, List, ◌==◌, le→leb, lt→leb, ==_iff, Bool-cases,
  length, get_elem?, slice, get_elem?-none, Result, ok,
}

module _ (children : ℕ → ℕ → Result (Structured × ℕ)) (v : List ℕ) (o : ℕ) where
  pub decode_step-byte :
      (b : ℕ) → get_elem? v o ≡ some b → decode_step children v o ≡ decode_byte children v o b
  unfolding decode_step
  decode_step-byte b e = elim (Bool-cases (length v == 0)) [
    | inl z ↦ cc (e, get_elem?-none v o (omega (arith, (==_iff (length v) 0).0 z)))
    | inr n ↦ rw (n, e)
  ]

  pub single_byte : (b : ℕ) → b < 0x80 → decode_byte children v o b ≡ ok (leaf (hexlify_byte b), 1)
  unfolding decode_byte
  single_byte b h = ground arith

  pub short_data :
      (b : ℕ)
      → 0x80 ≤ b
      → b < 0xb8
      → o + 1 + (b - 0x80) ≤ length v
      → decode_byte children v o b
        ≡ ok (leaf (hexlify_bytes (slice (o + 1) (o + 1 + (b - 0x80)) v)), 1 + (b - 0x80))
  unfolding decode_byte
  short_data b lo hi fits = rw (
    lt→leb 0xf8 b (omega arith),
    lt→leb 0xc0 b (omega arith),
    lt→leb 0xb8 b hi,
    le→leb 0x80 b lo,
    le→leb (o + 1 + (b - 0x80)) (length v) fits,
  )

  pub long_data :
      (b n : ℕ)
      → 0xb8 ≤ b
      → b < 0xc0
      → unarrayify_integer v (o + 1) (b - 0xb7) ≡ n
      → o + 1 + (b - 0xb7) + n ≤ length v
      → decode_byte children v o b
        ≡ ok (
          leaf (hexlify_bytes (slice (o + 1 + (b - 0xb7)) (o + 1 + (b - 0xb7) + n) v)),
          1 + (b - 0xb7) + n,
        )
  unfolding decode_byte
  long_data b n lo hi e fits = rw (
    lt→leb 0xf8 b (omega arith),
    lt→leb 0xc0 b hi,
    le→leb 0xb8 b lo,
    e,
    le→leb (o + 1 + (b - 0xb7)) (length v) (omega arith),
    le→leb (o + 1 + (b - 0xb7) + n) (length v) fits,
  )

  pub short_array :
      (b : ℕ)
      → 0xc0 ≤ b
      → b < 0xf8
      → o + 1 + (b - 0xc0) ≤ length v
      → decode_byte children v o b ≡ children (o + 1) (b - 0xc0)
  unfolding decode_byte
  short_array b lo hi fits =
      rw (lt→leb 0xf8 b hi, le→leb 0xc0 b lo, le→leb (o + 1 + (b - 0xc0)) (length v) fits)

  pub long_array :
      (b n : ℕ)
      → 0xf8 ≤ b
      → unarrayify_integer v (o + 1) (b - 0xf7) ≡ n
      → o + 1 + (b - 0xf7) + n ≤ length v
      → decode_byte children v o b ≡ children (o + 1 + (b - 0xf7)) (b - 0xf7 + n)
  unfolding decode_byte
  long_array b n lo e fits = rw (
    le→leb 0xf8 b lo,
    e,
    le→leb (o + 1 + (b - 0xf7)) (length v) (omega arith),
    le→leb (o + 1 + (b - 0xf7) + n) (length v) fits,
  )
