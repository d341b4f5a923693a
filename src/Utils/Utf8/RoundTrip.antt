-- ===== src/Utils/Utf8/RoundTrip.antt =====
-- Texts of Unicode scalar values through `toUtf8Bytes` and `toUtf8String` of src.ts/utils/utf8.ts.
use corebc_js.Utils.Data.{bytes, get_bytes}
use corebc_js.Utils.Utf8.{
  points_loop, get_utf8_code_points, Utf8ErrorFunc, unit_bytes, four_bytes, pair_point, is_high,
  is_low, to_utf8_bytes, point_units, units_of, to_utf8_string,
}
use corebc_js.Utils.Utf8.Points.{
  IsScalar, point_bytes, points_bytes, Reads, read_one, read_two, read_three, read_four,
}
use corebc_js.Common.{
  ℕ, zero, suc, ◌+◌, ◌-◌, ◌/◌, ◌%◌, ◌≤◌, ◌<◌, arith, ◌≡◌, refl, sym, ◌∙◌, ap, inl, inr, true, false,
  List, [], ◌∷◌, ◌++◌, append-nil, append_assoc, Text, ltb, leb, ltb→lt, le→ltb, ltb→le, leb→le,
  Bool-cases, length, All, length-append, get_elem?-none, ◌>>=◌, ok,
}
use mathlib.Core.Path.{ap₂}

read_unit : (p : ℕ) → p ≤ 0xffff → IsScalar p → Reads p (unit_bytes p)
read_unit p small scalar = elim (Bool-cases (ltb p 0x80)) [
  | inl e ↦ rw e (read_one p (ltb→lt p 0x80 e))
  | inr e ↦ elim (Bool-cases (ltb p 0x800)) [
    | inl g ↦ rw e (rw g (read_two p (ltb→le p 0x80 e) (ltb→lt p 0x800 g)))
    | inr g ↦ rw e (rw g (read_three p (ltb→le p 0x800 g) (omega arith) scalar))
  ]
]

pub read_point : (p : ℕ) → IsScalar p → Reads p (point_bytes p)
read_point p scalar = elim (Bool-cases (leb p 0xffff)) [
  | inl e ↦ rw e (read_unit p (leb→le p 0xffff e) scalar)
  | inr e ↦ rw e (read_four p (ground arith) scalar.0)
]

length-point_bytes : (p : ℕ) → 1 ≤ length (point_bytes p)
length-point_bytes p = ground arith

loop_end :
    (on_error : Utf8ErrorFunc) (f : ℕ) (v out : List ℕ) (i : ℕ)
    → i ≡ length v
    → points_loop on_error f v i out ≡ ok out
unfolding points_loop
loop_end on_error zero v out i h = rw (le→ltb i (length v) (omega arith)) refl
loop_end on_error (suc f) v out i h = rw (get_elem?-none v i (omega arith), points_loop) refl

points_loop-points_bytes :
    (on_error : Utf8ErrorFunc) (ps : List ℕ) (f : ℕ) (front out : List ℕ)
    → All IsScalar ps
    → length (points_bytes ps) ≤ f
    → points_loop on_error f (front ++ points_bytes ps) (length front) out ≡ ok (out ++ ps)
points_loop-points_bytes on_error [] f front out h enough =
    loop_end on_error f (front ++ []) out (length front) (ap length (sym (append-nil front)))
    ∙ ap ok (sym (append-nil out))
points_loop-points_bytes on_error (p ∷ ps) zero front out h enough =
    absurd (omega (arith, length-append (point_bytes p) (points_bytes ps), length-point_bytes p))
points_loop-points_bytes on_error (p ∷ ps) (suc f) front out (hp, hps) enough =
    let b = point_bytes p in
    let rest = points_bytes ps in
    read_point p hp on_error front rest out f
    ∙ ap₂ (λ v i. points_loop on_error f v i (out ++ p ∷ [])) (sym (append_assoc front b rest))
        (sym (length-append front b))
    ∙ points_loop-points_bytes on_error ps f (front ++ b) (out ++ p ∷ []) hps
        (omega (arith, length-append b rest, length-point_bytes p))
    ∙ ap ok (append_assoc out (p ∷ []) ps)

unit_first :
    (c : ℕ) (s : Text)
    → is_high c ≡ false
    → to_utf8_bytes (c ∷ s) ≡ (to_utf8_bytes s >>= λ v. ok (unit_bytes c ++ v))
unfolding to_utf8_bytes
unit_first c [] h = rw h (ap ok (sym (append-nil (unit_bytes c))))
unit_first c (d ∷ s) h = rw h refl

pair_first :
    (c d : ℕ) (s : Text)
    → is_high c ≡ true
    → is_low d ≡ true
    → to_utf8_bytes (c ∷ d ∷ s) ≡ (to_utf8_bytes s >>= λ v. ok (four_bytes (pair_point c d) ++ v))
unfolding to_utf8_bytes
pair_first c d s h k = rw h (rw k refl)

scalar_low : (p : ℕ) → IsScalar p → is_high p ≡ false
scalar_low p (top, inl h) = ground arith
scalar_low p (top, inr h) = ground arith

pair_back :
    (p : ℕ)
    → 0xffff < p
    → p ≤ 0x10ffff
    → pair_point (0xd800 + (p - 0x10000) / 1024 % 1024) (0xdc00 + (p - 0x10000) % 1024) ≡ p
pair_back p lo hi = omega arith

high_half : (q : ℕ) → q < 1024 → is_high (0xd800 + q) ≡ true
high_half q h = ground arith

low_half : (q : ℕ) → q < 1024 → is_low (0xdc00 + q) ≡ true
low_half q h = ground arith

point_first :
    (p : ℕ) (s : Text)
    → IsScalar p
    → to_utf8_bytes (point_units p ++ s) ≡ (to_utf8_bytes s >>= λ v. ok (point_bytes p ++ v))
point_first p s scalar = elim (Bool-cases (leb p 0xffff)) [
  | inl e ↦ rw e (unit_first p s (scalar_low p scalar))
  | inr e ↦
      let q = p - 0x10000 in
      rw e (
        pair_first (0xd800 + q / 1024 % 1024) (0xdc00 + q % 1024) s
          (high_half (q / 1024 % 1024) (omega arith)) (low_half (q % 1024) (omega arith))
        ∙ ap (λ t. to_utf8_bytes s >>= λ v. ok (four_bytes t ++ v))
            (pair_back p (ground arith) scalar.0))
]

pub to_utf8_bytes-units_of :
    (ps : List ℕ) → All IsScalar ps → to_utf8_bytes (units_of ps) ≡ ok (points_bytes ps)
unfolding units_of to_utf8_bytes
to_utf8_bytes-units_of [] h = refl
to_utf8_bytes-units_of (p ∷ ps) (hp, h) =
    point_first p (units_of ps) hp
    ∙ ap (λ m. m >>= λ v. ok (point_bytes p ++ v)) (to_utf8_bytes-units_of ps h)

-- The UTF-16 text of Unicode scalar values is written by `toUtf8Bytes` without an error, and
-- `getUtf8CodePoints` reads the values back, `toUtf8String` the text, whatever the error function.
pub to_utf8_string-to_utf8_bytes :
    (on_error : Utf8ErrorFunc) (ps : List ℕ)
    → All IsScalar ps
    → (v : List ℕ) × (to_utf8_bytes (units_of ps) ≡ ok v)
      × (get_utf8_code_points on_error (bytes v) ≡ ok ps)
      × (to_utf8_string on_error (bytes v) ≡ ok (units_of ps))
unfolding get_utf8_code_points get_bytes to_utf8_string
to_utf8_string-to_utf8_bytes on_error ps h =
    let v = points_bytes ps in
    let e = points_loop-points_bytes on_error ps (length v) [] [] h (omega arith) in
    (v, to_utf8_bytes-units_of ps h, e, ap (λ m. m >>= λ qs. ok (units_of qs)) e)
