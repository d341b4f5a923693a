-- ===== src/Utils/Utf8/Points.antt =====
-- Unicode scalar values through src.ts/utils/utf8.ts: to bytes and back.
use corebc_js.Utils.Utf8.{
  single, extra, lead_of, read_extra, check_point, point_step, points_loop, Utf8ErrorFunc,
  unit_bytes, four_bytes,
}
use corebc_js.Common.{
  ℕ, suc, ◌+◌, ◌/◌, ◌%◌, ◌≤◌, ◌<◌, ◌≡◌, ◌⊎◌, List, [], ◌∷◌, ◌++◌, leb, if◌then◌else◌, length, ◌-◌,
  ◌*◌, ◌^◌, arith, refl, ◌∙◌, ap, inl, inr, some, le→ltb, lt→leb, ==_iff, get_elem?, get_or,
  length-append, get_elem?-append, get_or-shift, ok,
}
use mathlib.Core.Path.{ap₂}

-- A code point that is no half of a pair.
abbrev pub IsScalar : ℕ → Type 0
IsScalar p = (p ≤ 0x10ffff) × ((p < 0xd800) ⊎ (0xe000 ≤ p))

-- The UTF-8 of a code point, and of a list of such.
abbrev pub point_bytes : ℕ → List ℕ
point_bytes p = if leb p 0xffff then unit_bytes p else four_bytes p

abbrev pub points_bytes : List ℕ → List ℕ
points_bytes [] = []
points_bytes (p ∷ ps) = point_bytes p ++ points_bytes ps

-- Behind a prefix, one round reads one code point.
abbrev pub Reads : ℕ → List ℕ → Type 0
Reads p enc =
    (on_error : Utf8ErrorFunc) (front rest out : List ℕ) (f : ℕ)
    → points_loop on_error (suc f) (front ++ (enc ++ rest)) (length front) out
      ≡ points_loop on_error f (front ++ (enc ++ rest)) (length front + length enc) (out ++ p ∷ [])

loop_step :
    (on_error : Utf8ErrorFunc) (f : ℕ) (v : List ℕ) (i c j : ℕ) (out out' : List ℕ)
    → get_elem? v i ≡ some c
    → point_step on_error (lead_of c) c v out (i + 1) ≡ ok (out', j)
    → points_loop on_error (suc f) v i out ≡ points_loop on_error f v j out'
unfolding points_loop
loop_step on_error f v i c j out out' e g = rw (e, points_loop) (rw g refl)

continue_step :
    (n : ℕ) (v : List ℕ) (i res b : ℕ)
    → get_or v i 0 ≡ b
    → b / 64 ≡ 2
    → read_extra (suc n) v i res ≡ read_extra n v (i + 1) (res * 64 + b % 64)
unfolding read_extra
continue_step n v i res b e h = rw e (rw ((==_iff (b / 64) 2).1 h) refl)

check_point-IsScalar :
    (on_error : Utf8ErrorFunc) (n mask p : ℕ) (v out : List ℕ) (i : ℕ)
    → IsScalar p
    → mask < p
    → check_point on_error n mask p v out i ≡ ok (out ++ p ∷ [], i)
unfolding check_point
check_point-IsScalar on_error n mask p v out i (top, inl low) h =
    rw (le→ltb 0x10ffff p top) (rw (lt→leb 0xd800 p low) (rw (lt→leb p mask h) refl))
check_point-IsScalar on_error n mask p v out i (top, inr high) h =
    rw (le→ltb 0x10ffff p top)
      (rw (lt→leb p 0xdfff (omega arith)) (rw (lt→leb p mask h) (ground arith)))

extra_step :
    (on_error : Utf8ErrorFunc) (n mask c p : ℕ) (v out : List ℕ) (i j : ℕ)
    → i - 1 + n < length v
    → read_extra n v i (c % 2 ^ (7 - n)) ≡ (some p, j)
    → IsScalar p
    → mask < p
    → point_step on_error (extra n mask) c v out i ≡ ok (out ++ p ∷ [], j)
unfolding point_step
extra_step on_error n mask c p v out i j fits e scalar h =
    rw (lt→leb (length v) (i - 1 + n) fits)
      (rw e (check_point-IsScalar on_error n mask p v out j scalar h))

lead_one : (p : ℕ) → p < 0x80 → lead_of p ≡ single
unfolding lead_of
lead_one p h = ground arith

lead_two : (q : ℕ) → q < 32 → lead_of (0xc0 + q) ≡ extra 1 0x7f
unfolding lead_of
lead_two q h = ground arith

lead_three : (q : ℕ) → q < 16 → lead_of (0xe0 + q) ≡ extra 2 0x7ff
unfolding lead_of
lead_three q h = ground arith

lead_four : (q : ℕ) → q < 8 → lead_of (0xf0 + q) ≡ extra 3 0xffff
unfolding lead_of
lead_four q h = ground arith

pub read_one : (p : ℕ) → p < 0x80 → Reads p (p ∷ [])
read_one p h on_error front rest out f =
    loop_step on_error f (front ++ (p ∷ rest)) (length front) p (length front + 1) out
      (out ++ p ∷ []) (get_elem?-append front p rest (length front) refl)
      (ap (λ l. point_step on_error l p (front ++ (p ∷ rest)) out (length front + 1)) (lead_one p h)
        ∙ unfold point_step in refl)

-- The bytes behind the first, for a first byte `c` at the end of `front`.
module _ (front rest : List ℕ) (c : ℕ) where
  continues :
      (bs : List ℕ) (n k res b : ℕ)
      → get_or (c ∷ (bs ++ rest)) k 0 ≡ 0x80 + b
      → b < 64
      → read_extra (suc n) (front ++ (c ∷ (bs ++ rest))) (length front + k) res
        ≡ read_extra n (front ++ (c ∷ (bs ++ rest))) (length front + (k + 1)) (res * 64 + b)
  continues bs n k res b e h =
      let v = front ++ (c ∷ (bs ++ rest)) in
      continue_step n v (length front + k) res (0x80 + b)
        (get_or-shift front (c ∷ (bs ++ rest)) (length front + k) k 0 refl ∙ e) (omega arith)
      ∙ ap₂ (λ i r. read_extra n v i r) (omega arith) (omega arith)

  in_bounds :
      (bs : List ℕ) (n : ℕ)
      → length bs ≡ n
      → length front + 1 - 1 + n < length (front ++ (c ∷ (bs ++ rest)))
  in_bounds bs n h = omega (arith, length-append front (c ∷ (bs ++ rest)), length-append bs rest)

  -- A round over a first byte and `n` more.
  round :
      (on_error : Utf8ErrorFunc) (f n mask p : ℕ) (bs out : List ℕ)
      → length bs ≡ n
      → lead_of c ≡ extra n mask
      → read_extra n (front ++ (c ∷ (bs ++ rest))) (length front + 1) (c % 2 ^ (7 - n))
        ≡ (some p, length front + (1 + n))
      → IsScalar p
      → mask < p
      → points_loop on_error (suc f) (front ++ (c ∷ (bs ++ rest))) (length front) out
        ≡ points_loop on_error f
            (front ++ (c ∷ (bs ++ rest)))
            (length front + (1 + n))
            (out ++ p ∷ [])
  round on_error f n mask p bs out hn hl e scalar h =
      let v = front ++ (c ∷ (bs ++ rest)) in
      loop_step on_error f v (length front) c (length front + (1 + n)) out (out ++ p ∷ [])
        (get_elem?-append front c (bs ++ rest) (length front) refl)
        (ap (λ l. point_step on_error l c v out (length front + 1)) hl
          ∙ extra_step on_error n mask c p v out (length front + 1) (length front + (1 + n))
              (in_bounds bs n hn) e scalar h)

read_done : (v : List ℕ) (i r p : ℕ) → r ≡ p → read_extra 0 v i r ≡ (some p, i)
unfolding read_extra
read_done v i r p e = rw e refl

pub read_two : (p : ℕ) → 0x80 ≤ p → p < 0x800 → Reads p ((0xc0 + p / 64) ∷ (0x80 + p % 64) ∷ [])
read_two p lo hi on_error front rest out f =
    let c = 0xc0 + p / 64 in
    let bs : List ℕ = (0x80 + p % 64) ∷ [] in
    round front rest c on_error f 1 0x7f p bs out refl (lead_two (p / 64) (omega arith))
      (continues front rest c bs 0 1 (c % 2 ^ 6) (p % 64) refl (omega arith)
        ∙ read_done _ _ _ p (omega arith))
      (omega arith, inl (omega arith)) lo

pub read_three :
    (p : ℕ)
    → 0x800 ≤ p
    → p < 0x10000
    → IsScalar p
    → Reads p ((0xe0 + p / 4096) ∷ (0x80 + p / 64 % 64) ∷ (0x80 + p % 64) ∷ [])
read_three p lo hi scalar on_error front rest out f =
    let c = 0xe0 + p / 4096 in
    let bs : List ℕ = (0x80 + p / 64 % 64) ∷ (0x80 + p % 64) ∷ [] in
    round front rest c on_error f 2 0x7ff p bs out refl (lead_three (p / 4096) (omega arith))
      (continues front rest c bs 1 1 (c % 2 ^ 5) (p / 64 % 64) refl (omega arith)
        ∙ continues front rest c bs 0 2 _ (p % 64) refl (omega arith)
        ∙ read_done _ _ _ p (omega arith))
      scalar lo

pub read_four : (p : ℕ) → 0x10000 ≤ p → p ≤ 0x10ffff → Reads p (four_bytes p)
read_four p lo hi on_error front rest out f =
    let c = 0xf0 + p / 262144 in
    let bs : List ℕ = (0x80 + p / 4096 % 64) ∷ (0x80 + p / 64 % 64) ∷ (0x80 + p % 64) ∷ [] in
    round front rest c on_error f 3 0xffff p bs out refl (lead_four (p / 262144) (omega arith))
      (continues front rest c bs 2 1 (c % 2 ^ 4) (p / 4096 % 64) refl (omega arith)
        ∙ continues front rest c bs 1 2 _ (p / 64 % 64) refl (omega arith)
        ∙ continues front rest c bs 0 3 _ (p % 64) refl (omega arith)
        ∙ read_done _ _ _ p (omega arith))
      (hi, inr (omega arith)) lo
