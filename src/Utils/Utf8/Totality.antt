-- ===== src/Utils/Utf8/Totality.antt =====
-- The loop of `getUtf8CodePoints` of src.ts/utils/utf8.ts ends on every input.
use corebc_js.Utils.Data.{BytesLike, bytes, text, get_bytes, is_data_text, pair_bytes}
use corebc_js.Utils.Utf8.{
  Lead, single, extra, invalid, lead_of, read_extra, check_point, point_step, points_loop,
  get_utf8_code_points, Utf8ErrorFunc, Utf8ErrorReason, report, finish,
}
use corebc_js.Common.{
  ℕ, zero, suc, ◌+◌, ◌-◌, ◌*◌, ◌/◌, ◌%◌, ◌^◌, ◌≤◌, arith, refl, ◌≢◌, inl, inr, ◌&&◌, Option, none,
  some, List, ltb, leb, ◌==◌, le→ltb, Bool-cases, length, get_elem?, get_or, Result, ◌>>=◌, ok, err,
  stuck, [], drop, Option-cases,
}

-- An error function that returns or throws.
abbrev pub Answers : Utf8ErrorFunc → Type 0
Answers on_error =
    (reason : Utf8ErrorReason) (offset : ℕ) (v out : List ℕ) (bad : Option ℕ)
    → on_error reason offset v out bad ≢ stuck

-- A result that is no endless loop, and whose position is at or behind `i`.
abbrev Moves : ℕ → Result (List ℕ × ℕ) → Type 0
Moves i (ok (out, j)) = i ≤ j
Moves i (err e) = Unit {0}
Moves i stuck = ⊥

Moves-le : (i j : ℕ) (m : Result (List ℕ × ℕ)) → i ≤ j → Moves j m → Moves i m
Moves-le i j (ok (out, k)) h m = omega arith
Moves-le i j (err e) h m = tt
Moves-le i j stuck h m = m

skip_Moves : (i : ℕ) (m : Result (List ℕ × ℕ)) → m ≢ stuck → Moves i (m >>= λ r. ok (r.0, i + r.1))
skip_Moves i (ok (out, n)) h = omega arith
skip_Moves i (err e) h = tt
skip_Moves i stuck h = h refl

read_extra-le : (n : ℕ) (v : List ℕ) (i res : ℕ) → i ≤ (read_extra n v i res).1
unfolding read_extra
read_extra-le zero v i res = omega arith
read_extra-le (suc n) v i res = elim (Bool-cases (get_or v i 0 / 64 == 2)) [
  | inl e ↦ rw e (omega (arith, read_extra-le n v (i + 1) (res * 64 + get_or v i 0 % 64)))
  | inr e ↦ rw e (omega arith)
]

bind-ne-stuck :
    (i : ℕ) (m : Result (List ℕ × ℕ)) (next : List ℕ × ℕ → Result (List ℕ))
    → Moves i m
    → ((r : List ℕ × ℕ) → i ≤ r.1 → next r ≢ stuck)
    → (m >>= next) ≢ stuck
bind-ne-stuck i (ok (out, j)) next h later = later (out, j) h
bind-ne-stuck i (err e) next h later = λ k. cc
bind-ne-stuck i stuck next h later = λ k. h

module _ (on_error : Utf8ErrorFunc) (answers : Answers on_error) where
  report-Moves :
      (reason : Utf8ErrorReason) (offset : ℕ) (v out : List ℕ) (bad : Option ℕ) (i : ℕ)
      → Moves i (report on_error reason offset v out bad i)
  report-Moves reason offset v out bad i =
      skip_Moves i (on_error reason offset v out bad) (answers reason offset v out bad)

  check_point-Moves :
      (n mask p : ℕ) (v out : List ℕ) (i : ℕ) → Moves i (check_point on_error n mask p v out i)
  unfolding check_point
  check_point-Moves n mask p v out i = elim (Bool-cases (ltb 0x10ffff p)) [
    | inl e ↦ rw e (report-Moves _ _ v out (some p) i)
    | inr e ↦ elim (Bool-cases (leb 0xd800 p && leb p 0xdfff)) [
      | inl g ↦ rw e (rw g (report-Moves _ _ v out (some p) i))
      | inr g ↦ elim (Bool-cases (leb p mask)) [
        | inl k ↦ rw e (rw g (rw k (report-Moves _ _ v out (some p) i)))
        | inr k ↦ rw e (rw g (rw k (omega arith)))
      ]
    ]
  ]

  finish-Moves :
      (n mask : ℕ) (v out : List ℕ) (i : ℕ) (r : Option ℕ × ℕ)
      → i ≤ r.1
      → Moves i (finish on_error n mask v out r)
  finish-Moves n mask v out i (none, j) h = Moves-le i j _ h (report-Moves _ j v out none j)
  finish-Moves n mask v out i (some p, j) h = Moves-le i j _ h (check_point-Moves n mask p v out j)

  point_step-Moves :
      (l : Lead) (c : ℕ) (v out : List ℕ) (i : ℕ) → Moves i (point_step on_error l c v out i)
  unfolding point_step
  point_step-Moves single c v out i = omega arith
  point_step-Moves (invalid reason) c v out i = report-Moves reason (i - 1) v out none i
  point_step-Moves (extra n mask) c v out i = elim (Bool-cases (leb (length v) (i - 1 + n))) [
    | inl e ↦ rw e (report-Moves _ (i - 1) v out none i)
    | inr e ↦ rw e (
        finish-Moves n mask v out i (read_extra n v i (c % 2 ^ (7 - n)))
          (read_extra-le n v i (c % 2 ^ (7 - n))))
  ]

  points_loop-ne-stuck :
      (f : ℕ) (v : List ℕ) (i : ℕ) (out : List ℕ)
      → length v ≤ f + i
      → points_loop on_error f v i out ≢ stuck
  unfolding points_loop
  points_loop-ne-stuck zero v i out enough = rw (le→ltb i (length v) (omega arith)) (λ h. cc)
  points_loop-ne-stuck (suc f) v i out enough = elim (Option-cases (get_elem? v i)) [
    | inl e ↦ rw (e, points_loop) (λ h. cc)
    | inr (c, e) ↦
        rw (e, points_loop)
          (bind-ne-stuck (i + 1) (point_step on_error (lead_of c) c v out (i + 1)) _
            (point_step-Moves (lead_of c) c v out (i + 1))
            (λ r h. points_loop-ne-stuck f v r.1 r.0 (omega arith)))
  ]

  bytes-ne-stuck : (v : List ℕ) → points_loop on_error (length v) v 0 [] ≢ stuck
  bytes-ne-stuck v = points_loop-ne-stuck (length v) v 0 [] (omega arith)

-- For every error function that returns or throws, `getUtf8CodePoints` ends on every input.
pub get_utf8_code_points-ne-stuck :
    (on_error : Utf8ErrorFunc)
    → Answers on_error
    → (d : BytesLike) → get_utf8_code_points on_error d ≢ stuck
unfolding get_utf8_code_points get_bytes
get_utf8_code_points-ne-stuck on_error answers (bytes v) = bytes-ne-stuck on_error answers v
get_utf8_code_points-ne-stuck on_error answers (text s) = elim (Bool-cases (is_data_text s)) [
  | inl e ↦ rw e (bytes-ne-stuck on_error answers (pair_bytes (drop 2 s)))
  | inr e ↦ rw e (λ h. cc)
]
