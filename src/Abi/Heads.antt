-- ===== src/Abi/Heads.antt =====
-- One item of `unpack` in src.ts/abi/coders/array.ts: a head in its place, and a tail that the head
-- of a dynamic item points to.
use corebc_js.Utils.Maths.{be_array, max_value}
use corebc_js.Abi.{Coder, Coders, Value, Values, no_coders, coder, no_values, value, is_dynamic}
use corebc_js.Abi.Reader.{Reader, next, call, read_index, sub_reader}
use corebc_js.Abi.Decode.{decode, settle, read_item}
use corebc_js.Abi.Layout.{layout, word, heads, head_space, tails}
use corebc_js.Abi.Words.{at, length-word, read_index-word}
use corebc_js.Abi.Scalars.{ReadsBack}
use corebc_js.Common.{
  ℕ, ◌+◌, ◌-◌, ◌^◌, ◌≤◌, ◌<◌, arith, ◌≡◌, refl, ◌∙◌, ap, inl, inr, Bool, true, false, List, [],
  ◌++◌, if◌then◌else◌, Bool-cases, length, drop, replicate, length-append, length-drop,
  length-replicate, ok,
}
use mathlib.Core.Path.{ap₂}

abbrev pub head : Coder → Value → ℕ → List ℕ
head c v n = if is_dynamic c then word n else layout c v

abbrev pub head_size : Coder → Value → ℕ
head_size c v = if is_dynamic c then 32 else length (layout c v)

abbrev pub tail : Coder → Value → List ℕ
tail c v = if is_dynamic c then layout c v else []

pub word-long : (n : ℕ) → 32 ≤ length (word n)
unfolding word
word-long n = omega (
  arith,
  length-append (replicate (32 - length (be_array n)) 0) (be_array n),
  length-replicate {A = ℕ} (32 - length (be_array n)) 0,
)

head_size-le : (c : Coder) (v : Value) (n : ℕ) → head_size c v ≤ length (head c v n)
head_size-le c v n = elim (Bool-cases (is_dynamic c)) [
  | inl e ↦ rw e (word-long n)
  | inr e ↦ rw e (omega arith)
]

pub length-head :
    (c : Coder) (v : Value) (n : ℕ) → n < 2 ^ 256 → length (head c v n) ≡ head_size c v
length-head c v n h = elim (Bool-cases (is_dynamic c)) [
  | inl e ↦ rw e (length-word n h)
  | inr e ↦ rw e refl
]

-- Words are never shorter than 32 bytes.
pub head_space-le :
    (start : ℕ) (cs : Coders) (vs : Values) (d : ℕ)
    → head_space cs vs ≤ length (heads start cs vs d)
unfolding heads
head_space-le start no_coders vs d = omega arith
head_space-le start (coder c cs) no_values d = omega arith
head_space-le start (coder c cs) (value v vs) d =
    let d' = if is_dynamic c then d + length (layout c v) else d in
    omega (
      arith,
      length-append (head c v (start + d)) (heads start cs vs d'),
      head_size-le c v (start + d),
      head_space-le start cs vs d',
    )

pub tail_taken :
    (c : Coder) (v : Value) (d : ℕ)
    → (if is_dynamic c then d + length (layout c v) else d) ≡ d + length (tail c v)
tail_taken c v d = elim (Bool-cases (is_dynamic c)) [
  | inl e ↦ rw e refl
  | inr e ↦ rw e (omega arith)
]

pub length-heads :
    (start : ℕ) (cs : Coders) (vs : Values) (d : ℕ)
    → start + d + length (tails cs vs) ≤ max_value
    → length (heads start cs vs d) ≡ head_space cs vs
unfolding heads
length-heads start no_coders vs d h = refl
length-heads start (coder c cs) no_values d h = refl
length-heads start (coder c cs) (value v vs) d h =
    let d' = if is_dynamic c then d + length (layout c v) else d in
    let taken = tail_taken c v d in
    let both = length-append (tail c v) (tails cs vs) in
    omega (
      arith,
      length-append (head c v (start + d)) (heads start cs vs d'),
      length-head c v (start + d) (omega arith),
      length-heads start cs vs d' (omega arith),
    )

module _ (c : Coder) (v : Value) (back : ReadsBack c v) (kept : settle (ok v) ≡ ok v) where
  near_item :
      (base : Reader) (loose : Bool) (whole front rest : List ℕ)
      → is_dynamic c ≡ false
      → length whole ≤ max_value
      → whole ≡ front ++ (layout c v ++ rest)
      → read_item base false (decode c) (at loose whole (length front))
        ≡ (ok v, at loose whole (length front + length (layout c v)))
  unfolding read_item
  near_item base loose whole front rest near small g =
      let (k, e, place) = back loose whole front rest small g in
      ap (λ m. (settle m.0, m.1)) e ∙ ap₂ (λ m o. (m, at loose whole o)) kept (place near)

  far_item :
      (base : List ℕ) (loose : Bool) (whole front rest : List ℕ) (n : ℕ) (behind : List ℕ)
      → n ≤ max_value
      → length base ≤ max_value
      → whole ≡ front ++ (word n ++ rest)
      → drop n base ≡ layout c v ++ behind
      → read_item (at loose base 0) true (decode c) (at loose whole (length front))
        ≡ (ok v, at loose whole (length front + 32))
  unfolding read_item
  far_item base loose whole front rest n behind small small' g h =
      let place : drop (0 + n) base ≡ layout c v ++ behind =
        ap (λ k. drop k base) (omega arith) ∙ h in
      let (k, e, _) =
        back loose (drop (0 + n) base) [] behind (omega (arith, length-drop (0 + n) base)) place in
      let first : read_index (at loose whole (length front))
          ≡ (ok n, at loose whole (length front + 32)) =
        rw g (read_index-word n loose front rest small) in
      ap (λ m. next m (λ i. call (settle (decode c (sub_reader i (at loose base 0))).0))) first
      ∙ ap (λ m. (settle m.0, at loose whole (length front + 32))) e
      ∙ ap (λ m. (m, at loose whole (length front + 32))) kept

  -- Either item, with the bytes that the head of a dynamic one points to.
  pub read_head :
      (base : List ℕ) (loose : Bool) (whole front rest : List ℕ) (n : ℕ) (behind : List ℕ)
      → n ≤ max_value
      → length base ≤ max_value
      → length whole ≤ max_value
      → whole ≡ front ++ (head c v n ++ rest)
      → drop n base ≡ tail c v ++ behind
      → read_item (at loose base 0) (is_dynamic c) (decode c) (at loose whole (length front))
        ≡ (ok v, at loose whole (length front + head_size c v))
  read_head base loose whole front rest n behind small small' small'' g h =
      elim (Bool-cases (is_dynamic c)) [
        | inl e ↦
            rw e
              (far_item base loose whole front rest n behind small small' (rw e at g) (rw e at h))
        | inr e ↦ rw e (near_item (at loose base 0) loose whole front rest e small'' (rw e at g))
      ]
