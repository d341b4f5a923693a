-- ===== src/Abi/Peeks.antt =====
-- What `#peekBytes` of src.ts/abi/coders/abstract-coder.ts takes from the data.
use corebc_js.Abi.Reader.{Reader, peek_length, taken, read_bytes, aligned}
use corebc_js.Common.{
  ℕ, Result, ok, err, stuck, refl, ◌≡◌, inl, inr, List, Bool, zero, suc, ◌+◌, ◌-◌, ◌≤◌, arith, sym,
  ◌∙◌, ap, [], ◌∷◌, ◌++◌, leb, Bool-cases, length, take, drop, slice, length-take, length-drop,
  take-append-drop, ok-injective, ◌&&◌, leb→le,
}
use mathlib.Core.Path.{subst}

-- The reader `s` is `r` behind the next `b`, which are all in the data.
pub record Consumed (r : Reader) (b : List ℕ) (s : Reader) : Type 0 where
  pub before : List ℕ
  pub after : List ℕ
  pub split : r.contents ≡ before ++ (b ++ after)
  pub place : length before ≡ r.offset
  pub behind : r.offset + length b ≤ s.offset
  pub close : s.offset ≤ r.offset + aligned (length b)
  pub inside : s.offset ≤ length r.contents
  pub same : s.contents ≡ r.contents

take_less : (n k : ℕ) (xs : List ℕ) → n ≤ k → take n (take k xs) ≡ take n xs
take_less zero k xs h = refl
take_less (suc n) zero xs h = absurd (omega arith)
take_less (suc n) (suc k) [] h = refl
take_less (suc n) (suc k) (x ∷ xs) h = ap (λ t. x ∷ t) (take_less n k xs (omega arith))

consumed :
    (n k : ℕ) (r : Reader)
    → n ≤ k
    → k ≤ aligned n
    → r.offset + k ≤ length r.contents
    → Consumed r (take n (slice r.offset (r.offset + k) r.contents)) (taken n (ok k) r).1
consumed n k r h short fits =
    let rest = drop r.offset r.contents in
    let part = slice r.offset (r.offset + k) r.contents in
    let size : length part ≡ k =
      omega (arith, length-take (r.offset + k - r.offset) rest, length-drop r.offset r.contents) in
    let head : take n part ≡ take n rest =
      take_less n (r.offset + k - r.offset) rest (omega arith) in
    record {
      before = take r.offset r.contents;
      after = drop n rest;
      split =
          sym (take-append-drop r.offset r.contents)
          ∙ ap (λ t. take r.offset r.contents ++ t)
              (sym (take-append-drop n rest) ∙ ap (λ t. t ++ drop n rest) (sym head));
      place = omega (arith, length-take r.offset r.contents);
      behind = omega (arith, length-take n part);
      close = omega (arith, length-take n part);
      inside = omega arith;
      same = refl;
    }

peek_length-fits :
    (n : ℕ) (l : Bool) (r : Reader) {k : ℕ}
    → peek_length n l r ≡ ok k
    → (n ≤ k) × (k ≤ aligned n) × (r.offset + k ≤ length r.contents)
unfolding peek_length
peek_length-fits n l r {k = k} =
    elim (Bool-cases (leb (r.offset + aligned n) (length r.contents))) [
      | inl e ↦ rw e (λ h.
          let same : aligned n ≡ k = ok-injective h in
          let fits = leb→le (r.offset + aligned n) (length r.contents) e in
          (omega arith, omega arith, omega arith))
      | inr e ↦ elim (Bool-cases (leb (r.offset + n) (length r.contents))) [
        | inl g ↦ elim (Bool-cases (r.loose && l)) [
          | inl q ↦
              rw (e, g, q)
                (λ h.
                  let same : n ≡ k = ok-injective h in
                  let fits = leb→le (r.offset + n) (length r.contents) g in
                  (omega arith, omega arith, omega arith))
          | inr q ↦ rw (e, g, q) (λ h. cc)
        ]
        | inr g ↦ elim (Bool-cases (r.loose && l)) [
          | inl q ↦ rw (e, g, q) (λ h. cc)
          | inr q ↦ rw (e, g, q) (λ h. cc)
        ]
      ]
    ]

taken-Consumed :
    (n : ℕ) (m : Result ℕ) (r : Reader) {b : List ℕ}
    → ((k : ℕ) → m ≡ ok k → (n ≤ k) × (k ≤ aligned n) × (r.offset + k ≤ length r.contents))
    → (taken n m r).0 ≡ ok b
    → (length b ≡ n) × Consumed r b (taken n m r).1
taken-Consumed n (ok k) r h e =
    let (long, short, fits) = h k refl in
    let part = slice r.offset (r.offset + k) r.contents in
    subst (λ b. (length b ≡ n) × Consumed r b (taken n (ok k) r).1) (ok-injective e)
      (
        omega (
          arith,
          length-take n part,
          length-take (r.offset + k - r.offset) (drop r.offset r.contents),
          length-drop r.offset r.contents,
        ),
        consumed n k r long short fits,
      )
taken-Consumed n (err c) r h e = cc
taken-Consumed n stuck r h e = cc

-- What `#peekBytes` lets through is in the data.
pub read_bytes-Consumed :
    (n : ℕ) (l : Bool) (r : Reader) {b : List ℕ}
    → (read_bytes n l r).0 ≡ ok b
    → (length b ≡ n) × Consumed r b (read_bytes n l r).1
unfolding read_bytes
read_bytes-Consumed n l r h =
    taken-Consumed n (peek_length n l r) r (λ k. peek_length-fits n l r {k = k}) h
