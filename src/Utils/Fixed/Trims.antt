-- ===== src/Utils/Fixed/Trims.antt =====
-- The zeros that `toString` of src.ts/utils/fixednumber.ts pads with and trims.
use mathlib.Core.List.{reverse, reverse-cons, reverse-append, reverse-reverse}
use corebc_js.Utils.Maths.{is_digit}
use corebc_js.Utils.Fixed.Formats.{zeros}
use corebc_js.Utils.Fixed.Values.{pad_front, trim_zeros, trim_zeros_end}
use corebc_js.Utils.Fixed.Tens.{nulls, replicate-append}
use native.Mathlib.Decide.{dec_le}
use corebc_js.Common.{
  ℕ, zero, suc, ◌+◌, ◌<◌, arith, ◌≡◌, refl, sym, ◌∙◌, ap, inl, inr, Bool, true, false, ◌&&◌, [],
  ◌∷◌, ◌++◌, append_assoc, Text, leb, ◌==◌, if◌then◌else◌, le→leb, lt→leb, ==_iff, Bool-cases,
  length, All, length-append, length-replicate, All-replicate, All-append,
}
use mathlib.Core.Path.{ap₂, subst}

abbrev pub IsDigit : ℕ → Type 0
IsDigit c = is_digit c ≡ true

pub nulls-IsDigit : (k : ℕ) → All IsDigit (nulls k)
nulls-IsDigit k = All-replicate IsDigit k b'0' refl

nulls-append : (j k : ℕ) (s : Text) → nulls j ++ (nulls k ++ s) ≡ nulls (j + k) ++ s
nulls-append j k s =
    sym (append_assoc (nulls j) (nulls k) s) ∙ ap (λ t. t ++ s) (replicate-append j k b'0')

pad_more :
    (fuel d : ℕ) (s : Text)
    → leb (length s) d ≡ true
    → pad_front (suc fuel) d s ≡ pad_front fuel d (zeros ++ s)
unfolding pad_front
pad_more fuel d s h = rw (h, pad_front) refl

pad_done : (fuel d : ℕ) (s : Text) → leb (length s) d ≡ false → pad_front (suc fuel) d s ≡ s
unfolding pad_front
pad_done fuel d s h = rw (h, pad_front) refl

-- The padding is enough for a digit before the point.
pub pad_front_lem :
    (fuel d : ℕ) (s : Text)
    → d < length s + fuel
    → (k : ℕ) × (pad_front fuel d s ≡ nulls k ++ s) × (d < k + length s)
unfolding pad_front
pad_front_lem zero d s h = (0, refl, omega arith)
pad_front_lem (suc fuel) d s h = elim (dec_le (length s) d) [
  | yes short ↦
      let size : length (zeros ++ s) ≡ 128 + length s =
        length-append zeros s ∙ ap (λ n. n + length s) (length-replicate {A = ℕ} 128 b'0') in
      let (k, e, hk) = pad_front_lem fuel d (zeros ++ s) (omega (arith, size)) in
      (
        k + 128,
        pad_more fuel d s (le→leb (length s) d short) ∙ e ∙ nulls-append k 128 s,
        omega (arith, size),
      )
  | no long ↦ (0, pad_done fuel d s (lt→leb (length s) d (omega arith)), omega arith)
]

-- Zeros are trimmed from digits before a point, of which one stays.
pub trim_zeros_lem :
    (c : ℕ) (s rest : Text)
    → All IsDigit (c ∷ s)
    → (k : ℕ) × (g : ℕ) × (kept : Text) × (trim_zeros ((c ∷ s) ++ (b'.' ∷ rest))
        ≡ (g ∷ kept) ++ (b'.' ∷ rest))
      × (c ∷ s ≡ nulls k ++ (g ∷ kept))
unfolding trim_zeros
trim_zeros_lem c [] rest h = (0, c, [], test (c == b'0'), refl)
  where
    test :
        (b : Bool)
        → (if b && false then trim_zeros (b'.' ∷ rest) else c ∷ b'.' ∷ rest) ≡ c ∷ b'.' ∷ rest
    test true = refl
    test false = refl
trim_zeros_lem c (d ∷ s) rest (hc, hs) = elim (Bool-cases (c == b'0')) [
  | inl e ↦
      let (k, g, kept, t, same) = trim_zeros_lem d s rest hs in
      (suc k, g, kept, rw (e, no_point d hs.0) t, ap₂ (λ x y. x ∷ y) ((==_iff c b'0').0 e) same)
  | inr e ↦ (0, c, d ∷ s, rw e refl, refl)
]
  where
    no_point : (d : ℕ) → IsDigit d → (d == b'.') ≡ false
    no_point d h = ground arith

reverse-nulls : (k : ℕ) → reverse (nulls k) ≡ nulls k
reverse-nulls zero = refl
reverse-nulls (suc k) =
    let next : k + 1 ≡ suc k = omega arith in
    reverse-cons b'0' (nulls k)
    ∙ ap (λ t. t ++ nulls 1) (reverse-nulls k)
    ∙ replicate-append k 1 b'0'
    ∙ ap nulls next

All-reverse : (s : Text) → All IsDigit s → All IsDigit (reverse s)
All-reverse [] h = tt
All-reverse (c ∷ s) (hc, hs) =
    subst (All IsDigit) (sym (reverse-cons c s))
      (All-append IsDigit (reverse s) (c ∷ []) (All-reverse s hs) (hc, tt))

pub All-split : (xs ys : Text) → All IsDigit (xs ++ ys) → All IsDigit xs × All IsDigit ys
All-split [] ys h = (tt, h)
All-split (x ∷ xs) ys (hx, h) = let (front, back) = All-split xs ys h in ((hx, front), back)

-- The same at the end, of digits behind a point.
pub trim_zeros_end_lem :
    (front : Text) (c : ℕ) (s : Text)
    → All IsDigit (c ∷ s)
    → (k : ℕ) × (kept : Text) × (trim_zeros_end (front ++ (b'.' ∷ (c ∷ s)))
        ≡ front ++ (b'.' ∷ kept))
      × (c ∷ s ≡ kept ++ nulls k)
unfolding trim_zeros_end
trim_zeros_end_lem front c s h = ends (reverse (c ∷ s)) refl (All-reverse (c ∷ s) h)
  where
    turned : reverse (front ++ (b'.' ∷ (c ∷ s))) ≡ reverse (c ∷ s) ++ (b'.' ∷ reverse front)
    turned =
        reverse-append front (b'.' ∷ (c ∷ s))
        ∙ ap (λ t. t ++ reverse front) (reverse-cons b'.' (c ∷ s))
        ∙ append_assoc (reverse (c ∷ s)) (b'.' ∷ []) (reverse front)

    unturned : (a : Text) → reverse (a ++ (b'.' ∷ reverse front)) ≡ front ++ (b'.' ∷ reverse a)
    unturned a =
        reverse-append a (b'.' ∷ reverse front)
        ∙ ap (λ t. t ++ reverse a)
            (reverse-cons b'.' (reverse front) ∙ ap (λ t. t ++ (b'.' ∷ [])) (reverse-reverse front))
        ∙ append_assoc front (b'.' ∷ []) (reverse a)

    ends :
        (back : Text)
        → reverse (c ∷ s) ≡ back
        → All IsDigit back
        → (k : ℕ) × (kept : Text) × (reverse (trim_zeros (reverse (front ++ (b'.' ∷ (c ∷ s)))))
            ≡ front ++ (b'.' ∷ kept))
          × (c ∷ s ≡ kept ++ nulls k)
    ends [] e hb = let empty : c ∷ s ≡ [] = sym (reverse-reverse (c ∷ s)) ∙ ap reverse e in cc
    ends (b ∷ back) e hb =
        let (k, g, kept, t, same) = trim_zeros_lem b back (reverse front) hb in
        (
          k,
          reverse (g ∷ kept),
          ap (λ x. reverse (trim_zeros x)) (turned ∙ ap (λ x. x ++ (b'.' ∷ reverse front)) e)
              ∙ ap reverse t
              ∙ unturned (g ∷ kept),
          sym (reverse-reverse (c ∷ s))
              ∙ ap reverse (e ∙ same)
              ∙ reverse-append (nulls k) (g ∷ kept)
              ∙ ap (λ x. reverse (g ∷ kept) ++ x) (reverse-nulls k),
        )
