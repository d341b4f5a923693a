-- ===== src/Common/Lists.antt =====
-- Lists measured and indexed by native numbers, under the library's names, and their positions.
use Prim.Native.Nat.{ℕ, zero, suc, ◌+◌, ◌-◌, ◌≤◌, ◌<◌, min}
use mathlib.Core.Path.{◌≡◌, refl, sym, ap, subst, ◌∙◌}
use mathlib.Core.List.{List, [], ◌∷◌, ◌++◌, append_assoc}
use mathlib.Core.Option.{Option, none, some}
use mathlib.Core.Bool.{Bool, true, ◌&&◌}
use mathlib.Core.Logic.{◌⊎◌, inl, inr}
use native.Mathlib.Omega.{arith}

module _ {ℓ} {A : Type ℓ} where
  abbrev pub length : List A → ℕ
  length [] = 0
  length (x ∷ xs) = suc (length xs)

  abbrev pub get_elem? : List A → ℕ → Option A
  get_elem? [] i = none
  get_elem? (x ∷ xs) zero = some x
  get_elem? (x ∷ xs) (suc i) = get_elem? xs i

  abbrev pub get_or : List A → ℕ → A → A
  get_or [] i d = d
  get_or (x ∷ xs) zero d = x
  get_or (x ∷ xs) (suc i) d = get_or xs i d

  abbrev pub take : ℕ → List A → List A
  take zero xs = []
  take (suc n) [] = []
  take (suc n) (x ∷ xs) = x ∷ take n xs

  abbrev pub drop : ℕ → List A → List A
  drop zero xs = xs
  drop (suc n) [] = []
  drop (suc n) (x ∷ xs) = drop n xs

  abbrev pub replicate : ℕ → A → List A
  replicate zero a = []
  replicate (suc n) a = a ∷ replicate n a

  abbrev pub all : (A → Bool) → List A → Bool
  all p [] = true
  all p (x ∷ xs) = p x && all p xs

  abbrev pub All {κ} : (A → Type κ) → List A → Type κ
  All P [] = Unit {κ}
  All P (x ∷ xs) = P x × All P xs

  -- `slice(start, end)` of an array or a string, with both bounds given and not negative.
  abbrev pub slice : ℕ → ℕ → List A → List A
  slice start end xs = take (end - start) (drop start xs)

-- To split on a computed option and keep the equation.
pub Option-cases {ℓ} : {A : Type ℓ} (o : Option A) → (o ≡ none) ⊎ ((a : A) × (o ≡ some a))
Option-cases none = inl refl
Option-cases (some a) = inr (a, refl)

module _ {ℓ} {A : Type ℓ} where
  pub length-append : (xs ys : List A) → length (xs ++ ys) ≡ length xs + length ys
  length-append [] ys = omega arith
  length-append (x ∷ xs) ys = omega (arith, length-append xs ys)

  pub length-take : (n : ℕ) (xs : List A) → length (take n xs) ≡ min n (length xs)
  length-take zero xs = omega arith
  length-take (suc n) [] = omega arith
  length-take (suc n) (x ∷ xs) = omega (arith, length-take n xs)

  pub length-drop : (n : ℕ) (xs : List A) → length (drop n xs) ≡ length xs - n
  length-drop zero xs = omega arith
  length-drop (suc n) [] = omega arith
  length-drop (suc n) (x ∷ xs) = omega (arith, length-drop n xs)

  pub length-replicate : (n : ℕ) (a : A) → length (replicate n a) ≡ n
  length-replicate zero a = refl
  length-replicate (suc n) a = ap suc (length-replicate n a)

  pub take-length : (xs ys : List A) → take (length xs) (xs ++ ys) ≡ xs
  take-length [] ys = refl
  take-length (x ∷ xs) ys = ap (λ t. x ∷ t) (take-length xs ys)

  pub drop-length : (xs ys : List A) → drop (length xs) (xs ++ ys) ≡ ys
  drop-length [] ys = refl
  drop-length (x ∷ xs) ys = drop-length xs ys

  pub take_all : (xs : List A) → take (length xs) xs ≡ xs
  take_all [] = refl
  take_all (x ∷ xs) = ap (λ t. x ∷ t) (take_all xs)

  -- The element behind a prefix, and the text behind it; the position is given by an equation.
  pub get_elem?-append :
      (front : List A) (x : A) (rest : List A) (i : ℕ)
      → i ≡ length front
      → get_elem? (front ++ (x ∷ rest)) i ≡ some x
  get_elem?-append [] x rest zero h = refl
  get_elem?-append [] x rest (suc i) h = absurd (omega arith)
  get_elem?-append (y ∷ front) x rest zero h = absurd (omega arith)
  get_elem?-append (y ∷ front) x rest (suc i) h = get_elem?-append front x rest i (omega arith)

  pub get_or-append :
      (front : List A) (x : A) (rest : List A) (i : ℕ) (d : A)
      → i ≡ length front
      → get_or (front ++ (x ∷ rest)) i d ≡ x
  get_or-append [] x rest zero d h = refl
  get_or-append [] x rest (suc i) d h = absurd (omega arith)
  get_or-append (y ∷ front) x rest zero d h = absurd (omega arith)
  get_or-append (y ∷ front) x rest (suc i) d h = get_or-append front x rest i d (omega arith)

  pub get_or-shift :
      (front xs : List A) (i k : ℕ) (d : A)
      → i ≡ length front + k
      → get_or (front ++ xs) i d ≡ get_or xs k d
  get_or-shift [] xs i k d h = ap (λ t. get_or xs t d) (omega arith)
  get_or-shift (y ∷ front) xs zero k d h = absurd (omega arith)
  get_or-shift (y ∷ front) xs (suc i) k d h = get_or-shift front xs i k d (omega arith)

  pub drop-append : (front rest : List A) (i : ℕ) → i ≡ length front → drop i (front ++ rest) ≡ rest
  drop-append [] rest zero h = refl
  drop-append [] rest (suc i) h = absurd (omega arith)
  drop-append (y ∷ front) rest zero h = absurd (omega arith)
  drop-append (y ∷ front) rest (suc i) h = drop-append front rest i (omega arith)

  pub take-append : (xs rest : List A) (n : ℕ) → n ≡ length xs → take n (xs ++ rest) ≡ xs
  take-append [] rest zero h = refl
  take-append [] rest (suc n) h = absurd (omega arith)
  take-append (x ∷ xs) rest zero h = absurd (omega arith)
  take-append (x ∷ xs) rest (suc n) h = ap (λ t. x ∷ t) (take-append xs rest n (omega arith))

  -- A part between a prefix and a rest.
  pub slice-append :
      (front part rest : List A) (i j : ℕ)
      → i ≡ length front
      → j ≡ length front + length part
      → slice i j (front ++ (part ++ rest)) ≡ part
  slice-append front part rest i j hi hj =
      ap (take (j - i)) (drop-append front (part ++ rest) i hi)
      ∙ take-append part rest (j - i) (omega arith)

  pub length_three :
      (front part rest : List A)
      → length (front ++ (part ++ rest)) ≡ length front + length part + length rest
  length_three front part rest =
      omega (arith, length-append front (part ++ rest), length-append part rest)

  pub regroup :
      (front header part rest : List A)
      → front ++ ((header ++ part) ++ rest) ≡ (front ++ header) ++ (part ++ rest)
  regroup front header part rest =
      ap (λ t. front ++ t) (append_assoc header part rest)
      ∙ sym (append_assoc front header (part ++ rest))

  pub take-append-drop : (n : ℕ) (xs : List A) → take n xs ++ drop n xs ≡ xs
  take-append-drop zero xs = refl
  take-append-drop (suc n) [] = refl
  take-append-drop (suc n) (x ∷ xs) = ap (λ t. x ∷ t) (take-append-drop n xs)

  pub get_elem?-none : (xs : List A) (i : ℕ) → length xs ≤ i → get_elem? xs i ≡ none
  get_elem?-none [] i h = refl
  get_elem?-none (x ∷ xs) zero h = absurd (omega arith)
  get_elem?-none (x ∷ xs) (suc i) h = get_elem?-none xs i (omega arith)

  pub get_elem?-some : (xs : List A) (i : ℕ) → i < length xs → (x : A) × (get_elem? xs i ≡ some x)
  get_elem?-some [] i h = elim h [ ]
  get_elem?-some (x ∷ xs) zero h = (x, refl)
  get_elem?-some (x ∷ xs) (suc i) h = get_elem?-some xs i (omega arith)

module _ {ℓ κ} {A : Type ℓ} (P : A → Type κ) where
  pub All-append : (xs ys : List A) → All P xs → All P ys → All P (xs ++ ys)
  All-append [] ys _ hy = hy
  All-append (x ∷ xs) ys (px, hx) hy = (px, All-append xs ys hx hy)

  pub All-take : (n : ℕ) (xs : List A) → All P xs → All P (take n xs)
  All-take zero xs h = tt
  All-take (suc n) [] h = tt
  All-take (suc n) (x ∷ xs) (px, h) = (px, All-take n xs h)

  pub All-drop : (n : ℕ) (xs : List A) → All P xs → All P (drop n xs)
  All-drop zero xs h = h
  All-drop (suc n) [] h = tt
  All-drop (suc n) (x ∷ xs) (px, h) = All-drop n xs h

  pub All-replicate : (n : ℕ) (a : A) → P a → All P (replicate n a)
  All-replicate zero a h = tt
  All-replicate (suc n) a h = (h, All-replicate n a h)

  pub All-get : (xs : List A) (i : ℕ) {x : A} → All P xs → get_elem? xs i ≡ some x → P x
  All-get [] i h e = cc
  All-get (y ∷ xs) zero (py, h) e = subst P (cc) py
  All-get (y ∷ xs) (suc i) (py, h) e = All-get xs i h e

pub All-implies {ℓ κ μ} :
    {A : Type ℓ} (P : A → Type κ) (Q : A → Type μ) (xs : List A)
    → ((x : A) → P x → Q x)
    → All P xs
    → All Q xs
All-implies P Q [] f h = tt
All-implies P Q (x ∷ xs) f (p, h) = (f x p, All-implies P Q xs f h)
