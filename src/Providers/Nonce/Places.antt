-- ===== src/Providers/Nonce/Places.antt =====
-- Elements at a position of a list that grows and is changed in place.
use mathlib.Core.Option
use corebc_js.Providers.Nonce.{change}
use corebc_js.Common.{
  ℕ, zero, suc, ◌≡◌, refl, ap, ◌⊎◌, inl, inr, some, List, [], ◌∷◌, ◌++◌, length, get_elem?, All,
  get_elem?-append,
}

module _ {ℓ κ} {A : Type ℓ} where
  -- The element at a position satisfies a predicate.
  pub record Has (P : A → Type κ) (xs : List A) (i : ℕ) : Type (ℓ ⊔ κ) where
    pub element : A
    pub found : get_elem? xs i ≡ some element
    pub holds : P element

pub get_elem?-front {ℓ} :
    {A : Type ℓ} (xs ys : List A) (i : ℕ) {x : A}
    → get_elem? xs i ≡ some x
    → get_elem? (xs ++ ys) i ≡ some x
get_elem?-front [] ys i e = cc
get_elem?-front (z ∷ xs) ys zero e = e
get_elem?-front (z ∷ xs) ys (suc i) e = get_elem?-front xs ys i e

pub get_elem?-change {ℓ} :
    {A : Type ℓ} (f : A → A) (j : ℕ) (xs : List A) (i : ℕ) {x : A}
    → get_elem? xs i ≡ some x
    → (get_elem? (change f j xs) i ≡ some x) ⊎ (get_elem? (change f j xs) i ≡ some (f x))
unfolding change
get_elem?-change f j [] i e = inl e
get_elem?-change f zero (z ∷ xs) zero e = inr (ap (λ o. Option.map f o) e)
get_elem?-change f zero (z ∷ xs) (suc i) e = inl e
get_elem?-change f (suc j) (z ∷ xs) zero e = inl e
get_elem?-change f (suc j) (z ∷ xs) (suc i) e = get_elem?-change f j xs i e

pub get_elem?-change_at {ℓ} :
    {A : Type ℓ} (f : A → A) (xs : List A) (i : ℕ) {x : A}
    → get_elem? xs i ≡ some x
    → get_elem? (change f i xs) i ≡ some (f x)
unfolding change
get_elem?-change_at f [] i e = cc
get_elem?-change_at f (z ∷ xs) zero e = ap (λ o. Option.map f o) e
get_elem?-change_at f (z ∷ xs) (suc i) e = get_elem?-change_at f xs i e

pub length-change {ℓ} :
    {A : Type ℓ} (f : A → A) (i : ℕ) (xs : List A) → length (change f i xs) ≡ length xs
unfolding change
length-change f i [] = refl
length-change f zero (x ∷ xs) = refl
length-change f (suc i) (x ∷ xs) = ap suc (length-change f i xs)

module _ {ℓ κ} {A : Type ℓ} (P : A → Type κ) where
  pub Has-append : (xs ys : List A) (i : ℕ) → Has P xs i → Has P (xs ++ ys) i
  Has-append xs ys i h = record {
    element = h.element;
    found = get_elem?-front xs ys i h.found;
    holds = h.holds;
  }

  pub Has-last : (xs : List A) (x : A) → P x → Has P (xs ++ (x ∷ [])) (length xs)
  Has-last xs x p = record {
    element = x;
    found = get_elem?-append xs x [] (length xs) refl;
    holds = p;
  }

  pub All-change :
      (f : A → A) (i : ℕ) (xs : List A)
      → ((x : A) → P x → P (f x))
      → All P xs
      → All P (change f i xs)
  unfolding change
  All-change f i [] keep h = h
  All-change f zero (x ∷ xs) keep (p, h) = (keep x p, h)
  All-change f (suc i) (x ∷ xs) keep (p, h) = (p, All-change f i xs keep h)

  pub Has-change :
      (f : A → A) (j : ℕ) (xs : List A) (i : ℕ)
      → ((x : A) → P x → P (f x))
      → Has P xs i
      → Has P (change f j xs) i
  Has-change f j xs i keep h = elim (get_elem?-change f j xs i h.found) [
    | inl e ↦ record { element = h.element; found = e; holds = h.holds }
    | inr e ↦ record { element = f h.element; found = e; holds = keep h.element h.holds }
  ]
