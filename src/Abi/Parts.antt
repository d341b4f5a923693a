-- ===== src/Abi/Parts.antt =====
-- The heads and the tails of the items of src.ts/abi/coders/array.ts, next to those that the ABI specifies.
use corebc_js.Utils.Maths.{max_value}
use corebc_js.Abi.{
  Coder, Coders, Value, Values, number, address, boolean, fixed_bytes, bytes, string, null, array,
  tuple, no_coders, no_values, value, coder, is_dynamic, any_dynamic,
}
use corebc_js.Abi.Layout.{
  layout, heads, head_space, tails, items_layout, Fits, FitsAll, fits_none, fits_item,
}
use corebc_js.Abi.Octets.{length-big_endian, word-big_endian}
use corebc_js.Abi.Standard.{
  varies, one_varies, big_endian, standard, head_length, head_parts, tail_parts,
}
use corebc_js.Common.{
  ℕ, ◌+◌, ◌≤◌, arith, ◌≡◌, refl, ◌∙◌, ap, inl, inr, Bool, true, false, ◌||◌, none, some, ◌++◌,
  if◌then◌else◌, Bool-cases, length, length-append,
}
use mathlib.Core.Path.{ap₂}

mutual
  unfolding is_dynamic varies

  pub is_dynamic-varies : (c : Coder) → is_dynamic c ≡ varies c
  is_dynamic-varies (number size signed) = refl
  is_dynamic-varies address = refl
  is_dynamic-varies boolean = refl
  is_dynamic-varies (fixed_bytes size) = refl
  is_dynamic-varies bytes = refl
  is_dynamic-varies string = refl
  is_dynamic-varies null = refl
  is_dynamic-varies (array c none) = refl
  is_dynamic-varies (array c (some k)) = is_dynamic-varies c
  is_dynamic-varies (tuple cs) = any_dynamic-varies cs

  any_dynamic-varies : (cs : Coders) → any_dynamic cs ≡ one_varies cs
  any_dynamic-varies no_coders = refl
  any_dynamic-varies (coder c cs) =
      ap₂ (λ a b. a || b) (is_dynamic-varies c) (any_dynamic-varies cs)
      ∙ either (varies c) (one_varies cs)
    where
      either : (a b : Bool) → (a || b) ≡ (if a then true else b)
      either true b = refl
      either false b = refl

length-head_parts :
    {cs : Coders} {vs : Values} (start : ℕ) (h : FitsAll cs vs) (d : ℕ)
    → length (head_parts start h d) ≡ head_length h
unfolding head_parts head_length
length-head_parts start fits_none d = refl
length-head_parts start (fits_item {c = c} f h) d = elim (Bool-cases (varies c)) [
  | inl e ↦ rw e (
      omega (
        arith,
        length-append (big_endian 32 (start + d)) (head_parts start h (d + length (standard f))),
        length-big_endian 32 (start + d),
        length-head_parts start h (d + length (standard f)),
      ))
  | inr e ↦ rw e (
      omega (arith, length-append (standard f) (head_parts start h d), length-head_parts start h d))
]

length_parts :
    {cs : Coders} {vs : Values} (h : FitsAll cs vs)
    → length (head_parts (head_length h) h 0 ++ tail_parts h)
      ≡ head_length h + length (tail_parts h)
length_parts h =
    length-append (head_parts (head_length h) h 0) (tail_parts h)
    ∙ ap (λ k. k + length (tail_parts h)) (length-head_parts (head_length h) h 0)

-- The heads and the tails of items are the same in Layout and in Standard.
pub record SameParts (cs : Coders) (vs : Values) (h : FitsAll cs vs) : Type 0 where
  same_space : head_space cs vs ≡ head_length h
  same_heads :
      (start d : ℕ)
      → start + d + length (tail_parts h) ≤ max_value
      → heads start cs vs d ≡ head_parts start h d
  same_tails : tails cs vs ≡ tail_parts h

pub no_items-SameParts : SameParts no_coders no_values fits_none
unfolding layout standard
no_items-SameParts = record {
  same_space = refl;
  same_heads = λ start d small. refl;
  same_tails = refl;
}

length_tails :
    {c : Coder} {v : Value} {cs : Coders} {vs : Values} (f : Fits c v) (h : FitsAll cs vs)
    → length (tail_parts (fits_item f h))
      ≡ (if varies c then length (standard f) else 0) + length (tail_parts h)
unfolding standard
length_tails {c = c} f h = elim (Bool-cases (varies c)) [
  | inl e ↦ rw e (length-append (standard f) (tail_parts h))
  | inr e ↦ rw e (omega arith)
]

length_heads :
    {c : Coder} {v : Value} {cs : Coders} {vs : Values} (f : Fits c v) (h : FitsAll cs vs)
    → head_length (fits_item f h) ≡ (if varies c then 32 else length (standard f)) + head_length h
unfolding standard
length_heads f h = refl

-- An item stands in the heads or in the tails.
pub item_room :
    {c : Coder} {v : Value} {cs : Coders} {vs : Values} (f : Fits c v) (h : FitsAll cs vs) (m : ℕ)
    → head_length (fits_item f h) + length (tail_parts (fits_item f h)) ≤ m
    → (length (standard f) ≤ m) × (head_length h + length (tail_parts h) ≤ m)
item_room {c = c} f h m small = elim (Bool-cases (varies c)) [
  | inl e ↦
      let a = rw e at (length_tails f h) in
      let b = rw e at (length_heads f h) in (omega arith, omega arith)
  | inr e ↦
      let a = rw e at (length_tails f h) in
      let b = rw e at (length_heads f h) in (omega arith, omega arith)
]

-- Where the tails of the items after one end.
tails_room :
    {c : Coder} {v : Value} {cs : Coders} {vs : Values} (f : Fits c v) (h : FitsAll cs vs)
    (start d m : ℕ) (far : Bool)
    → varies c ≡ far
    → start + d + length (tail_parts (fits_item f h)) ≤ m
    → start + (if far then d + length (standard f) else d) + length (tail_parts h) ≤ m
tails_room f h start d m true e small = let long = rw e at (length_tails f h) in omega arith
tails_room f h start d m false e small = let long = rw e at (length_tails f h) in omega arith

pub item-SameParts :
    {c : Coder} {v : Value} {cs : Coders} {vs : Values} (f : Fits c v) (h : FitsAll cs vs)
    → layout c v ≡ standard f
    → SameParts cs vs h
    → SameParts (coder c cs) (value v vs) (fits_item f h)
unfolding layout standard
item-SameParts {c = c} {cs = cs} {vs = vs} f h e k = elim (Bool-cases (varies c)) [
  | inl far ↦
      let near : is_dynamic c ≡ true = is_dynamic-varies c ∙ far in
      record {
        same_space = rw (near, far) (ap (λ n. 32 + n) k.same_space);
        same_heads = λ start d small.
            let ends = tails_room f h start d max_value true far small in
            rw (near, far)
              (ap₂ (λ a b. a ++ b) (word-big_endian (start + d) (omega arith))
                (ap (λ l. heads start cs vs (d + length l)) e
                  ∙ k.same_heads start (d + length (standard f)) (omega arith)));
        same_tails = rw (near, far) (ap₂ (λ a b. a ++ b) e k.same_tails);
      }
  | inr far ↦
      let near : is_dynamic c ≡ false = is_dynamic-varies c ∙ far in
      record {
        same_space = rw (near, far) (ap₂ (λ a n. length a + n) e k.same_space);
        same_heads = λ start d small.
            let ends = tails_room f h start d max_value false far small in
            rw (near, far) (ap₂ (λ a b. a ++ b) e (k.same_heads start d (omega arith)));
        same_tails = rw (near, far) k.same_tails;
      }
]

pub items_same :
    {cs : Coders} {vs : Values} (h : FitsAll cs vs)
    → SameParts cs vs h
    → head_length h + length (tail_parts h) ≤ max_value
    → items_layout cs vs ≡ head_parts (head_length h) h 0 ++ tail_parts h
items_same {cs = cs} {vs = vs} h k small =
    ap (λ n. heads n cs vs 0 ++ tails cs vs) k.same_space
    ∙ ap₂ (λ a b. a ++ b) (k.same_heads (head_length h) 0 (omega arith)) k.same_tails

pub items_room :
    {cs : Coders} {vs : Values} (h : FitsAll cs vs)
    → length (head_parts (head_length h) h 0 ++ tail_parts h) ≤ max_value
    → head_length h + length (tail_parts h) ≤ max_value
items_room h small = omega (arith, length_parts h)
