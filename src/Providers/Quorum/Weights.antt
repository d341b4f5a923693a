-- ===== src/Providers/Quorum/Weights.antt =====
-- The weight of a tag in the results and in the tally of src.ts/providers/provider-fallback.ts.
use corebc_js.Address.{text_eq}
use corebc_js.Address.Digits.{text_eq_sound, text_eq_refl}
use corebc_js.Providers.Quorum.{TallyResult, add_weight, tally_results}
use corebc_js.Common.{
  ℕ, ◌+◌, arith, ◌≡◌, ◌∙◌, inl, inr, false, List, [], ◌∷◌, Text, if◌then◌else◌, Bool-cases, All,
  ◌≤◌, refl, sym, ap, Bool, true,
}
use mathlib.Core.Path.{subst}

merged :
    (b : Bool) (w v rest : ℕ)
    → (if b then w + v + rest else rest) ≡ (if b then w + rest else rest) + (if b then v + 0 else 0)
merged true w v rest = omega arith
merged false w v rest = omega arith

behind :
    (b : Bool) (w x rest : ℕ)
    → (if b then w + (rest + x) else rest + x) ≡ (if b then w + rest else rest) + x
behind true w x rest = omega arith
behind false w x rest = refl

text_eq-symmetric : (s t : Text) → text_eq s t ≡ false → text_eq t s ≡ false
text_eq-symmetric s t e = elim (Bool-cases (text_eq t s)) [
  | inl h ↦ let same = subst (λ x. text_eq x t ≡ true) (text_eq_sound t s h) (text_eq_refl t) in cc
  | inr h ↦ h
]

module _ {ℓ} {V : Type ℓ} where
  -- The sum of the weights behind a tag.
  abbrev pub weight_of : Text → List (TallyResult V) → ℕ
  weight_of tag [] = 0
  weight_of tag (r ∷ rs) =
      let rest = weight_of tag rs in if text_eq r.tag tag then r.weight + rest else rest

  -- No two entries of the list have one tag.
  abbrev pub Unique : List (TallyResult V) → Type ℓ
  Unique [] = Unit {ℓ}
  Unique (t ∷ ts) = All (λ u. text_eq u.tag t.tag ≡ false) ts × Unique ts

  weight-add_weight :
      (tag : Text) (r : TallyResult V) (ts : List (TallyResult V))
      → weight_of tag (add_weight r ts) ≡ weight_of tag ts + weight_of tag (r ∷ [])
  unfolding add_weight
  weight-add_weight tag r [] = omega arith
  weight-add_weight tag r (t ∷ ts) = elim (Bool-cases (text_eq t.tag r.tag)) [
    | inl e ↦
        let same : text_eq r.tag tag ≡ text_eq t.tag tag =
          ap (λ x. text_eq x tag) (sym (text_eq_sound t.tag r.tag e)) in
        rw (e, same) (merged (text_eq t.tag tag) t.weight r.weight (weight_of tag ts))
    | inr e ↦
        rw (e, weight-add_weight tag r ts)
          (behind (text_eq t.tag tag) t.weight (weight_of tag (r ∷ [])) (weight_of tag ts))
  ]

  -- A tally of results has their weights.
  pub weight_of-tally_results :
      (tag : Text) (rs ts : List (TallyResult V))
      → weight_of tag (tally_results rs ts) ≡ weight_of tag ts + weight_of tag rs
  unfolding tally_results
  weight_of-tally_results tag [] ts = omega arith
  weight_of-tally_results tag (r ∷ rs) ts =
      weight_of-tally_results tag rs (add_weight r ts)
      ∙ ap (λ n. n + weight_of tag rs) (weight-add_weight tag r ts)
      ∙ ahead (text_eq r.tag tag) (weight_of tag ts) r.weight (weight_of tag rs)
    where
      ahead :
          (b : Bool) (x w rest : ℕ)
          → x + (if b then w + 0 else 0) + rest ≡ x + (if b then w + rest else rest)
      ahead true x w rest = omega arith
      ahead false x w rest = omega arith

  -- Adding a result keeps what holds of the entries' tags and values and of the result's.
  pub All-add_weight :
      (P : Text → V → Type 0) (r : TallyResult V) (ts : List (TallyResult V))
      → P r.tag r.value
      → All (λ u. P u.tag u.value) ts
      → All (λ u. P u.tag u.value) (add_weight r ts)
  unfolding add_weight
  All-add_weight P r [] p h = (p, tt)
  All-add_weight P r (t ∷ ts) p (q, h) = elim (Bool-cases (text_eq t.tag r.tag)) [
    | inl e ↦ rw e (q, h)
    | inr e ↦ rw e (q, All-add_weight P r ts p h)
  ]

  Unique-add_weight :
      (r : TallyResult V) (ts : List (TallyResult V)) → Unique ts → Unique (add_weight r ts)
  unfolding add_weight
  Unique-add_weight r [] h = (tt, tt)
  Unique-add_weight r (t ∷ ts) (h, hs) = elim (Bool-cases (text_eq t.tag r.tag)) [
    | inl e ↦ rw e (h, hs)
    | inr e ↦ rw e (
      All-add_weight (λ x _. text_eq x t.tag ≡ false) r ts (text_eq-symmetric t.tag r.tag e) h,
      Unique-add_weight r ts hs,
    )
  ]

  pub Unique-tally_results :
      (rs ts : List (TallyResult V)) → Unique ts → Unique (tally_results rs ts)
  unfolding tally_results
  Unique-tally_results [] ts h = h
  Unique-tally_results (r ∷ rs) ts h =
      Unique-tally_results rs (add_weight r ts) (Unique-add_weight r ts h)

  -- No entry has the tag.
  weight_none :
      (tag : Text) (ts : List (TallyResult V))
      → All (λ u. text_eq u.tag tag ≡ false) ts
      → weight_of tag ts ≡ 0
  weight_none tag [] h = refl
  weight_none tag (t ∷ ts) (e, h) = rw e (weight_none tag ts h)

  -- A bound of all entries bounds the weight of every tag.
  pub weight_bound :
      (n : ℕ) (tag : Text) (ts : List (TallyResult V))
      → Unique ts
      → All (λ u. u.weight ≤ n) ts
      → weight_of tag ts ≤ n
  weight_bound n tag [] h b = omega arith
  weight_bound n tag (t ∷ ts) (h, hs) (b, bs) = elim (Bool-cases (text_eq t.tag tag)) [
    | inl e ↦
        let others : weight_of tag ts ≡ 0 =
          weight_none tag ts
            (subst (λ x. All (λ u. text_eq u.tag x ≡ false) ts) (text_eq_sound t.tag tag e) h) in
        rw e (omega (arith, others))
    | inr e ↦ rw e (weight_bound n tag ts hs bs)
  ]

  entry_behind :
      (t : TallyResult V) (ts us : List (TallyResult V))
      → All (λ u. text_eq u.tag t.tag ≡ false) us
      → All (λ u. u.weight ≡ weight_of u.tag ts) us
      → All (λ u. u.weight ≡ weight_of u.tag (t ∷ ts)) us
  entry_behind t ts [] h e = tt
  entry_behind t ts (u ∷ us) (h, hs) (e, es) =
      (rw (text_eq-symmetric u.tag t.tag h) e, entry_behind t ts us hs es)

  -- Each entry has the weight of its tag.
  pub entry_weights :
      (ts : List (TallyResult V)) → Unique ts → All (λ u. u.weight ≡ weight_of u.tag ts) ts
  entry_weights [] h = tt
  entry_weights (t ∷ ts) (h, hs) = (
    rw (text_eq_refl t.tag) (omega (arith, weight_none t.tag ts h)),
    entry_behind t ts ts h (entry_weights ts hs),
  )

  pub All-tally_results :
      (P : Text → V → Type 0) (rs ts : List (TallyResult V))
      → All (λ u. P u.tag u.value) rs
      → All (λ u. P u.tag u.value) ts
      → All (λ u. P u.tag u.value) (tally_results rs ts)
  unfolding tally_results
  All-tally_results P [] ts h k = k
  All-tally_results P (r ∷ rs) ts (h, hs) k =
      All-tally_results P rs (add_weight r ts) hs (All-add_weight P r ts h k)
