-- ===== src/Providers/Quorum.antt =====
-- The tallies of src.ts/providers/provider-fallback.ts. A tag is the text of `_normalize`; a Map keeps
-- the order in which its keys came. No value is undefined.
pub mod Weights
pub mod Majority
mod Runs
use mathlib.Core.Option
use corebc_js.Address.{text_eq}
use corebc_js.Common.{
  ℕ, ◌+◌, Bool, true, ◌&&◌, Option, none, some, List, [], ◌∷◌, map, Text, ltb, leb, if◌then◌else◌,
}

-- A weight, a number in the source, is a natural number here.
pub record TallyResult {ℓ} (V : Type ℓ) : Type ℓ where
  pub tag : Text
  pub value : V
  pub weight : ℕ

module _ {ℓ} {V : Type ℓ} where
  -- `tally.get(tag) || { value, weight: 0 }`, and `tally.set(tag, t)`.
  unfoldable pub add_weight : TallyResult V → List (TallyResult V) → List (TallyResult V)
  add_weight r [] = r ∷ []
  add_weight r (t ∷ ts) =
      let rest = add_weight r ts in
      if text_eq t.tag r.tag then record t { weight = t.weight + r.weight } ∷ ts else t ∷ rest

  unfoldable pub tally_results : List (TallyResult V) → List (TallyResult V) → List (TallyResult V)
  unfolding add_weight
  tally_results [] tally = tally
  tally_results (r ∷ rs) tally = tally_results rs (add_weight r tally)

  -- `!best || r.weight > best.weight`
  abbrev pub is_better : TallyResult V → Option (TallyResult V) → Bool
  is_better r none = true
  is_better r (some best) = ltb best.weight r.weight

  unfoldable pub best_result :
      ℕ → Option (TallyResult V) → List (TallyResult V) → Option (TallyResult V)
  best_result quorum best [] = best
  best_result quorum best (r ∷ rs) =
      best_result quorum (if leb quorum r.weight && is_better r best then some r else best) rs

  unfoldable pub check_quorum : ℕ → List (TallyResult V) → Option V
  unfolding tally_results best_result
  check_quorum quorum results =
      Option.map (λ r. r.value) (best_result quorum none (tally_results results []))

  -- The first value that counts as true in JavaScript.
  unfoldable pub first_value : (V → Bool) → List (TallyResult V) → Option V
  first_value is_truthy [] = none
  first_value is_truthy (r ∷ rs) =
      let rest = first_value is_truthy rs in if is_truthy r.value then some r.value else rest

  abbrev pub or_else : Option V → Option V → Option V
  or_else none other = other
  or_else (some v) other = some v

  unfoldable pub get_any_result : (V → Bool) → ℕ → List (TallyResult V) → Option V
  unfolding check_quorum first_value
  get_any_result is_truthy quorum results =
      or_else (check_quorum quorum results) (first_value is_truthy results)
