-- ===== src/Providers/Quorum/Majority.antt =====
-- The value that `checkQuorum` of src.ts/providers/provider-fallback.ts gives.
use mathlib.Core.Option
use corebc_js.Providers.Quorum.{TallyResult, tally_results, best_result, check_quorum}
use corebc_js.Providers.Quorum.Weights.{
  weight_of, Unique, weight_of-tally_results, Unique-tally_results, weight_bound, entry_weights,
  All-tally_results,
}
use native.Mathlib.Decide.{dec_le, dec_lt}
use corebc_js.Common.{
  ℕ, ◌≤◌, ◌<◌, arith, ◌≡◌, refl, Option, none, some, List, [], ◌∷◌, lt→ltb, le→ltb, le→leb, lt→leb,
  all, All, suc, ◌∙◌, Text, All-implies,
}

module _ {ℓ} {V : Type ℓ} (quorum : ℕ) (Q : TallyResult V → Type 0) where
  unfoldable pub Starts : Option (TallyResult V) → Type 0
  Starts none = Unit {0}
  Starts (some a) = Q a × (quorum ≤ a.weight)

  unfoldable pub Over : Option (TallyResult V) → ℕ → Type 0
  Over none n = Unit {0}
  Over (some a) n = a.weight ≤ n

  -- What the loop makes of the best entry so far and the entries that follow.
  pub data Wins (o : Option (TallyResult V)) (ts : List (TallyResult V))
      : Option (TallyResult V) → Type ℓ where
    won :
        {b : TallyResult V}
        → Q b
        → quorum ≤ b.weight
        → All (λ u. u.weight ≤ b.weight) ts
        → Over o b.weight
        → Wins o ts (some b)
    lost : o ≡ none → All (λ u. u.weight < quorum) ts → Wins o ts none

  -- An entry that is passed over, and one that is taken.
  passes :
      (o : Option (TallyResult V)) (r : TallyResult V) (ts : List (TallyResult V))
      → (o ≡ none → r.weight < quorum)
      → ((n : ℕ) → quorum ≤ n → Over o n → r.weight ≤ n)
      → {w : Option (TallyResult V)} → Wins o ts w
      → Wins o (r ∷ ts) w
  unfolding Over
  passes o r ts low small (won q h all over) = won q h (small _ h over, all) over
  passes o r ts low small (lost e all) = lost e (low e, all)

  takes :
      (o : Option (TallyResult V)) (r : TallyResult V) (ts : List (TallyResult V))
      → ((n : ℕ) → r.weight ≤ n → Over o n)
      → {w : Option (TallyResult V)} → Wins (some r) ts w
      → Wins o (r ∷ ts) w
  unfolding Over
  takes o r ts up (won q h all over) = won q h (over, all) (up _ over)
  takes o r ts up (lost e all) = absurd (cc)

  pub best_result-Wins :
      (o : Option (TallyResult V)) (ts : List (TallyResult V))
      → Starts o
      → All Q ts
      → Wins o ts (best_result quorum o ts)
  unfolding best_result Over Starts
  best_result-Wins none [] s qs = lost refl tt
  best_result-Wins (some a) [] (q, h) qs = won q h tt (omega arith)
  best_result-Wins none (r ∷ ts) s (q, qs) = elim (dec_le quorum r.weight) [
    | yes h ↦
        rw (le→leb quorum r.weight h)
          (takes none r ts (λ n k. tt) (best_result-Wins (some r) ts (q, h) qs))
    | no h ↦ rw (lt→leb quorum r.weight (omega arith)) (
        passes none r ts (λ e. omega arith) (λ n k o. omega arith) (best_result-Wins none ts tt qs))
  ]
  best_result-Wins (some a) (r ∷ ts) (qa, ha) (q, qs) = elim (dec_le quorum r.weight) [
    | yes h ↦ elim (dec_lt a.weight r.weight) [
      | yes k ↦
          rw (le→leb quorum r.weight h, lt→ltb a.weight r.weight k)
            (takes (some a) r ts (λ n m. omega arith) (best_result-Wins (some r) ts (q, h) qs))
      | no k ↦
          rw (le→leb quorum r.weight h, le→ltb a.weight r.weight (omega arith))
            (passes (some a) r ts (λ e. cc) (λ n m o. omega arith)
              (best_result-Wins (some a) ts (qa, ha) qs))
    ]
    | no h ↦ rw (lt→leb quorum r.weight (omega arith)) (
        passes (some a) r ts (λ e. cc) (λ n m o. omega arith)
          (best_result-Wins (some a) ts (qa, ha) qs))
  ]

-- A result with the tag and the value is among the results.
pub data Reported {ℓ} {V : Type ℓ} (tag : Text) (v : V) : List (TallyResult V) → Type ℓ where
  here :
      (r : TallyResult V) (rs : List (TallyResult V))
      → r.tag ≡ tag
      → r.value ≡ v
      → Reported tag v (r ∷ rs)
  there :
      (r : TallyResult V) {rs : List (TallyResult V)} → Reported tag v rs → Reported tag v (r ∷ rs)

-- The outcome of a vote: a value with a tag of the quorum's weight, and of the largest one, or no tag
-- of the quorum's weight.
pub data Agreed {ℓ} {V : Type ℓ} (quorum : ℕ) (rs : List (TallyResult V)) : Option V → Type ℓ where
  agreed :
      {v : V} (tag : Text)
      → Reported tag v rs
      → quorum ≤ weight_of tag rs
      → ((other : Text) → weight_of other rs ≤ weight_of tag rs)
      → Agreed quorum rs (some v)
  undecided : ((tag : Text) → weight_of tag rs < quorum) → Agreed quorum rs none

module _ {V : Type 0} where
  Reported-all : (rs : List (TallyResult V)) → All (λ r. Reported r.tag r.value rs) rs
  Reported-all [] = tt
  Reported-all (r ∷ rs) = (
    here r rs refl refl,
    All-implies (λ u. Reported u.tag u.value rs) (λ u. Reported u.tag u.value (r ∷ rs)) rs
        (λ u h. there r h) (Reported-all rs),
  )

  All-both :
      (P Q : TallyResult V → Type 0) (ts : List (TallyResult V))
      → All P ts
      → All Q ts
      → All (λ u. P u × Q u) ts
  All-both P Q [] h k = tt
  All-both P Q (t ∷ ts) (h, hs) (k, ks) = ((h, k), All-both P Q ts hs ks)

  -- For every quorum above 0 and all results: checkQuorum gives the value of a reported result whose
  -- tag has at least the quorum's weight, and no tag has more; or it gives none, and then every tag
  -- has less than the quorum's weight.
  pub check_quorum-Agreed :
      (quorum : ℕ) (rs : List (TallyResult V))
      → Agreed (suc quorum) rs (check_quorum (suc quorum) rs)
  unfolding check_quorum Starts Over
  check_quorum-Agreed quorum rs = decide (
      best_result-Wins (suc quorum) Q none ts tt (
        All-both (λ u. Reported u.tag u.value rs) (λ u. u.weight ≡ weight_of u.tag ts) ts
          (All-tally_results (λ t v. Reported t v rs) rs [] (Reported-all rs) tt)
          (entry_weights ts unique)))
    where
      ts : List (TallyResult V)
      ts = tally_results rs []

      Q : TallyResult V → Type 0
      Q u = Reported u.tag u.value rs × (u.weight ≡ weight_of u.tag ts)

      unique : Unique ts
      unique = Unique-tally_results rs [] tt

      weights : (tag : Text) → weight_of tag ts ≡ weight_of tag rs
      weights tag = weight_of-tally_results tag rs [] ∙ omega arith

      decide :
          {w : Option (TallyResult V)}
          → Wins (suc quorum) Q none ts w
          → Agreed (suc quorum) rs (Option.map (λ r. r.value) w)
      decide (won {b} (reported, e) h all over) =
          agreed b.tag reported (omega (arith, weights b.tag)) (λ other.
            omega (arith, weights b.tag, weights other, weight_bound b.weight other ts unique all))
      decide (lost e all) = undecided λ tag. omega (
        arith,
        weights tag,
        weight_bound quorum tag ts unique (
            All-implies (λ u. u.weight < suc quorum) (λ u. u.weight ≤ quorum) ts
              (λ u h. omega arith) all),
      )
