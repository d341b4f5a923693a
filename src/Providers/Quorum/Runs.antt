-- ===== src/Providers/Quorum/Runs.antt =====
-- Runs of src.ts/providers/provider-fallback.ts, and its theorem at concrete inputs.
use corebc_js.Address.{text_eq}
use corebc_js.Providers.Quorum.{TallyResult, check_quorum, get_any_result}
use corebc_js.Providers.Quorum.Majority.{Agreed, check_quorum-Agreed}
use corebc_js.Common.{ℕ, ◌≡◌, refl, some, List, [], ◌∷◌, codes, Text, ltb}

abbrev vote : Text → ℕ → ℕ → TallyResult ℕ
vote tag value weight = record { tag = tag; value = value; weight = weight }

-- Two providers against a third of the weight of one.
abbrev votes : List (TallyResult ℕ)
votes = vote (codes "4") 4 1 ∷ vote (codes "5") 5 1 ∷ vote (codes "4") 4 1 ∷ []

majority : check_quorum 2 votes ≡ some 4
unfolding check_quorum text_eq
majority = refl

no_majority : get_any_result (λ v. ltb 0 v) 3 votes ≡ some 4
unfolding get_any_result text_eq
no_majority = refl

check_quorum-Agreed_example : Agreed 2 votes (some 4)
unfolding check_quorum text_eq
check_quorum-Agreed_example = check_quorum-Agreed 1 votes
