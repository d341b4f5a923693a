-- ===== src/Providers/Nonce/Runs.antt =====
-- Runs of src.ts/providers/signer-noncemanager.ts, and its theorems at concrete inputs.
use corebc_js.Providers.Nonce.{
  nonce, rejected, thrown, sent, Call, Event, send, bump, clear, answer, go_on, run, start,
}
use corebc_js.Providers.Nonce.Places.{Has}
use corebc_js.Providers.Nonce.Settles.{IsSettled}
use corebc_js.Providers.Nonce.Live.{
  Consistent, run-start-Consistent, sent_nonces_differ, send-IsSettled,
}
use corebc_js.Common.{arith, ◌≡◌, refl, ◌≢◌, List, [], ◌∷◌, ℕ}

-- Two transactions at once, on one request, and the second goes on first.
abbrev two_sent : List Event
two_sent = send ∷ send ∷ answer 0 (nonce 7) ∷ go_on 1 ∷ go_on 0 ∷ []

abbrev first_call : Call
first_call = record { promise = 0; offset = 0; status = sent 7 }

abbrev second_call : Call
second_call = record { promise = 0; offset = 1; status = sent 8 }

two_calls : (run start two_sent).calls ≡ first_call ∷ second_call ∷ []
unfolding run start
two_calls = refl

-- A refused request is kept: the next transaction fails with it, until a reset.
kept_failure :
    (run start (send ∷ answer 0 rejected ∷ go_on 0 ∷ send ∷ go_on 1 ∷ [])).calls
    ≡ record { promise = 0; offset = 0; status = thrown }
      ∷ record { promise = 0; offset = 1; status = thrown }
      ∷ []
unfolding run start
kept_failure = refl

run-start-Consistent_example : Consistent (run start two_sent)
run-start-Consistent_example = run-start-Consistent two_sent

sent_nonces_differ_example : ◌≢◌ {A = ℕ} 7 8
unfolding run start
sent_nonces_differ_example =
    sent_nonces_differ two_sent 0 1 {c = first_call} {d = second_call} (omega arith) refl refl refl
      refl refl

send-IsSettled_example :
    Has IsSettled (run start (bump ∷ send ∷ answer 0 (nonce 3) ∷ clear ∷ go_on 0 ∷ [])).calls 0
unfolding run start
send-IsSettled_example = send-IsSettled (bump ∷ []) [] (clear ∷ []) [] (nonce 3)
