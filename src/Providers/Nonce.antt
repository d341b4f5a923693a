-- ===== src/Providers/Nonce.antt =====
-- src.ts/providers/signer-noncemanager.ts: the class NonceManager and the calls that wait on it.
-- What the network answers and when, and when a waiting call goes on, are events. A call with
-- another block tag than "pending" does not touch the state.
pub mod Places
pub mod Invariant
pub mod Resumed
pub mod Live
pub mod Settles
mod Runs
use corebc_js.Common.{ℕ, zero, suc, ◌+◌, Option, none, some, List, [], ◌∷◌, ◌++◌, length, get_elem?}

-- The answer to a request for the pending count of the account.
pub data Reply : Type 0 where
  nonce : ℕ → Reply
  rejected : Reply

-- The private fields; a promise is the number of its request.
pub record Manager : Type 0 where
  pub nonce_promise : Option ℕ
  pub delta : ℕ

pub data Status : Type 0 where
  waiting thrown : Status
  sent : ℕ → Status

-- A call of sendTransaction: the promise and the delta that its getNonce took.
pub record Call : Type 0 where
  pub promise : ℕ
  pub offset : ℕ
  pub status : Status

-- The manager, the requests so far with the answers that have come, and the calls so far.
pub record World : Type 0 where
  pub manager : Manager
  pub replies : List (Option Reply)
  pub calls : List Call

unfoldable pub new_manager : Manager
new_manager = record { nonce_promise = none; delta = 0 }

unfoldable pub increment : Manager → Manager
increment m = record m { delta = suc m.delta }

unfoldable pub reset : Manager → Manager
reset m = record { nonce_promise = none; delta = 0 }

-- The promise of getNonce("pending"): the one at hand, or that of the next request.
abbrev pub promise_of : Option ℕ → ℕ → ℕ
promise_of none next = next
promise_of (some p) next = p

-- The requests after it.
abbrev pub requests : Option ℕ → List (Option Reply) → List (Option Reply)
requests none replies = replies ++ (none ∷ [])
requests (some p) replies = replies

-- getNonce("pending") up to its `await`.
unfoldable pub get_nonce : World → World
get_nonce w = record w {
  manager = record w.manager {
    nonce_promise = some (promise_of w.manager.nonce_promise (length w.replies));
  };
  replies = requests w.manager.nonce_promise w.replies;
}

-- sendTransaction up to its first `await`: getNonce, and then increment.
unfoldable pub send_transaction : World → World
unfolding get_nonce increment
send_transaction w =
    let call : Call = record {
      promise = promise_of w.manager.nonce_promise (length w.replies);
      offset = w.manager.delta;
      status = waiting;
    } in
    let asked = get_nonce w in
    record asked { manager = increment asked.manager; calls = w.calls ++ (call ∷ []) }

-- The rest of sendTransaction, once the promise is settled.
unfoldable pub resume_with : Option (Option Reply) → Call → Call
resume_with (some (some (nonce n))) c = record c { status = sent (n + c.offset) }
resume_with (some (some rejected)) c = record c { status = thrown }
resume_with (some none) c = c
resume_with none c = c

abbrev pub resume_if : Status → List (Option Reply) → Call → Call
resume_if waiting replies c = resume_with (get_elem? replies c.promise) c
resume_if thrown replies c = c
resume_if (sent n) replies c = c

unfoldable pub resume : List (Option Reply) → Call → Call
unfolding resume_with
resume replies c = resume_if c.status replies c

-- Change the element at a position.
unfoldable pub change {ℓ} : {A : Type ℓ} → (A → A) → ℕ → List A → List A
change f i [] = []
change f zero (x ∷ xs) = f x ∷ xs
change f (suc i) (x ∷ xs) = x ∷ change f i xs

-- A promise is settled once.
unfoldable pub settle_reply : Reply → Option Reply → Option Reply
settle_reply r none = some r
settle_reply r (some first) = some first

pub data Event : Type 0 where
  send ask bump clear : Event
  answer : ℕ → Reply → Event
  go_on : ℕ → Event

unfoldable pub step : World → Event → World
unfolding send_transaction reset resume change settle_reply
step w send = send_transaction w
step w ask = get_nonce w
step w bump = record w { manager = increment w.manager }
step w clear = record w { manager = reset w.manager }
step w (answer p r) = record w { replies = change (settle_reply r) p w.replies }
step w (go_on i) = record w { calls = change (resume w.replies) i w.calls }

unfoldable pub run : World → List Event → World
unfolding step
run w [] = w
run w (e ∷ es) = run (step w e) es

unfoldable pub start : World
unfolding new_manager
start = record { manager = new_manager; replies = []; calls = [] }
