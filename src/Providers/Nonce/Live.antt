-- ===== src/Providers/Nonce/Live.antt =====
-- The nonces and the ends of the calls of sendTransaction, in every order of events, for
-- src.ts/providers/signer-noncemanager.ts.
use corebc_js.Providers.Nonce.{
  Reply, waiting, sent, Call, World, promise_of, requests, get_nonce, send_transaction, change,
  settle_reply, Event, send, ask, bump, clear, answer, go_on, step, run, start, new_manager,
  increment, reset,
}
use corebc_js.Providers.Nonce.Places.{Has, Has-last, length-change}
use corebc_js.Providers.Nonce.Invariant.{
  Made, Behind, Differ, Apart, Counted, Inv, Counted-settle_reply, ask-Inv, send-Inv,
}
use corebc_js.Providers.Nonce.Resumed.{go_on-Inv}
use corebc_js.Providers.Nonce.Settles.{IsSettled, settles_from}
use corebc_js.Common.{
  ℕ, zero, suc, ◌<◌, arith, ◌≡◌, refl, sym, ◌≢◌, Option, none, some, List, [], ◌∷◌, ◌++◌, length,
  get_elem?, All, get_elem?-some, All-get, All-implies,
}
use mathlib.Core.Path.{subst}

abbrev pub Consistent : World → Type 0
Consistent w = Inv w.manager w.replies w.calls

step-Consistent : (w : World) (e : Event) → Consistent w → Consistent (step w e)
unfolding step send_transaction get_nonce increment reset
step-Consistent w send inv =
    send-Inv
      (record w.manager {
        nonce_promise = some (promise_of w.manager.nonce_promise (length w.replies));
      })
      (requests w.manager.nonce_promise w.replies) w.calls
      (promise_of w.manager.nonce_promise (length w.replies)) refl
      (ask-Inv w.manager w.replies w.calls w.manager.nonce_promise refl inv)
step-Consistent w ask inv = ask-Inv w.manager w.replies w.calls w.manager.nonce_promise refl inv
step-Consistent w bump inv = record {
  made = inv.made;
  behind =
      All-implies (Behind w.manager.nonce_promise w.manager.delta)
        (Behind w.manager.nonce_promise (suc w.manager.delta)) w.calls
        (further w.manager.nonce_promise) inv.behind;
  known = inv.known;
  apart = inv.apart;
  counted = inv.counted;
}
  where
    further :
        (o : Option ℕ) (c : Call) → Behind o w.manager.delta c → Behind o (suc w.manager.delta) c
    further none c h = tt
    further (some p) c h = λ e. let less = h e in omega arith
step-Consistent w clear inv = record {
  made = tt;
  behind =
      All-implies (λ c. c.promise < length w.replies) (λ c. Unit {0}) w.calls (λ _ _. tt) inv.known;
  known = inv.known;
  apart = inv.apart;
  counted = inv.counted;
}
step-Consistent w (answer p r) inv =
    let size = length-change (settle_reply r) p w.replies in
    record {
      made = subst (Made w.manager.nonce_promise) (sym size) inv.made;
      behind = inv.behind;
      known = subst (λ n. All (λ c. c.promise < n) w.calls) (sym size) inv.known;
      apart = inv.apart;
      counted =
          All-implies (λ c. Counted w.replies c.status c)
            (λ c. Counted (change (settle_reply r) p w.replies) c.status c) w.calls
            (λ c. Counted-settle_reply r p w.replies c.status c) inv.counted;
    }
step-Consistent w (go_on i) inv = go_on-Inv w.manager w.replies w.calls i inv

run-Consistent : (w : World) (es : List Event) → Consistent w → Consistent (run w es)
unfolding run
run-Consistent w [] inv = inv
run-Consistent w (e ∷ es) inv = run-Consistent (step w e) es (step-Consistent w e inv)

-- After any events on a new manager: the request of its promise has been made, and so have those of
-- the calls; the calls of its promise took deltas below its own; two calls of one promise took
-- different deltas; and each transaction sent has the nonce answered for its promise, plus its delta.
pub run-start-Consistent : (es : List Event) → Consistent (run start es)
unfolding start new_manager
run-start-Consistent es =
    run-Consistent start es
      (record { made = tt; behind = tt; known = tt; apart = tt; counted = tt })

Apart-Differ :
    (cs : List Call) (i j : ℕ) {c d : Call}
    → Apart cs
    → i < j
    → get_elem? cs i ≡ some c
    → get_elem? cs j ≡ some d
    → Differ c d
Apart-Differ [] i j a h e k = cc
Apart-Differ (x ∷ cs) zero zero a h e k = absurd (omega arith)
Apart-Differ (x ∷ cs) zero (suc j) {c} {d} a h e k =
    let same : x ≡ c = cc in subst (λ y. Differ y d) same (All-get (Differ x) cs j a.0 k)
Apart-Differ (x ∷ cs) (suc i) zero a h e k = absurd (omega arith)
Apart-Differ (x ∷ cs) (suc i) (suc j) a h e k = Apart-Differ cs i j a.1 (omega arith) e k

-- After any events on a new manager: two calls that took one promise, and whose transactions are
-- sent, have different nonces.
pub sent_nonces_differ :
    (es : List Event) (i j : ℕ) {c d : Call} {m n : ℕ}
    → i < j
    → get_elem? (run start es).calls i ≡ some c
    → get_elem? (run start es).calls j ≡ some d
    → c.promise ≡ d.promise
    → c.status ≡ sent m
    → d.status ≡ sent n
    → m ≢ n
sent_nonces_differ es i j {c} {d} {m} {n} h e k same s t =
    let inv = run-start-Consistent es in
    let replies = (run start es).replies in
    let calls = (run start es).calls in
    let each = λ (x : Call). Counted replies x.status x in
    let (b, answered, counted) =
      subst (λ u. Counted replies u c) s (All-get each calls i inv.counted e) in
    let (b', answered', counted') =
      subst (λ u. Counted replies u d) t (All-get each calls j inv.counted k) in
    let one : b ≡ b' = cc in λ q. Apart-Differ calls i j inv.apart h e k same (omega arith)

requested :
    (o : Option ℕ) (replies : List (Option Reply))
    → Made o (length replies)
    → Has (λ x. Unit {0}) (requests o replies) (promise_of o (length replies))
requested none replies h = Has-last (λ x. Unit {0}) replies none tt
requested (some p) replies h =
    let (x, e) = get_elem?-some replies p h in record { element = x; found = e; holds = tt }

-- A call of sendTransaction, made at any time, comes to an end in every order of events in which its
-- request is answered, at any later time, and the call goes on, at any time after that.
pub send-IsSettled :
    (before first middle last : List Event) (r : Reply)
    → Has IsSettled
        (run (run start before) (
          send
          ∷ (first
              ++ (answer
                    (promise_of
                      (run start before).manager.nonce_promise
                      (length (run start before).replies))
                    r
                  ∷ (middle ++ (go_on (length (run start before).calls) ∷ last)))))).calls
        (length (run start before).calls)
unfolding run step send_transaction get_nonce
send-IsSettled before first middle last r =
    let w = run start before in
    let o = w.manager.nonce_promise in
    let p = promise_of o (length w.replies) in
    settles_from (step w send) (length w.calls) p r first middle last
      (Has-last (λ c. c.promise ≡ p) w.calls
        (record { promise = p; offset = w.manager.delta; status = waiting }) refl)
      (requested o w.replies (run-start-Consistent before).made)
