-- ===== src/Providers/Nonce/Settles.antt =====
-- Every call of sendTransaction comes to an end, in src.ts/providers/signer-noncemanager.ts, once
-- its request is answered and it has gone on.
use corebc_js.Providers.Nonce.{
  Reply, nonce, rejected, Status, waiting, thrown, sent, Call, World, requests, resume_with,
  resume_if, resume, settle_reply, Event, send, ask, bump, clear, answer, go_on, step, run,
}
use corebc_js.Providers.Nonce.Places.{Has, Has-append, Has-change, get_elem?-change_at}
use corebc_js.Common.{
  ℕ, ◌≡◌, refl, Option, none, some, List, [], ◌∷◌, ◌++◌, ◌≢◌, get_elem?, ◌∙◌, ap,
}

pub run-append : (w : World) (es fs : List Event) → run w (es ++ fs) ≡ run (run w es) fs
unfolding run
run-append w [] fs = refl
run-append w (e ∷ es) fs = run-append (step w e) es fs

-- What resuming keeps of a call.
module _ (P : Call → Type 0)
    (keep : (replies : List (Option Reply)) (c : Call) → P c → P (resume replies c)) where
  step-calls : (w : World) (e : Event) (i : ℕ) → Has P w.calls i → Has P (step w e).calls i
  unfolding step
  step-calls w send i h = Has-append P w.calls _ i h
  step-calls w ask i h = h
  step-calls w bump i h = h
  step-calls w clear i h = h
  step-calls w (answer p r) i h = h
  step-calls w (go_on j) i h = Has-change P (resume w.replies) j w.calls i (keep w.replies) h

  run-calls : (w : World) (es : List Event) (i : ℕ) → Has P w.calls i → Has P (run w es).calls i
  unfolding run
  run-calls w [] i h = h
  run-calls w (e ∷ es) i h = run-calls (step w e) es i (step-calls w e i h)

-- What settling keeps of a request.
module _ (Q : Option Reply → Type 0)
    (keep : (r : Reply) (x : Option Reply) → Q x → Q (settle_reply r x)) where
  asked :
      (o : Option ℕ) (replies : List (Option Reply)) (p : ℕ)
      → Has Q replies p
      → Has Q (requests o replies) p
  asked none replies p h = Has-append Q replies _ p h
  asked (some q) replies p h = h

  step-replies : (w : World) (e : Event) (p : ℕ) → Has Q w.replies p → Has Q (step w e).replies p
  unfolding step
  step-replies w send p h = asked w.manager.nonce_promise w.replies p h
  step-replies w ask p h = asked w.manager.nonce_promise w.replies p h
  step-replies w bump p h = h
  step-replies w clear p h = h
  step-replies w (answer q r) p h = Has-change Q (settle_reply r) q w.replies p (keep r) h
  step-replies w (go_on j) p h = h

  run-replies :
      (w : World) (es : List Event) (p : ℕ) → Has Q w.replies p → Has Q (run w es).replies p
  unfolding run
  run-replies w [] p h = h
  run-replies w (e ∷ es) p h = run-replies (step w e) es p (step-replies w e p h)

abbrev pub IsSettled : Call → Type 0
IsSettled c = c.status ≢ waiting

abbrev IsAnswered : Option Reply → Type 0
IsAnswered x = (r : Reply) × (x ≡ some r)

settle_reply-IsAnswered : (r : Reply) (x : Option Reply) → IsAnswered (settle_reply r x)
unfolding settle_reply
settle_reply-IsAnswered r none = (r, refl)
settle_reply-IsAnswered r (some first) = (first, refl)

resume_with-promise : (o : Option (Option Reply)) (c : Call) → (resume_with o c).promise ≡ c.promise
unfolding resume_with
resume_with-promise (some (some (nonce n))) c = refl
resume_with-promise (some (some rejected)) c = refl
resume_with-promise (some none) c = refl
resume_with-promise none c = refl

resume_if-promise :
    (s : Status) (replies : List (Option Reply)) (c : Call)
    → (resume_if s replies c).promise ≡ c.promise
resume_if-promise waiting replies c = resume_with-promise (get_elem? replies c.promise) c
resume_if-promise thrown replies c = refl
resume_if-promise (sent n) replies c = refl

resume_if-IsSettled :
    (s : Status) (replies : List (Option Reply)) (c : Call)
    → c.status ≡ s
    → IsSettled c
    → IsSettled (resume_if s replies c)
resume_if-IsSettled waiting replies c e h = absurd (h e)
resume_if-IsSettled thrown replies c e h = h
resume_if-IsSettled (sent n) replies c e h = h

-- A call goes on if its request is answered.
resume_with-IsSettled : (r : Reply) (c : Call) → IsSettled (resume_with (some (some r)) c)
unfolding resume_with
resume_with-IsSettled (nonce n) c = λ h. cc
resume_with-IsSettled rejected c = λ h. cc

goes_on :
    (s : Status) (replies : List (Option Reply)) (c : Call) (r : Reply)
    → c.status ≡ s
    → get_elem? replies c.promise ≡ some (some r)
    → IsSettled (resume_if s replies c)
goes_on waiting replies c r e h = rw h (resume_with-IsSettled r c)
goes_on thrown replies c r e h = λ k. cc
goes_on (sent n) replies c r e h = λ k. cc

abbrev OfPromise : ℕ → Call → Type 0
OfPromise p c = c.promise ≡ p

resume-OfPromise :
    (p : ℕ) (replies : List (Option Reply)) (c : Call)
    → OfPromise p c
    → OfPromise p (resume replies c)
unfolding resume
resume-OfPromise p replies c e = resume_if-promise c.status replies c ∙ e

resume-IsSettled :
    (replies : List (Option Reply)) (c : Call) → IsSettled c → IsSettled (resume replies c)
unfolding resume
resume-IsSettled replies c h = resume_if-IsSettled c.status replies c refl h

answer_stays : (r : Reply) (x : Option Reply) → IsAnswered x → IsAnswered (settle_reply r x)
answer_stays r x h = settle_reply-IsAnswered r x

settles_at :
    (w : World) (i p : ℕ)
    → Has (OfPromise p) w.calls i
    → Has IsAnswered w.replies p
    → Has IsSettled (step w (go_on i)).calls i
unfolding step resume
settles_at w i p call reply =
    let c = call.element in
    let same = call.holds in
    let (r, e) = reply.holds in
    record {
      element = resume w.replies c;
      found = get_elem?-change_at (resume w.replies) w.calls i call.found;
      holds =
          goes_on c.status w.replies c r refl
            (ap (get_elem? w.replies) same ∙ reply.found ∙ ap (λ x. some x) e);
    }

answers_at :
    (w : World) (p : ℕ) (r : Reply)
    → Has (λ x. Unit {0}) w.replies p
    → Has IsAnswered (step w (answer p r)).replies p
unfolding step
answers_at w p r request = record {
  element = settle_reply r request.element;
  found = get_elem?-change_at (settle_reply r) w.replies p request.found;
  holds = settle_reply-IsAnswered r request.element;
}

-- From a world with the call and its request.
pub settles_from :
    (w : World) (i p : ℕ) (r : Reply) (first middle last : List Event)
    → Has (OfPromise p) w.calls i
    → Has (λ x. Unit {0}) w.replies p
    → Has IsSettled (run w (first ++ (answer p r ∷ (middle ++ (go_on i ∷ last))))).calls i
unfolding run
settles_from w i p r first middle last call request =
    rw (run-append w first (answer p r ∷ (middle ++ (go_on i ∷ last)))) (
      rw (run-append (step (run w first) (answer p r)) middle (go_on i ∷ last)) (
        run-calls IsSettled resume-IsSettled (step asked (go_on i)) last i (
          settles_at asked i p
            (run-calls (OfPromise p) (resume-OfPromise p) (step (run w first) (answer p r)) middle i
              (step-calls (OfPromise p) (resume-OfPromise p) (run w first) (answer p r) i
                (run-calls (OfPromise p) (resume-OfPromise p) w first i call)))
            (run-replies IsAnswered answer_stays (step (run w first) (answer p r)) middle p (
              answers_at (run w first) p r
                (run-replies (λ x. Unit {0}) (λ _ _ _. tt) w first p request))))))
  where
    asked : World
    asked = run (step (run w first) (answer p r)) middle
