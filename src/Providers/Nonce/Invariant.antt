-- ===== src/Providers/Nonce/Invariant.antt =====
-- What holds of the NonceManager of src.ts/providers/signer-noncemanager.ts and its calls between
-- two events.
use corebc_js.Providers.Nonce.{
  Reply, nonce, Manager, Status, waiting, thrown, sent, Call, promise_of, requests, change,
  settle_reply, increment,
}
use corebc_js.Providers.Nonce.Places.{get_elem?-front, get_elem?-change}
use corebc_js.Common.{
  ℕ, suc, ◌+◌, ◌<◌, arith, ◌≡◌, sym, ◌≢◌, inl, inr, Option, none, some, List, [], ◌∷◌, ◌++◌, length,
  get_elem?, All, length-append, All-append, All-implies,
}
use mathlib.Core.Path.{subst}

-- The request of the manager's promise has been made.
abbrev pub Made : Option ℕ → ℕ → Type 0
Made none made = Unit {0}
Made (some p) made = p < made

-- A call of the manager's promise took a smaller delta.
abbrev pub Behind : Option ℕ → ℕ → Call → Type 0
Behind none delta c = Unit {0}
Behind (some p) delta c = c.promise ≡ p → c.offset < delta

-- Two calls of one promise took different deltas.
abbrev pub Differ : Call → Call → Type 0
Differ c d = c.promise ≡ d.promise → c.offset ≢ d.offset

abbrev pub Apart : List Call → Type 0
Apart [] = Unit {0}
Apart (c ∷ cs) = All (Differ c) cs × Apart cs

-- The nonce of a sent transaction is the answer and the delta.
abbrev pub Counted : List (Option Reply) → Status → Call → Type 0
Counted replies waiting c = Unit {0}
Counted replies thrown c = Unit {0}
Counted replies (sent n) c =
    (b : ℕ) × (get_elem? replies c.promise ≡ some (some (nonce b))) × (n ≡ b + c.offset)

pub record Inv (m : Manager) (replies : List (Option Reply)) (calls : List Call) : Type 0 where
  pub made : Made m.nonce_promise (length replies)
  pub behind : All (Behind m.nonce_promise m.delta) calls
  pub known : All (λ c. c.promise < length replies) calls
  pub apart : Apart calls
  pub counted : All (λ c. Counted replies c.status c) calls

Apart-last :
    (cs : List Call) (c : Call) → All (λ d. Differ d c) cs → Apart cs → Apart (cs ++ (c ∷ []))
Apart-last [] c h a = (tt, tt)
Apart-last (d ∷ cs) c (hd, h) (hcs, a) =
    (All-append (Differ d) cs (c ∷ []) hcs (hd, tt), Apart-last cs c h a)

Counted-grows :
    (replies more : List (Option Reply)) (s : Status) (c : Call)
    → Counted replies s c
    → Counted (replies ++ more) s c
Counted-grows replies more waiting c h = tt
Counted-grows replies more thrown c h = tt
Counted-grows replies more (sent n) c (b, e, h) = (b, get_elem?-front replies more c.promise e, h)

pub Counted-settle_reply :
    (r : Reply) (p : ℕ) (replies : List (Option Reply)) (s : Status) (c : Call)
    → Counted replies s c
    → Counted (change (settle_reply r) p replies) s c
unfolding settle_reply
Counted-settle_reply r p replies waiting c h = tt
Counted-settle_reply r p replies thrown c h = tt
Counted-settle_reply r p replies (sent n) c (b, e, h) = (
  b,
  elim (get_elem?-change (settle_reply r) p replies c.promise e) [ inl e' ↦ e' | inr e' ↦ e' ],
  h,
)

module _ (m : Manager) (replies : List (Option Reply)) (calls : List Call) where
  -- A request more.
  grown : Inv m replies calls → All (λ c. c.promise < length (replies ++ (none ∷ []))) calls
  grown inv =
      All-implies (λ c. c.promise < length replies)
        (λ c. c.promise < length (replies ++ (none ∷ []))) calls
        (λ c h. omega (arith, length-append replies (none ∷ []))) inv.known

  pub ask-Inv :
      (o : Option ℕ)
      → m.nonce_promise ≡ o
      → Inv m replies calls
      → Inv
          (record m { nonce_promise = some (promise_of o (length replies)) })
          (requests o replies)
          calls
  ask-Inv none e inv = record {
    made = omega (arith, length-append replies (none ∷ []));
    behind =
        All-implies (λ c. c.promise < length replies) (Behind (some (length replies)) m.delta) calls
          (λ c h k. absurd (omega arith)) inv.known;
    known = grown inv;
    apart = inv.apart;
    counted =
        All-implies (λ c. Counted replies c.status c)
          (λ c. Counted (replies ++ (none ∷ [])) c.status c) calls
          (λ c. Counted-grows replies (none ∷ []) c.status c) inv.counted;
  }
  ask-Inv (some p) e inv = record {
    made = subst (λ o. Made o (length replies)) e inv.made;
    behind = subst (λ o. All (Behind o m.delta) calls) e inv.behind;
    known = inv.known;
    apart = inv.apart;
    counted = inv.counted;
  }

  -- The call that takes the promise and the delta at hand.
  pub send-Inv :
      (p : ℕ)
      → m.nonce_promise ≡ some p
      → Inv m replies calls
      → Inv
          (increment m)
          replies
          (calls ++ (record { promise = p; offset = m.delta; status = waiting } ∷ []))
  unfolding increment
  send-Inv p e inv =
      let call : Call = record { promise = p; offset = m.delta; status = waiting } in
      let behind : All (λ c. c.promise ≡ p → c.offset < m.delta) calls =
        subst (λ o. All (Behind o m.delta) calls) e inv.behind in
      let made : p < length replies = subst (λ o. Made o (length replies)) e inv.made in
      record {
        made = inv.made;
        behind =
            subst (λ o. All (Behind o (suc m.delta)) (calls ++ (call ∷ []))) (sym e)
              (All-append (λ c. c.promise ≡ p → c.offset < suc m.delta) calls (call ∷ [])
                (All-implies (λ c. c.promise ≡ p → c.offset < m.delta)
                  (λ c. c.promise ≡ p → c.offset < suc m.delta) calls
                  (λ c h k. let less = h k in omega arith) behind)
                (λ k. omega arith, tt));
        known = All-append (λ c. c.promise < length replies) calls (call ∷ []) inv.known (made, tt);
        apart =
            Apart-last calls call
              (All-implies (λ c. c.promise ≡ p → c.offset < m.delta) (λ d. Differ d call) calls
                (λ c h k k'. let less = h k in omega arith) behind)
              inv.apart;
        counted =
            All-append (λ c. Counted replies c.status c) calls (call ∷ []) inv.counted (tt, tt);
      }
