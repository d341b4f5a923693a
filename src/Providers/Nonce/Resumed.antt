-- ===== src/Providers/Nonce/Resumed.antt =====
-- A waiting call of sendTransaction of src.ts/providers/signer-noncemanager.ts goes on: what holds
-- between two events still does.
use corebc_js.Providers.Nonce.{
  Reply, nonce, rejected, Manager, Status, waiting, thrown, sent, Call, resume_with, resume_if,
  resume, change,
}
use corebc_js.Providers.Nonce.Places.{All-change}
use corebc_js.Providers.Nonce.Invariant.{Behind, Differ, Apart, Counted, Inv}
use corebc_js.Common.{
  ℕ, zero, suc, ◌<◌, arith, ◌≡◌, refl, sym, ◌∙◌, Option, none, some, List, [], ◌∷◌, length,
  get_elem?, All, All-implies,
}
use mathlib.Core.Path.{subst}

-- What going on does to a call: its promise and its delta stay.
record Goes (replies : List (Option Reply)) (c d : Call) : Type 0 where
  promise_same : d.promise ≡ c.promise
  offset_same : d.offset ≡ c.offset
  counted_after : Counted replies c.status c → Counted replies d.status d

resume_with-Goes :
    (replies : List (Option Reply)) (o : Option (Option Reply)) (c : Call)
    → get_elem? replies c.promise ≡ o
    → Goes replies c (resume_with o c)
unfolding resume_with
resume_with-Goes replies (some (some (nonce n))) c e = record {
  promise_same = refl;
  offset_same = refl;
  counted_after = λ _. (n, e, refl);
}
resume_with-Goes replies (some (some rejected)) c e = record {
  promise_same = refl;
  offset_same = refl;
  counted_after = λ _. tt;
}
resume_with-Goes replies (some none) c e = record {
  promise_same = refl;
  offset_same = refl;
  counted_after = λ h. h;
}
resume_with-Goes replies none c e = record {
  promise_same = refl;
  offset_same = refl;
  counted_after = λ h. h;
}

resume-Goes :
    (replies : List (Option Reply)) (s : Status) (c : Call) → Goes replies c (resume_if s replies c)
resume-Goes replies waiting c = resume_with-Goes replies (get_elem? replies c.promise) c refl
resume-Goes replies thrown c = record {
  promise_same = refl;
  offset_same = refl;
  counted_after = λ h. h;
}
resume-Goes replies (sent n) c = record {
  promise_same = refl;
  offset_same = refl;
  counted_after = λ h. h;
}

Differ-left :
    (c c' d : Call) → c'.promise ≡ c.promise → c'.offset ≡ c.offset → Differ c d → Differ c' d
Differ-left c c' d p o h = λ e k. h (sym p ∙ e) (sym o ∙ k)

Differ-right :
    (c d d' : Call) → d'.promise ≡ d.promise → d'.offset ≡ d.offset → Differ c d → Differ c d'
Differ-right c d d' p o h = λ e k. h (e ∙ p) (k ∙ o)

module _ (f : Call → Call) (same_promise : (c : Call) → (f c).promise ≡ c.promise)
    (same_offset : (c : Call) → (f c).offset ≡ c.offset) where
  Apart-change : (i : ℕ) (cs : List Call) → Apart cs → Apart (change f i cs)
  unfolding change
  Apart-change i [] h = h
  Apart-change zero (c ∷ cs) (h, hs) = (
    All-implies (Differ c) (Differ (f c)) cs
        (λ d k. Differ-left c (f c) d (same_promise c) (same_offset c) k) h,
    hs,
  )
  Apart-change (suc i) (c ∷ cs) (h, hs) = (
    All-change (Differ c) f i cs (λ d k. Differ-right c d (f d) (same_promise d) (same_offset d) k)
        h,
    Apart-change i cs hs,
  )

pub go_on-Inv :
    (m : Manager) (replies : List (Option Reply)) (calls : List Call) (i : ℕ)
    → Inv m replies calls
    → Inv m replies (change (resume replies) i calls)
unfolding resume
go_on-Inv m replies calls i inv = record {
  made = inv.made;
  behind = stays m.nonce_promise inv.behind;
  known =
      All-change (λ c. c.promise < length replies) f i calls
        (λ c h. subst (λ p. p < length replies) (sym (goes c).promise_same) h) inv.known;
  apart = Apart-change f (λ c. (goes c).promise_same) (λ c. (goes c).offset_same) i calls inv.apart;
  counted =
      All-change (λ c. Counted replies c.status c) f i calls (λ c h. (goes c).counted_after h)
        inv.counted;
}
  where
    f : Call → Call
    f = λ c. resume_if c.status replies c

    goes : (c : Call) → Goes replies c (resume_if c.status replies c)
    goes c = resume-Goes replies c.status c

    stays :
        (o : Option ℕ) → All (Behind o m.delta) calls → All (Behind o m.delta) (change f i calls)
    stays o h =
        All-change (Behind o m.delta) f i calls
          (λ c k. keeps o c (f c) (goes c).promise_same (goes c).offset_same k) h
      where
        keeps :
            (o : Option ℕ) (c d : Call)
            → d.promise ≡ c.promise
            → d.offset ≡ c.offset
            → Behind o m.delta c
            → Behind o m.delta d
        keeps none c d p e h = tt
        keeps (some q) c d p e h = λ k. let less = h (sym p ∙ k) in omega arith
