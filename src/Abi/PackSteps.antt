-- ===== src/Abi/PackSteps.antt =====
-- One step of `pack` of src.ts/abi/coders/array.ts: an item behind its value in the heads or the tails.
use corebc_js.Abi.{Coder, Coders, Value, Values, coder, value, is_dynamic}
use corebc_js.Abi.Writer.{joined}
use corebc_js.Abi.Encode.{Packing, add_dynamic, backfill, pack_items}
use corebc_js.Abi.Layout.{layout, heads, tails}
use corebc_js.Abi.Written.{Adds, Writes}
use corebc_js.Abi.Heads.{head_size, tail}
use corebc_js.Common.{
  ◌+◌, arith, ◌≡◌, refl, sym, ◌∙◌, ap, true, [], ◌∷◌, ◌++◌, append_assoc, length, replicate,
  length-append, ◌>>=◌, inl, inr, false, Bool-cases,
}
use mathlib.Core.Path.{subst}
use corebc_js.Abi.Packed.{joined-append, PacksFrom, Packs, Fills, far_filled, near_filled}

-- A dynamic item: its value in the tails, and a placeholder with its update.
far_step :
    (c : Coder) (v : Value) (cs : Coders) (vs : Values) (p : Packing)
    → is_dynamic c ≡ true
    → (t : Adds p.tails c v) → PacksFrom cs vs (add_dynamic p t.result)
    → PacksFrom (coder c cs) (value v vs) p
unfolding pack_items heads backfill
far_step c v cs vs p e t q =
    let d = p.tails.data_length in
    let size : head_size c v ≡ 32 = rw e refl in
    let tail_is : tail c v ≡ layout c v = rw e refl in
    let added : joined t.result.chunks ≡ joined p.tails.chunks ++ tail c v =
      ap joined t.appended
      ∙ joined-append p.tails.chunks t.added
      ∙ ap (λ x. joined p.tails.chunks ++ x) (t.laid_out ∙ sym tail_is) in
    let more = length-append (tail c v) (tails cs vs) in
    let same = ap length tail_is in
    record {
      result = q.result;
      places = replicate 32 0 ∷ q.places;
      waiting = (length p.heads.chunks, d) ∷ q.waiting;
      returns =
          rw e (ap (λ m. m >>= λ ts. pack_items cs vs (add_dynamic p ts)) t.returns ∙ q.returns);
      head_chunks = q.head_chunks ∙ append_assoc p.heads.chunks (replicate 32 0 ∷ []) q.places;
      head_length = omega (arith, q.head_length, size);
      more_updates =
          q.more_updates ∙ append_assoc p.updates ((length p.heads.chunks, d) ∷ []) q.waiting;
      tail_bytes =
          q.tail_bytes
          ∙ ap (λ x. x ++ tails cs vs) added
          ∙ append_assoc (joined p.tails.chunks) (tail c v) (tails cs vs);
      tail_length = omega (arith, q.tail_length, t.longer);
      filled =
          far_filled c v cs vs (length p.heads.chunks) d t.result.data_length q.places q.waiting e
            (omega (arith, t.longer))
            (subst (λ k. Fills cs vs k t.result.data_length q.places q.waiting)
              (length-append p.heads.chunks (replicate 32 0 ∷ [])) q.filled);
    }

-- A static item: its value in the heads.
near_step :
    (c : Coder) (v : Value) (cs : Coders) (vs : Values) (p : Packing)
    → is_dynamic c ≡ false
    → (t : Adds p.heads c v)
    → PacksFrom cs vs (record { heads = t.result; tails = p.tails; updates = p.updates })
    → PacksFrom (coder c cs) (value v vs) p
unfolding pack_items heads
near_step c v cs vs p e t q =
    let size : head_size c v ≡ length (layout c v) = rw e refl in
    let tail_is : tail c v ≡ [] = rw e refl in
    let others : tails (coder c cs) (value v vs) ≡ tails cs vs =
      ap (λ x. x ++ tails cs vs) tail_is in
    record {
      result = q.result;
      places = t.added ++ q.places;
      waiting = q.waiting;
      returns = rw e (
          ap
            (λ m. m >>= λ h.
              pack_items cs vs (record { heads = h; tails = p.tails; updates = p.updates }))
            t.returns
          ∙ q.returns);
      head_chunks =
          q.head_chunks
          ∙ ap (λ x. x ++ q.places) t.appended
          ∙ append_assoc p.heads.chunks t.added q.places;
      head_length = omega (arith, q.head_length, t.longer, size);
      more_updates = q.more_updates;
      tail_bytes = q.tail_bytes ∙ ap (λ x. joined p.tails.chunks ++ x) (sym others);
      tail_length = q.tail_length ∙ ap (λ x. p.tails.data_length + length x) (sym others);
      filled =
          near_filled c v cs vs (length p.heads.chunks) p.tails.data_length t.added q.places
            q.waiting e t.laid_out
            (subst (λ k. Fills cs vs k p.tails.data_length q.places q.waiting)
              (ap length t.appended ∙ length-append p.heads.chunks t.added) q.filled);
    }

pub item-Packs :
    (c : Coder) (v : Value) (cs : Coders) (vs : Values)
    → Writes c v
    → Packs cs vs
    → Packs (coder c cs) (value v vs)
unfolding heads
item-Packs c v cs vs writes packs p small =
    let more = length-append (tail c v) (tails cs vs) in
    elim (Bool-cases (is_dynamic c)) [
      | inl e ↦
          let tail_is : tail c v ≡ layout c v = rw e refl in
          let same = ap length tail_is in
          let t = writes p.tails (omega arith) in
          far_step c v cs vs p e t (packs (add_dynamic p t.result) (omega arith))
      | inr e ↦
          let size : head_size c v ≡ length (layout c v) = rw e refl in
          let t = writes p.heads (omega arith) in near_step c v cs vs p e t (packs _ (omega arith))
    ]
