-- ===== src/Abi/Packed.antt =====
-- `pack` of src.ts/abi/coders/array.ts: the chunks of the heads with their placeholders, the updates
-- that wait for the length of the heads, and the tails.
use corebc_js.Utils.Maths.{BigNumberish, max_value}
use corebc_js.Common.Integers.{pos}
use corebc_js.Abi.{Coder, Coders, Value, Values, no_coders, coder, no_values, value, is_dynamic}
use corebc_js.Abi.Writer.{Writer, joined, set_chunk, update_value}
use corebc_js.Abi.Encode.{Packing, backfill, pack_items}
use corebc_js.Abi.Layout.{layout, word, heads, head_space, tails}
use corebc_js.Abi.Written.{get_value-word, number_bytes}
use corebc_js.Abi.Heads.{head, tail, tail_taken}
use corebc_js.Common.{
  ℕ, ◌+◌, ◌≤◌, arith, ◌≡◌, refl, sym, ◌∙◌, ap, true, List, [], ◌∷◌, ◌++◌, append-nil, append_assoc,
  length, replicate, length-append, ◌>>=◌, ok, false,
}
use mathlib.Core.Path.{ap₂}

pub joined-append : (a b : List (List ℕ)) → joined (a ++ b) ≡ joined a ++ joined b
joined-append [] b = refl
joined-append (x ∷ a) b =
    ap (λ t. x ++ t) (joined-append a b) ∙ sym (append_assoc x (joined a) (joined b))

abbrev pub chunked : List (List ℕ) → ℕ → Writer
chunked bs n = record { chunks = bs; data_length = n }

-- The packing after the items: `places` are the new chunks of the heads, `waiting` the new updates.
-- With the updates done, in a writer as long as all heads are, the chunks are the heads.
pub record PacksFrom (cs : Coders) (vs : Values) (p : Packing) : Type 0 where
  pub result : Packing
  pub places : List (List ℕ)
  pub waiting : List (ℕ × ℕ)
  pub returns : pack_items cs vs p ≡ ok result
  pub head_chunks : result.heads.chunks ≡ p.heads.chunks ++ places
  pub head_length : result.heads.data_length ≡ p.heads.data_length + head_space cs vs
  pub more_updates : result.updates ≡ p.updates ++ waiting
  pub tail_bytes : joined result.tails.chunks ≡ joined p.tails.chunks ++ tails cs vs
  pub tail_length : result.tails.data_length ≡ p.tails.data_length + length (tails cs vs)
  pub filled :
      (start : ℕ) (before after : List (List ℕ))
      → length before ≡ length p.heads.chunks
      → start + p.tails.data_length + length (tails cs vs) ≤ max_value
      → (bs : List (List ℕ)) × (joined bs ≡ heads start cs vs p.tails.data_length)
        × (backfill waiting (chunked (before ++ (places ++ after)) start)
            ≡ ok (chunked (before ++ (bs ++ after)) start))

abbrev pub Packs : Coders → Values → Type 0
Packs cs vs =
    (p : Packing) → head_space cs vs + length (tails cs vs) ≤ max_value → PacksFrom cs vs p

pub no_items-Packs : Packs no_coders no_values
unfolding pack_items heads backfill
no_items-Packs p h = record {
  result = p;
  places = [];
  waiting = [];
  returns = refl;
  head_chunks = sym (append-nil p.heads.chunks);
  head_length = omega arith;
  more_updates = sym (append-nil p.updates);
  tail_bytes = sym (append-nil (joined p.tails.chunks));
  tail_length = omega arith;
  filled = λ start before after l s. ([], refl, refl);
}

set_chunk-length :
    (before rest : List (List ℕ)) (b v : List ℕ)
    → set_chunk (before ++ b ∷ rest) (length before) v ≡ before ++ v ∷ rest
set_chunk-length [] rest b v = refl
set_chunk-length (x ∷ before) rest b v = ap (λ t. x ∷ t) (set_chunk-length before rest b v)

update_value-place :
    (before rest : List (List ℕ)) (b : List ℕ) (start place n : ℕ)
    → length before ≡ place
    → n ≤ max_value
    → update_value place (BigNumberish.number (pos n)) (chunked (before ++ b ∷ rest) start)
      ≡ ok (chunked (before ++ word n ∷ rest) start)
unfolding update_value
update_value-place before rest b start place n l h =
    ap (λ m. m >>= λ v. ok (chunked (set_chunk (before ++ b ∷ rest) place v) start))
      (get_value-word (BigNumberish.number (pos n)) n (number_bytes n h) (omega arith))
    ∙ ap (λ k. ok (chunked (set_chunk (before ++ b ∷ rest) k (word n)) start)) (sym l)
    ∙ ap (λ bs. ok (chunked bs start)) (set_chunk-length before rest b (word n))

-- What `filled` says, of heads behind `k` chunks with `d` bytes of tails before them.
abbrev pub Fills : Coders → Values → ℕ → ℕ → List (List ℕ) → List (ℕ × ℕ) → Type 0
Fills cs vs k d places waiting =
    (start : ℕ) (before after : List (List ℕ))
    → length before ≡ k
    → start + d + length (tails cs vs) ≤ max_value
    → (bs : List (List ℕ)) × (joined bs ≡ heads start cs vs d)
      × (backfill waiting (chunked (before ++ (places ++ after)) start)
          ≡ ok (chunked (before ++ (bs ++ after)) start))

taken_length :
    (c : Coder) (v : Value) (vs : Values) (cs : Coders) (start d d' : ℕ)
    → d' ≡ d + length (tail c v)
    → head c v (start + d) ++ heads start cs vs d' ≡ heads start (coder c cs) (value v vs) d
unfolding heads
taken_length c v vs cs start d d' e =
    ap (λ k. head c v (start + d) ++ heads start cs vs k) (e ∙ sym (tail_taken c v d))

pub far_filled :
    (c : Coder) (v : Value) (cs : Coders) (vs : Values) (k d d' : ℕ) (places : List (List ℕ))
    (waiting : List (ℕ × ℕ))
    → is_dynamic c ≡ true
    → d' ≡ d + length (tail c v)
    → Fills cs vs (k + 1) d' places waiting
    → Fills (coder c cs) (value v vs) k d (replicate 32 0 ∷ places) ((k, d) ∷ waiting)
unfolding backfill heads
far_filled c v cs vs k d d' places waiting far e fills start before after l small =
    let n = start + d in
    let more = length-append (tail c v) (tails cs vs) in
    let first : head c v n ≡ word n = rw far refl in
    let (bs, joins, done) =
      fills start (before ++ word n ∷ []) after
        (length-append before (word n ∷ []) ∙ ap (λ j. j + 1) l) (omega arith) in
    (
      word n ∷ bs,
      ap₂ (λ x y. x ++ y) (sym first) joins ∙ taken_length c v vs cs start d d' e,
      ap (λ m. m >>= backfill waiting)
            (update_value-place before (places ++ after) (replicate 32 0) start k n l (omega arith))
          ∙ ap (λ x. backfill waiting (chunked x start))
              (sym (append_assoc before (word n ∷ []) (places ++ after)))
          ∙ done
          ∙ ap (λ x. ok (chunked x start)) (append_assoc before (word n ∷ []) (bs ++ after)),
    )

pub near_filled :
    (c : Coder) (v : Value) (cs : Coders) (vs : Values) (k d : ℕ) (added places : List (List ℕ))
    (waiting : List (ℕ × ℕ))
    → is_dynamic c ≡ false
    → joined added ≡ layout c v
    → Fills cs vs (k + length added) d places waiting
    → Fills (coder c cs) (value v vs) k d (added ++ places) waiting
unfolding heads
near_filled c v cs vs k d added places waiting near laid fills start before after l small =
    let none_added : tail c v ≡ [] = rw near refl in
    let more = length-append (tail c v) (tails cs vs) in
    let first : head c v (start + d) ≡ layout c v = rw near refl in
    let (bs, joins, done) =
      fills start (before ++ added) after
        (length-append before added ∙ ap (λ j. j + length added) l) (omega arith) in
    (
      added ++ bs,
      joined-append added bs
          ∙ ap₂ (λ x y. x ++ y) (laid ∙ sym first) joins
          ∙ taken_length c v vs cs start d d (omega (arith, ap length none_added)),
      ap (λ x. backfill waiting (chunked x start)) (insert before added places after)
          ∙ done
          ∙ ap (λ x. ok (chunked x start)) (sym (insert before added bs after)),
    )
  where
    insert : (a b x y : List (List ℕ)) → a ++ ((b ++ x) ++ y) ≡ (a ++ b) ++ (x ++ y)
    insert a b x y = simp append_assoc
