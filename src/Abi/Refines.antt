-- ===== src/Abi/Refines.antt =====
-- `AbiCoder.encode` writes the layout of the values, and `AbiCoder.decode` reads them back from it.
use corebc_js.Utils.Maths.{max_value}
use corebc_js.Abi.{
  Coder, Coders, Value, Values, array, tuple, list, count, count_coders, repeat_coder,
}
use corebc_js.Abi.Writer.{Writer, joined, new_writer, append_writer, write_data}
use corebc_js.Abi.Encode.{
  Packing, new_packing, backfill, finish_pack, encode, encode_types, pack_items, check_count,
}
use corebc_js.Abi.Decode.{decode_types}
use corebc_js.Abi.Layout.{
  layout, word, heads, head_space, tails, items_layout, Fits, fits_number, fits_address,
  fits_boolean, fits_fixed, fits_bytes, fits_string, fits_array, fits_tuple, FitsAll, fits_none,
  fits_item, FitsCount,
}
use corebc_js.Abi.Written.{Writes, number-Writes, boolean-Writes, write_number}
use corebc_js.Abi.Contents.{address-Writes, fixed_bytes-Writes, bytes-Writes, string-Writes}
use corebc_js.Abi.Heads.{head_space-le, word-long}
use corebc_js.Abi.Packed.{Packs, chunked, no_items-Packs}
use corebc_js.Abi.PackSteps.{item-Packs}
use corebc_js.Abi.RoundTrip.{decode_types-layout}
use corebc_js.Common.{
  ℕ, ◌+◌, ◌≤◌, arith, ◌≡◌, refl, ◌∙◌, ap, List, [], ◌∷◌, ◌++◌, append-nil, append_assoc, length,
  length-append, ◌>>=◌, ok, suc, sym, Bool, Option, none, some, le→leb, ==_iff, ◌>>◌, assert,
  invalid_argument,
}
use mathlib.Core.Path.{ap₂, subst}

-- A packing finished behind a writer: the heads and the tails are two more chunks.
record Finished (cs : Coders) (vs : Values) (p : Packing) (w : Writer) : Type 0 where
  added : List (List ℕ)
  result : Writer
  returns : finish_pack p w ≡ ok result
  appended : result.chunks ≡ w.chunks ++ added
  laid_out : joined added ≡ items_layout cs vs
  longer : result.data_length ≡ w.data_length + length (items_layout cs vs)

pack-Finished :
    (cs : Coders) (vs : Values) (w : Writer)
    → Packs cs vs
    → length (items_layout cs vs) ≤ max_value
    → (p : Packing) × (pack_items cs vs new_packing ≡ ok p) × Finished cs vs p w
unfolding finish_pack
pack-Finished cs vs w packs small =
    let start = head_space cs vs in
    let both = length-append (heads start cs vs 0) (tails cs vs) in
    let space = head_space-le start cs vs 0 in
    let q = packs new_packing (omega arith) in
    let (bs, joins, done) = q.filled start [] [] refl (omega arith) in
    let p = q.result in
    let x = joined bs in
    let y = joined p.tails.chunks in
    let whole : x ++ y ≡ items_layout cs vs = ap₂ (λ a b. a ++ b) joins q.tail_bytes in
    let filled : backfill p.updates p.heads ≡ ok (chunked bs start) =
      ap₂ backfill q.more_updates
        (ap₂ chunked (q.head_chunks ∙ sym (append-nil q.places)) (q.head_length ∙ omega arith))
      ∙ done
      ∙ ap (λ b. ok (chunked b start)) (append-nil bs) in
    (
      p,
      q.returns,
      record {
        added = x ∷ y ∷ [];
        result = append_writer p.tails (append_writer (chunked bs start) w);
        returns = ap (λ m. m >>= λ h. ok (append_writer p.tails (append_writer h w))) filled;
        appended = append_assoc w.chunks (x ∷ []) (y ∷ []);
        laid_out = ap (λ t. x ++ t) (append-nil y) ∙ whole;
        longer = omega (arith, ap length whole, length-append x y);
      },
    )

count-FitsAll : {cs : Coders} {vs : Values} → FitsAll cs vs → count_coders cs ≡ count vs
count-FitsAll fits_none = refl
count-FitsAll (fits_item h hs) = ap suc (count-FitsAll hs)

tuple-Writes :
    (cs : Coders) (vs : Values)
    → count_coders cs ≡ count vs
    → Packs cs vs
    → Writes (tuple cs) (list vs)
unfolding encode layout
tuple-Writes cs vs same packs w small =
    let (p, packed, f) = pack-Finished cs vs w packs small in
    record {
      result = f.result;
      added = f.added;
      returns =
          ap
            (λ b.
              assert b invalid_argument >> (pack_items cs vs new_packing >>= λ q. finish_pack q w))
            ((==_iff (count_coders cs) (count vs)).1 same)
          ∙ ap (λ m. m >>= λ q. finish_pack q w) packed
          ∙ f.returns;
      appended = f.appended;
      laid_out = f.laid_out;
      longer = f.longer;
    }

check_count-some : (n : ℕ) → check_count (some n) n ≡ ok tt
check_count-some n = rw (le→leb n n (omega arith)) refl

known-Writes :
    (c : Coder) (vs : Values)
    → Packs (repeat_coder (count vs) c) vs
    → Writes (array c (some (count vs))) (list vs)
unfolding encode layout
known-Writes c vs packs w small =
    let cs = repeat_coder (count vs) c in
    let (p, packed, f) = pack-Finished cs vs w packs small in
    record {
      result = f.result;
      added = f.added;
      returns =
          ap (λ m. m >> (pack_items cs vs new_packing >>= λ q. finish_pack q w))
            (check_count-some (count vs))
          ∙ ap (λ m. m >>= λ q. finish_pack q w) packed
          ∙ f.returns;
      appended = f.appended;
      laid_out = f.laid_out;
      longer = f.longer;
    }

counted-Writes :
    (c : Coder) (vs : Values)
    → Packs (repeat_coder (count vs) c) vs
    → FitsCount none (count vs) (length (items_layout (repeat_coder (count vs) c) vs))
    → Writes (array c none) (list vs)
unfolding encode layout
counted-Writes c vs packs fits w small =
    let n = count vs in
    let cs = repeat_coder n c in
    let both = length-append (word n) (items_layout cs vs) in
    let long = word-long n in
    let w' = write_data (word n) w in
    let (p, packed, f) = pack-Finished cs vs w' packs (omega arith) in
    record {
      result = f.result;
      added = word n ∷ f.added;
      returns =
          ap
            (λ m. m >>= λ u.
              check_count none n >> (pack_items cs vs new_packing >>= λ q. finish_pack q u))
            (write_number n w (omega arith))
          ∙ ap (λ m. m >>= λ q. finish_pack q w') packed
          ∙ f.returns;
      appended = f.appended ∙ append_assoc w.chunks (word n ∷ []) f.added;
      laid_out = ap (λ t. word n ++ t) f.laid_out;
      longer = omega (arith, f.longer);
    }

array-Writes :
    (c : Coder) (k : Option ℕ) (vs : Values)
    → Packs (repeat_coder (count vs) c) vs
    → FitsCount k (count vs) (length (items_layout (repeat_coder (count vs) c) vs))
    → Writes (array c k) (list vs)
array-Writes c none vs packs fits = counted-Writes c vs packs fits
array-Writes c (some k) vs packs fits =
    subst (λ n. Writes (array c (some n)) (list vs)) (sym fits) (known-Writes c vs packs)

mutual
  pub Fits-Writes : {c : Coder} {v : Value} → Fits c v → Writes c v
  Fits-Writes (fits_number lo hi h) = number-Writes _ _ _ lo hi h
  Fits-Writes (fits_address v h l e g) = address-Writes _ v h l e g
  Fits-Writes fits_boolean = boolean-Writes _
  Fits-Writes (fits_fixed v h l hi lo e) = fixed_bytes-Writes _ _ v h l e
  Fits-Writes (fits_bytes v h e) = bytes-Writes _ v h e
  Fits-Writes (fits_string ps h e) = string-Writes _ ps h e
  Fits-Writes (fits_array h n) = array-Writes _ _ _ (Fits-Packs h) n
  Fits-Writes (fits_tuple h) = tuple-Writes _ _ (count-FitsAll h) (Fits-Packs h)

  Fits-Packs : {cs : Coders} {vs : Values} → FitsAll cs vs → Packs cs vs
  Fits-Packs fits_none = no_items-Packs
  Fits-Packs (fits_item h hs) = item-Packs _ _ _ _ (Fits-Writes h) (Fits-Packs hs)

-- `AbiCoder.encode` writes the layout of the values, if they fit their types and the length of the
-- layout is a safe integer.
pub encode_types-layout :
    (cs : Coders) (vs : Values)
    → FitsAll cs vs
    → length (layout (tuple cs) (list vs)) ≤ max_value
    → encode_types cs vs ≡ ok (layout (tuple cs) (list vs))
unfolding encode_types
encode_types-layout cs vs h small =
    let t = Fits-Writes (fits_tuple h) new_writer small in
    let same = count-FitsAll h in
    ap (λ m. m >> (encode (tuple cs) (list vs) new_writer >>= λ w. ok (joined w.chunks)))
      (ap (λ k. check_count (some k) (count vs)) same ∙ check_count-some (count vs))
    ∙ ap (λ m. m >>= λ w. ok (joined w.chunks)) t.returns
    ∙ ap (λ bs. ok (joined bs)) t.appended
    ∙ ap ok t.laid_out

-- Values that fit their types are encoded by `AbiCoder.encode` without an error and given back by
-- `AbiCoder.decode` from its result, loose or not, if the length of their layout is a safe integer.
pub decode_types-encode_types :
    (cs : Coders) (vs : Values) (loose : Bool)
    → FitsAll cs vs
    → length (layout (tuple cs) (list vs)) ≤ max_value
    → (v : List ℕ) × (encode_types cs vs ≡ ok v) × (decode_types cs v loose ≡ ok vs)
decode_types-encode_types cs vs loose h small =
    let v = layout (tuple cs) (list vs) in
    (
      v,
      encode_types-layout cs vs h small,
      subst (λ t. decode_types cs t loose ≡ ok vs) (append-nil v)
          (decode_types-layout cs vs [] loose h
            (subst (λ t. length t ≤ max_value) (sym (append-nil v)) small)),
    )
