-- ===== src/Abi/RoundTrip.antt =====
-- The decoders of src.ts/abi/coders give back every value that they take, from its layout.
use corebc_js.Utils.Maths.{max_value}
use corebc_js.Abi.{
  Coder, Coders, Value, Values, array, tuple, no_coders, list, no_values, count, is_dynamic,
  any_dynamic, repeat_coder,
}
use corebc_js.Abi.Reader.{sub_reader, next, ◌>>=◌, ◌>>◌, call, read_index}
use corebc_js.Abi.Decode.{
  decode, unpack, unpack_times, read_count, check_space, with_base, decode_types, result_items,
}
use corebc_js.Abi.Layout.{
  layout, word, heads, head_space, tails, items_layout, Fits, fits_number, fits_address,
  fits_boolean, fits_fixed, fits_bytes, fits_string, fits_array, fits_tuple, FitsAll, fits_none,
  fits_item, FitsCount,
}
use corebc_js.Abi.Words.{at, length-word, read_index-word}
use corebc_js.Abi.Scalars.{ReadsBack, number-ReadsBack, boolean-ReadsBack}
use corebc_js.Abi.Addresses.{address-ReadsBack}
use corebc_js.Abi.Blobs.{fixed_bytes-ReadsBack, bytes-ReadsBack, string-ReadsBack}
use corebc_js.Abi.Heads.{length-heads, head_space-le, word-long}
use corebc_js.Abi.Places.{
  Place, next-Place, first-Place, unpack_step, unpack_times-unpack, settle-Fits, tails-static,
  any_dynamic-repeat_coder,
}
use corebc_js.Common.{
  ℕ, ◌+◌, ◌≤◌, arith, ◌≡◌, ◌∙◌, ap, Bool, false, List, ◌++◌, length, length-append, length_three,
  ok, ◌*◌, refl, sym, Option, none, some, [], append-nil, append_assoc, le→leb, drop,
}
use mathlib.Core.Path.{subst}

abbrev ReadItems : Coders → Values → Type 0
ReadItems cs vs =
    (start d : ℕ) (whole front base before passed rest : List ℕ) (loose : Bool)
    → Place start d cs vs whole front base before passed rest
    → unpack cs (at loose base 0) (at loose whole (length (front ++ before)))
      ≡ (ok vs, at loose whole (length (front ++ before) + head_space cs vs))

length-items_layout :
    (cs : Coders) (vs : Values) (whole front rest : List ℕ)
    → length whole ≤ max_value
    → whole ≡ front ++ (items_layout cs vs ++ rest)
    → any_dynamic cs ≡ false
    → head_space cs vs ≡ length (items_layout cs vs)
length-items_layout cs vs whole front rest small g near =
    let none_left : length (tails cs vs) ≡ 0 = ap length (tails-static cs vs near) in
    let both = length-append (heads (head_space cs vs) cs vs 0) (tails cs vs) in
    let space = head_space-le (head_space cs vs) cs vs 0 in
    let total : length whole ≡ length front + length (items_layout cs vs) + length rest =
      ap length g ∙ length_three front (items_layout cs vs) rest in
    omega (arith, length-heads (head_space cs vs) cs vs 0 (omega arith))

-- The items behind `front`, with the base there.
items_back :
    (cs : Coders) (vs : Values)
    → ReadItems cs vs
    → (loose : Bool) (whole front rest : List ℕ) → length whole ≤ max_value
    → whole ≡ front ++ (items_layout cs vs ++ rest)
    → with_base (λ base. unpack cs base) (at loose whole (length front))
      ≡ (ok vs, at loose whole (length front + head_space cs vs))
items_back cs vs read loose whole front rest small g =
    let base = drop (length front + 0) whole in
    subst
      (λ f.
        unpack cs (at loose base 0) (at loose whole (length f))
        ≡ (ok vs, at loose whole (length f + head_space cs vs)))
      (append-nil front)
      (read (head_space cs vs) 0 whole front base [] [] rest loose
        (first-Place whole front rest small g))

tuple-ReadsBack : (cs : Coders) (vs : Values) → ReadItems cs vs → ReadsBack (tuple cs) (list vs)
unfolding decode layout is_dynamic
tuple-ReadsBack cs vs read loose whole front rest small g = (
  length front + head_space cs vs,
  ap (λ m. next m (λ ws. call (ok (list ws))))
      (items_back cs vs read loose whole front rest small g),
  λ near. ap (λ k. length front + k) (length-items_layout cs vs whole front rest small g near),
)

-- The elements behind a count that was read or is known.
elements_back :
    (c : Coder) (vs : Values)
    → ReadItems (repeat_coder (count vs) c) vs
    → (loose : Bool) (whole front rest : List ℕ) → length whole ≤ max_value
    → whole ≡ front ++ (items_layout (repeat_coder (count vs) c) vs ++ rest)
    → with_base
        (λ base. unpack_times base (is_dynamic c) (decode c) (count vs))
        (at loose whole (length front))
      ≡ (ok vs, at loose whole (length front + head_space (repeat_coder (count vs) c) vs))
elements_back c vs read loose whole front rest small g =
    let r = at loose whole (length front) in
    ap (λ m. m r) (unpack_times-unpack (sub_reader 0 r) c (count vs))
    ∙ items_back (repeat_coder (count vs) c) vs read loose whole front rest small g

known-ReadsBack :
    (c : Coder) (vs : Values)
    → ReadItems (repeat_coder (count vs) c) vs
    → ReadsBack (array c (some (count vs))) (list vs)
unfolding decode layout is_dynamic
known-ReadsBack c vs read loose whole front rest small g =
    let cs = repeat_coder (count vs) c in
    (
      length front + head_space cs vs,
      ap (λ m. next m (λ ws. call (ok (list ws))))
          (elements_back c vs read loose whole front rest small g),
      λ near.
          ap (λ k. length front + k)
            (length-items_layout cs vs whole front rest small g
              (any_dynamic-repeat_coder (count vs) c near)),
    )

read_count-word :
    (n : ℕ) (loose : Bool) (whole front rest : List ℕ)
    → n ≤ max_value
    → n * 32 ≤ length whole
    → whole ≡ front ++ (word n ++ rest)
    → read_count none (at loose whole (length front))
      ≡ (ok n, at loose whole (length (front ++ word n)))
read_count-word n loose whole front rest small fits g =
    let first : read_index (at loose whole (length front))
        ≡ (ok n, at loose whole (length front + 32)) =
      rw g (read_index-word n loose front rest small) in
    let place : length (front ++ word n) ≡ length front + 32 =
      length-append front (word n) ∙ ap (λ k. length front + k) (length-word n (omega arith)) in
    ap (λ m. next m (λ k. check_space k >> call (ok k))) first
    ∙ rw (le→leb (n * 32) (length whole) fits) (ap (λ k. (ok n, at loose whole k)) (sym place))

read-ReadsBack :
    (c : Coder) (vs : Values)
    → ReadItems (repeat_coder (count vs) c) vs
    → FitsCount none (count vs) (length (items_layout (repeat_coder (count vs) c) vs))
    → ReadsBack (array c none) (list vs)
unfolding decode layout is_dynamic
read-ReadsBack c vs read fits loose whole front rest small g =
    let n = count vs in
    let cs = repeat_coder n c in
    let items = items_layout cs vs in
    let split : whole ≡ front ++ (word n ++ (items ++ rest)) =
      g ∙ ap (λ t. front ++ t) (append_assoc (word n) items rest) in
    let total : length whole ≡ length front + length (word n) + length (items ++ rest) =
      ap length split ∙ length_three front (word n) (items ++ rest) in
    let both = length-append items rest in
    let room : n * 32 ≤ length whole = omega (arith, word-long n) in
    (
      length (front ++ word n) + head_space cs vs,
      ap
            (λ m. next m (λ k.
              with_base (λ base. unpack_times base (is_dynamic c) (decode c) k) >>= λ ws.
              call (ok (list ws))))
            (read_count-word n loose whole front (items ++ rest) (omega arith) room split)
          ∙ ap (λ m. next m (λ ws. call (ok (list ws))))
              (elements_back c vs read loose whole (front ++ word n) rest small
                (split ∙ sym (append_assoc front (word n) (items ++ rest)))),
      λ near. cc,
    )

array-ReadsBack :
    (c : Coder) (k : Option ℕ) (vs : Values)
    → ReadItems (repeat_coder (count vs) c) vs
    → FitsCount k (count vs) (length (items_layout (repeat_coder (count vs) c) vs))
    → ReadsBack (array c k) (list vs)
array-ReadsBack c none vs read fits = read-ReadsBack c vs read fits
array-ReadsBack c (some k) vs read fits =
    subst (λ n. ReadsBack (array c (some n)) (list vs)) (sym fits) (known-ReadsBack c vs read)

read_no_items : ReadItems no_coders no_values
unfolding unpack head_space
read_no_items start d whole front base before passed rest loose p =
    ap (λ k. (ok no_values, at loose whole k)) (omega arith)

mutual
  reads_back : {c : Coder} {v : Value} → Fits c v → ReadsBack c v
  reads_back (fits_number lo hi h) = number-ReadsBack _ _ _ lo hi h
  reads_back (fits_address w h l e g) = address-ReadsBack _ w h l e g
  reads_back fits_boolean = boolean-ReadsBack _
  reads_back (fits_fixed w h l hi lo e) = fixed_bytes-ReadsBack _ _ w h l e
  reads_back (fits_bytes w h e) = bytes-ReadsBack _ w h e
  reads_back (fits_string ps h e) = string-ReadsBack _ ps h e
  reads_back (fits_array h n) = array-ReadsBack _ _ _ (read_items h) n
  reads_back (fits_tuple h) = tuple-ReadsBack _ _ (read_items h)

  read_items : {cs : Coders} {vs : Values} → FitsAll cs vs → ReadItems cs vs
  read_items fits_none = read_no_items
  read_items (fits_item h hs) = λ start d whole front base before passed rest loose p.
      unpack_step p loose (reads_back h) (settle-Fits h)
        (read_items hs start _ whole front base _ _ rest loose (next-Place p))

-- `AbiCoder.decode` gives back values that their coders take, from their layout and from a longer
-- text that starts with it, loose or not, where its length is a safe integer.
pub decode_types-layout :
    (cs : Coders) (vs : Values) (rest : List ℕ) (loose : Bool)
    → FitsAll cs vs
    → length (layout (tuple cs) (list vs) ++ rest) ≤ max_value
    → decode_types cs (layout (tuple cs) (list vs) ++ rest) loose ≡ ok vs
unfolding decode_types
decode_types-layout cs vs rest loose h small =
    let v = layout (tuple cs) (list vs) ++ rest in
    let (_, e, _) = reads_back (fits_tuple h) loose v [] rest small refl in
    ap (λ m. result_items m.0) e
