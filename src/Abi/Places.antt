-- ===== src/Abi/Places.antt =====
-- The places that `unpack` of src.ts/abi/coders/array.ts passes on its way over a layout.
use corebc_js.Utils.Maths.{max_value}
use corebc_js.Abi.{
  Coder, Coders, Value, Values, no_coders, coder, no_values, value, is_dynamic, any_dynamic,
  repeat_coder,
}
use corebc_js.Abi.Reader.{Reader, next, ◌>>=◌, call}
use corebc_js.Abi.Decode.{decode, unpack, unpack_times, settle, read_item}
use corebc_js.Abi.Layout.{
  layout, heads, head_space, tails, items_layout, Fits, fits_number, fits_address, fits_boolean,
  fits_fixed, fits_bytes, fits_string, fits_array, fits_tuple,
}
use corebc_js.Abi.Words.{at}
use corebc_js.Abi.Scalars.{ReadsBack}
use corebc_js.Abi.Heads.{
  head, head_size, tail, length-head, head_space-le, tail_taken, length-heads, read_head,
}
use corebc_js.Common.{
  ℕ, zero, suc, ◌+◌, ◌≤◌, ◌≡◌, refl, ap, List, ◌++◌, append_assoc, length, ok, arith, sym, ◌∙◌,
  if◌then◌else◌, drop, length-append, drop-append, length_three, Bool, inl, inr, false, [],
  Bool-cases,
}

-- Where `unpack` stands in the base, which is behind `front`: `before` are the heads read, `passed`
-- the tails of their items.
pub record Place (start d : ℕ) (cs : Coders) (vs : Values)
    (whole front base before passed rest : List ℕ) : Type 0 where
  small : length whole ≤ max_value
  split : whole ≡ front ++ base
  bytes : base ≡ before ++ (heads start cs vs d ++ (passed ++ (tails cs vs ++ rest)))
  start_at : start ≡ length before + head_space cs vs
  passed_length : d ≡ length passed

shuffle :
    (a b c d e f g : List ℕ)
    → a ++ ((b ++ c) ++ (d ++ ((e ++ f) ++ g))) ≡ (a ++ b) ++ (c ++ ((d ++ e) ++ (f ++ g)))
shuffle a b c d e f g = simp (append_assoc)

pub settle-Fits : {c : Coder} {v : Value} → Fits c v → settle (ok v) ≡ ok v
settle-Fits (fits_number lo hi h) = refl
settle-Fits (fits_address w hw l e g) = refl
settle-Fits fits_boolean = refl
settle-Fits (fits_fixed w hw l hi lo e) = refl
settle-Fits (fits_bytes w hw e) = refl
settle-Fits (fits_string ps h e) = refl
settle-Fits (fits_array h n) = refl
settle-Fits (fits_tuple h) = refl

pub unpack_times-unpack :
    (base : Reader) (c : Coder) (n : ℕ)
    → unpack_times base (is_dynamic c) (decode c) n ≡ unpack (repeat_coder n c) base
unfolding unpack_times unpack
unpack_times-unpack base c zero = refl
unpack_times-unpack base c (suc n) =
    ap (λ m. read_item base (is_dynamic c) (decode c) >>= λ v. m >>= λ vs. call (ok (value v vs)))
      (unpack_times-unpack base c n)

length_six :
    (a b c d e f : List ℕ)
    → length (a ++ (b ++ (c ++ (d ++ (e ++ f)))))
      ≡ length a + length b + length c + length d + length e + length f
length_six a b c d e f = omega (
  arith,
  length-append a (b ++ (c ++ (d ++ (e ++ f)))),
  length-append b (c ++ (d ++ (e ++ f))),
  length_three c d (e ++ f),
  length-append e f,
)

module _ {start d : ℕ} {cs : Coders} {vs : Values} {whole front base before passed rest : List ℕ}
    (p : Place start d cs vs whole front base before passed rest) where
  within : start + d + length (tails cs vs) ≤ max_value
  within = omega (
    arith,
    p.small,
    p.start_at,
    p.passed_length,
    ap length (p.split ∙ ap (λ t. front ++ t) p.bytes)
        ∙ length_six front before (heads start cs vs d) passed (tails cs vs) rest,
    head_space-le start cs vs d,
  )

  -- The tails stand where the heads point to.
  tails_at : drop (start + d) base ≡ tails cs vs ++ rest
  tails_at =
      let hs = heads start cs vs d in
      ap (drop (start + d)) (
        p.bytes
        ∙ sym (append_assoc before hs (passed ++ (tails cs vs ++ rest)))
        ∙ sym (append_assoc (before ++ hs) passed (tails cs vs ++ rest)))
      ∙ drop-append ((before ++ hs) ++ passed) (tails cs vs ++ rest) (start + d) (
          omega (
            arith,
            p.start_at,
            p.passed_length,
            length-append (before ++ hs) passed,
            length-append before hs,
            length-heads start cs vs d within,
          ))

module _ {start d : ℕ} {c : Coder} {cs : Coders} {v : Value} {vs : Values}
    {whole front base before passed rest : List ℕ}
    (p : Place start d (coder c cs) (value v vs) whole front base before passed rest) where
  abbrev pub next_taken : ℕ
  next_taken = if is_dynamic c then d + length (layout c v) else d

  pub next-Place :
      Place start next_taken cs vs whole front base
        (before ++ head c v (start + d))
        (passed ++ tail c v)
        rest
  unfolding heads
  next-Place = record {
    small = p.small;
    split = p.split;
    bytes =
        p.bytes
        ∙ shuffle before (head c v (start + d)) (heads start cs vs next_taken) passed (tail c v)
            (tails cs vs) rest;
    start_at = omega (
      arith,
      p.start_at,
      length-append before (head c v (start + d)),
      length-head c v (start + d) (omega (arith, within p)),
    );
    passed_length =
        omega (arith, p.passed_length, tail_taken c v d, length-append passed (tail c v));
  }

  item_step :
      (loose : Bool)
      → ReadsBack c v
      → settle (ok v) ≡ ok v
      → read_item
          (at loose base 0)
          (is_dynamic c)
          (decode c)
          (at loose whole (length (front ++ before)))
        ≡ (ok v, at loose whole (length (front ++ before) + head_size c v))
  unfolding heads tails
  item_step loose back kept =
      let h = head c v (start + d) in
      let r = heads start cs vs next_taken ++ (passed ++ ((tail c v ++ tails cs vs) ++ rest)) in
      let split : whole ≡ (front ++ before) ++ (h ++ r) =
        p.split
        ∙ ap (λ t. front ++ t)
            (p.bytes ∙ ap (λ t. before ++ t) (append_assoc h (heads start cs vs next_taken) _))
        ∙ sym (append_assoc front before (h ++ r)) in
      read_head c v back kept base loose whole (front ++ before) r (start + d) (tails cs vs ++ rest)
        (omega (arith, within p))
        (omega (arith, p.small, ap length p.split ∙ length-append front base)) p.small split
        (tails_at p ∙ append_assoc (tail c v) (tails cs vs) rest)

-- The head of the next item stands where the one before ended.
head_end :
    (front before : List ℕ) (c : Coder) (v : Value) (n : ℕ)
    → n ≤ max_value
    → length (front ++ (before ++ head c v n)) ≡ length (front ++ before) + head_size c v
head_end front before c v n h = omega (
  arith,
  length-append front (before ++ head c v n),
  length-append before (head c v n),
  length-append front before,
  length-head c v n (omega arith),
)

pub unpack_step :
    {start d : ℕ} {c : Coder} {cs : Coders} {v : Value} {vs : Values}
    {whole front base before passed rest : List ℕ}
    (p : Place start d (coder c cs) (value v vs) whole front base before passed rest) (loose : Bool)
    → ReadsBack c v
    → settle (ok v) ≡ ok v
    → unpack cs
        (at loose base 0)
        (at loose whole (length (front ++ (before ++ head c v (start + d)))))
      ≡ (
        ok vs,
        at loose whole (length (front ++ (before ++ head c v (start + d))) + head_space cs vs),
      )
    → unpack (coder c cs) (at loose base 0) (at loose whole (length (front ++ before))) ≡ (
      ok (value v vs),
      at loose whole (length (front ++ before) + head_space (coder c cs) (value v vs)),
    )
unfolding unpack head_space
unpack_step {start} {d} {c} {cs} {v} {vs} {whole} {front} {base} {before} p loose back kept others =
    let o = length (front ++ (before ++ head c v (start + d))) in
    let here = head_end front before c v (start + d) (omega (arith, within p)) in
    ap (λ m. next m (λ w. unpack cs (at loose base 0) >>= λ ws. call (ok (value w ws))))
      (item_step p loose back kept ∙ ap (λ k. (ok v, at loose whole k)) (sym here))
    ∙ ap (λ m. next m (λ ws. call (ok (value v ws)))) others
    ∙ ap (λ k. (ok (value v vs), at loose whole k)) (omega (arith, here))

pub first-Place :
    {cs : Coders} {vs : Values} (whole front rest : List ℕ)
    → length whole ≤ max_value
    → whole ≡ front ++ (items_layout cs vs ++ rest)
    → Place (head_space cs vs) 0 cs vs whole front (drop (length front + 0) whole) [] [] rest
first-Place {cs} {vs} whole front rest small g =
    let regrouped : whole ≡ front ++ (heads (head_space cs vs) cs vs 0 ++ (tails cs vs ++ rest)) =
      g
      ∙ ap (λ t. front ++ t) (append_assoc (heads (head_space cs vs) cs vs 0) (tails cs vs) rest) in
    let cut : drop (length front + 0) whole
        ≡ heads (head_space cs vs) cs vs 0 ++ (tails cs vs ++ rest) =
      ap (drop (length front + 0)) regrouped
      ∙ drop-append front _ (length front + 0) (omega arith) in
    record {
      small = small;
      split = regrouped ∙ ap (λ t. front ++ t) (sym cut);
      bytes = cut;
      start_at = omega arith;
      passed_length = refl;
    }

pub tails-static : (cs : Coders) (vs : Values) → any_dynamic cs ≡ false → tails cs vs ≡ []
unfolding is_dynamic tails
tails-static no_coders vs h = refl
tails-static (coder c cs) no_values h = refl
tails-static (coder c cs) (value v vs) h = elim (Bool-cases (is_dynamic c)) [
  | inl e ↦ cc (rw e at h)
  | inr e ↦ rw e (tails-static cs vs (rw e at h))
]

pub any_dynamic-repeat_coder :
    (n : ℕ) (c : Coder) → is_dynamic c ≡ false → any_dynamic (repeat_coder n c) ≡ false
unfolding is_dynamic
any_dynamic-repeat_coder zero c h = refl
any_dynamic-repeat_coder (suc n) c h = rw h (any_dynamic-repeat_coder n c h)
