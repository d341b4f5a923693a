-- ===== src/Abi/Sources.antt =====
-- Where the bytes come from that the decoders of src.ts/abi/coders return.
use corebc_js.Utils.Data.{hexlify_bytes}
use corebc_js.Utils.Data.Hex.{IsBytes}
use corebc_js.Utils.Maths.{max_value, get_number}
use corebc_js.Utils.Maths.BigEndian.{bytes_to_bigint_lem}
use corebc_js.Utils.Rlp.Lengths.{be_value}
use corebc_js.Abi.{Value, bytes, chars}
use corebc_js.Abi.Reader.{Reader, M, next, ◌>>=◌, call, read_bytes, read_index, to_index, aligned}
use corebc_js.Abi.Decode.{decode}
use corebc_js.Abi.Octets.{big_endian-be_value, length-big_endian}
use corebc_js.Abi.Standard.{big_endian}
use corebc_js.Abi.Ends.{read_bytes-Ends}
use corebc_js.Abi.Untrusted.{next_ok}
use corebc_js.Common.{
  ℕ, Result, ok, err, stuck, refl, ◌≡◌, inl, inr, List, true, false, ◌+◌, ◌≤◌, arith, sym, ◌∙◌, ap,
  ◌++◌, leb, Bool-cases, length, take, ok-injective, append_assoc, length-append, take-length,
}
use mathlib.Core.Path.{ap₂, subst}
use corebc_js.Abi.Peeks.{Consumed, read_bytes-Consumed}

next-call :
    {A B : Type 0} (p : Result A × Reader) (f : A → Result B) → (next p (λ a. call (f a))).1 ≡ p.1
next-call (ok a, s) f = refl
next-call (err e, s) f = refl
next-call (stuck, s) f = refl

to_index_ok : (b : List ℕ) {n : ℕ} → IsBytes b → to_index b ≡ ok n → be_value b ≡ n
unfolding get_number
to_index_ok b {n} h =
    let k = be_value b in
    rw (bytes_to_bigint_lem b h, to_index)
      (elim (Bool-cases (leb k max_value)) [
        | inl e ↦ rw (e, to_index) (λ g. ok-injective g)
        | inr e ↦ rw (e, to_index) (λ g. cc)
      ])

-- An index that was read is a word of the data.
read_index-Consumed :
    (r : Reader) {n : ℕ}
    → IsBytes r.contents
    → (read_index r).0 ≡ ok n
    → Consumed r (big_endian 32 n) (read_index r).1
unfolding read_index
read_index-Consumed r {n} h e =
    let (w, read, index) = next_ok (read_bytes 32 false r) (λ b. call (to_index b)) e in
    let (size, c) = read_bytes-Consumed 32 false r read in
    let byte_each = ((read_bytes-Ends 32 false).ends r h).each w read in
    let word =
      sym (big_endian-be_value w byte_each size)
      ∙ ap (λ k. big_endian 32 k) (to_index_ok w byte_each index) in
    subst (λ s. Consumed r (big_endian 32 n) s) (sym (next-call (read_bytes 32 false r) to_index))
      (subst (λ b. Consumed r b (read_bytes 32 false r).1) word c)

same_prefix : (xs ys us vs : List ℕ) → length xs ≡ length us → xs ++ ys ≡ us ++ vs → xs ≡ us
same_prefix xs ys us vs l h =
    sym (take-length xs ys) ∙ ap₂ (λ k t. take k t) l h ∙ take-length us vs

-- What is consumed in two steps, the first of them a word.
behind_word :
    (r s t : Reader) (n : ℕ) (w : List ℕ)
    → Consumed r (big_endian 32 n) s
    → Consumed s w t
    → (front rest : List ℕ) × (r.contents ≡ front ++ (big_endian 32 n ++ (w ++ rest)))
      × (length front ≡ r.offset)
      × (r.offset + 32 + length w ≤ t.offset)
      × (t.offset ≤ length r.contents)
behind_word r s t n w c d =
    let word = big_endian 32 n in
    let size = length-big_endian 32 n in
    let whole : d.before ++ (w ++ d.after) ≡ (c.before ++ word) ++ c.after =
      sym d.split ∙ c.same ∙ c.split ∙ sym (append_assoc c.before word c.after) in
    let place : length d.before ≡ length (c.before ++ word) = omega (
      arith,
      size,
      length-append c.before word,
      c.place,
      d.place,
      c.behind,
      c.close,
      ap aligned size,
    ) in
    let same = same_prefix d.before (w ++ d.after) (c.before ++ word) c.after place whole in
    (
      c.before,
      d.after,
      sym c.same
          ∙ d.split
          ∙ ap (λ b. b ++ (w ++ d.after)) same
          ∙ append_assoc c.before word (w ++ d.after),
      c.place,
      omega (arith, size, c.behind, d.behind),
      omega (arith, d.inside, ap length c.same),
    )

next_reader :
    {A B : Type 0} (p : Result A × Reader) (f : A → M B) {a : A}
    → p.0 ≡ ok a
    → (next p f).1 ≡ (f a p.1).1
next_reader (ok b, s) f h = ap (λ a. (f a s).1) (ok-injective h)
next_reader (err e, s) f h = cc
next_reader (stuck, s) f h = cc

-- Bytes that are decoded stand in the data as they are, whole, directly behind the word at the reader's
-- place, which is their length; the reader comes to stand behind them and inside the data. This holds
-- of all bytes as data.
pub decode-Whole :
    (r : Reader) {v : Value}
    → IsBytes r.contents
    → (decode bytes r).0 ≡ ok v
    → (w front rest : List ℕ) × (v ≡ chars (hexlify_bytes w))
      × (r.contents ≡ front ++ (big_endian 32 (length w) ++ (w ++ rest)))
      × (length front ≡ r.offset)
      × (r.offset + 32 + length w ≤ (decode bytes r).1.offset)
      × ((decode bytes r).1.offset ≤ length r.contents)
unfolding decode
decode-Whole r h e =
    let text = λ (b : List ℕ). ok (chars (hexlify_bytes b)) in
    let blob = λ (n : ℕ). read_bytes n true >>= λ b. call (text b) in
    let (n, index, e2) = next_ok (read_index r) blob e in
    let s = (read_index r).1 in
    let (w, read, last) = next_ok (read_bytes n true s) (λ b. call (text b)) e2 in
    let (size, d) = read_bytes-Consumed n true s read in
    let c =
      subst (λ k. Consumed r (big_endian 32 k) s) (sym size) (read_index-Consumed r h index) in
    let (front, rest, split, place, behind, inside) =
      behind_word r s (read_bytes n true s).1 (length w) w c d in
    let end =
      ap (λ (t : Reader). t.offset)
        (next_reader (read_index r) blob index ∙ next-call (read_bytes n true s) text) in
    (
      w,
      front,
      rest,
      sym (ok-injective last),
      split,
      place,
      subst (λ k. r.offset + 32 + length w ≤ k) (sym end) behind,
      subst (λ k. k ≤ length r.contents) (sym end) inside,
    )
