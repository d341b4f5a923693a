-- ===== src/Abi/Untrusted.antt =====
-- What `AbiCoder.decode` promises on data of any origin.
use corebc_js.Utils.Data.Hex.{IsBytes}
use corebc_js.Abi.{Coder, Value, Values, number, array, is_dynamic, count, list}
use corebc_js.Abi.Reader.{Reader, M, next, ◌>>◌, call, sub_reader, read_index}
use corebc_js.Abi.Decode.{decode, unpack_times, read_item, read_count, check_space, number_of}
use corebc_js.Abi.Bounds.{read_value-Steady, read_index-Steady}
use corebc_js.Abi.Gives.{number_of-Gives, InType}
use corebc_js.Abi.Ends.{Ends, read_value-Ends, call-Ends, Steady-then}
use corebc_js.Common.{
  ℕ, zero, suc, ◌*◌, ◌≤◌, ◌<◌, arith, ◌≡◌, refl, sym, ◌∙◌, ap, inl, inr, Bool, none, leb, leb→le,
  Bool-cases, length, Result, ok-injective, ok, err, stuck,
}

number-Ends :
    (size : ℕ) (signed : Bool) → 0 < size → Ends (InType size signed) (decode (number size signed))
unfolding decode
number-Ends size signed h =
    Steady-then read_value-Steady read_value-Ends
      λ z _. call-Ends (number_of size signed z) (number_of-Gives size signed z h)

-- Inversion of a chain of methods that returned a value.
pub next_ok :
    {A B : Type 0} (p : Result A × Reader) (f : A → M B) {b : B}
    → (next p f).0 ≡ ok b
    → (a : A) × (p.0 ≡ ok a) × ((f a p.1).0 ≡ ok b)
next_ok (ok a, s) f h = (a, refl, h)
next_ok (err e, s) f h = cc
next_ok (stuck, s) f h = cc

unpack_times-count :
    (base : Reader) (far : Bool) (d : M Value) (n : ℕ) (r : Reader) {vs : Values}
    → (unpack_times base far d n r).0 ≡ ok vs
    → count vs ≡ n
unfolding unpack_times
unpack_times-count base far d zero r h = ap count (sym (ok-injective h))
unpack_times-count base far d (suc n) r h =
    let (v, _, g) = next_ok (read_item base far d r) _ h in
    let (vs, e, k) = next_ok (unpack_times base far d n (read_item base far d r).1) _ g in
    ap count (sym (ok-injective k))
    ∙ ap suc (unpack_times-count base far d n (read_item base far d r).1 e)

space_checked :
    (n : ℕ) (r : Reader) {k : ℕ}
    → ((check_space n >> call (ok n)) r).0 ≡ ok k
    → (k ≡ n) × (n * 32 ≤ length r.contents)
space_checked n r h = elim (Bool-cases (leb (n * 32) (length r.contents))) [
  | inl e ↦ (sym (ok-injective (rw e at h)), leb→le (n * 32) (length r.contents) e)
  | inr e ↦ cc (rw e at h)
]

-- A dynamic array that is decoded has no more elements than the data it is read from has words of 32
-- bytes, whatever the data is.
pub decode-count :
    (c : Coder) (r : Reader) {v : Value}
    → (decode (array c none) r).0 ≡ ok v
    → (vs : Values) × (v ≡ list vs) × (count vs * 32 ≤ length r.contents)
unfolding decode
decode-count c r h =
    let (n, e, g) = next_ok (read_count none r) _ h in
    let (k, _, space) = next_ok (read_index r) (λ k. check_space k >> call (ok k)) e in
    let (same, enough) = space_checked k (read_index r).1 space in
    let s = (read_count none r).1 in
    let (vs, items, last) =
      next_ok (unpack_times (sub_reader 0 s) (is_dynamic c) (decode c) n s)
        (λ ws. call (ok (list ws))) g in
    (
      vs,
      sym (ok-injective last),
      omega (
        arith,
        same,
        enough,
        unpack_times-count (sub_reader 0 s) (is_dynamic c) (decode c) n s items,
        ap length (read_index-Steady.keeps r).same_contents,
      ),
    )

-- An integer that is decoded is in the range of its type of one byte or more, whatever the bytes are.
pub decode-InType :
    (size : ℕ) (signed : Bool) (r : Reader) {v : Value}
    → 0 < size
    → IsBytes r.contents
    → (decode (number size signed) r).0 ≡ ok v
    → InType size signed v
decode-InType size signed r {v} h b e = ((number-Ends size signed h).ends r b).each v e
