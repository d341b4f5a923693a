-- ===== src/Abi/Guards.antt =====
-- What the encoders of src.ts/abi/coders refuse.
use corebc_js.Utils.Maths.{get_big_int}
use corebc_js.Utils.Maths.Twos.{InRange, range_positive}
use corebc_js.Common.Integers.{ℤ, pos, negsuc}
use corebc_js.Abi.{
  Coder, fixed_bytes, octets, Value, Values, Coders, number, array, tuple, int, list, count,
  count_coders, repeat_coder,
}
use corebc_js.Abi.Writer.{write_bytes, Writer, write_value}
use corebc_js.Abi.Encode.{
  encode, encode_fixed, encode_number, in_bounds, to_pattern, check_count, pack_items, new_packing,
  finish_pack,
}
use corebc_js.Abi.Layout.{FitsNumber}
use corebc_js.Common.{
  ℕ, suc, ◌+◌, ◌-◌, ◌*◌, ◌^◌, ◌<◌, arith, ◌≡◌, refl, sym, ap, ◌≢◌, inl, inr, Bool, true, false,
  some, ◌==◌, le→leb, lt→leb, ==_iff, Bool-cases, Result, ◌>>=◌, ◌>>◌, assert, err,
  invalid_argument, missing_argument, unexpected_argument, List, ok, length, Error,
}
use mathlib.Core.Path.{subst}

signed_out :
    (size w : ℕ) (z : ℤ) → w ≡ size * 8 - 1 → ¬ InRange (suc w) z → in_bounds size true z ≡ false
signed_out size w (pos n) e h =
    let one = range_positive w in
    let same = ap (λ b. 2 ^ b) e in lt→leb n (2 ^ (size * 8 - 1) - 1) (omega arith)
signed_out size w (negsuc n) e h =
    let one = range_positive w in
    let same = ap (λ b. 2 ^ b) e in lt→leb (n + 1) (2 ^ (size * 8 - 1) - 1 + 1) (omega arith)

out_of_bounds :
    (size : ℕ) (signed : Bool) (z : ℤ)
    → 0 < size
    → ¬ FitsNumber size signed z
    → in_bounds size signed z ≡ false
out_of_bounds size false (negsuc n) lo h = refl
out_of_bounds size false (pos n) lo h =
    let one = range_positive (size * 8) in lt→leb n (2 ^ (size * 8) - 1) (omega arith)
out_of_bounds size true z lo h =
    let width : size * 8 ≡ suc (size * 8 - 1) = omega arith in
    signed_out size (size * 8 - 1) z refl (λ k. h (subst (λ b. InRange b z) (sym width) k))

number_refused :
    (size : ℕ) (signed : Bool) (z : ℤ) (w : Writer)
    → 0 < size
    → ¬ FitsNumber size signed z
    → encode (number size signed) (int z) w ≡ err invalid_argument
unfolding encode encode_number get_big_int
number_refused size signed z w lo h =
    ap (λ b. assert b invalid_argument >> (to_pattern signed z >>= λ n. write_value n w))
      (out_of_bounds size signed z lo h)

tuple_refused :
    (cs : Coders) (vs : Values) (w : Writer)
    → count_coders cs ≢ count vs
    → encode (tuple cs) (list vs) w ≡ err invalid_argument
unfolding encode
tuple_refused cs vs w h = elim (Bool-cases (count_coders cs == count vs)) [
  | inl e ↦ absurd (h ((==_iff (count_coders cs) (count vs)).0 e))
  | inr e ↦
      ap (λ b. assert b invalid_argument >> (pack_items cs vs new_packing >>= λ p. finish_pack p w))
        e
]

few_or_many :
    (k n : ℕ)
    → (n < k → check_count (some k) n ≡ err missing_argument)
      × (k < n → check_count (some k) n ≡ err unexpected_argument)
few_or_many k n =
    (λ h. rw (lt→leb k n h) refl, λ h. rw (le→leb k n (omega arith)) (rw (lt→leb n k h) refl))

array_refused :
    (c : Coder) (k : ℕ) (vs : Values) (w : Writer)
    → (count vs < k → encode (array c (some k)) (list vs) w ≡ err missing_argument)
      × (k < count vs → encode (array c (some k)) (list vs) w ≡ err unexpected_argument)
unfolding encode
array_refused c k vs w = (
  λ h. ap then_pack ((few_or_many k (count vs)).0 h),
  λ h. ap then_pack ((few_or_many k (count vs)).1 h),
)
  where
    then_pack : Result (Unit {0}) → Result Writer
    then_pack m =
        m >> (pack_items (repeat_coder (count vs) c) vs new_packing >>= λ p. finish_pack p w)

fixed_refused :
    (size : ℕ) (v : List ℕ) (w : Writer)
    → length v ≢ size
    → encode (fixed_bytes size) (octets v) w ≡ err invalid_argument
unfolding encode encode_fixed
fixed_refused size v w h = elim (Bool-cases (length v == size)) [
  | inl e ↦ absurd (h ((==_iff (length v) size).0 e))
  | inr e ↦ ap (λ b. assert b invalid_argument >> ok (write_bytes v w)) e
]

-- Values that a coder refuses, and the error: an integer out of the range, bytes of another length, more
-- or fewer values than types, and more or fewer values than the length of an array.
pub data Misfit : Coder → Value → Error → Type 0 where
  out_of_range :
      {size : ℕ} {signed : Bool} {z : ℤ}
      → 0 < size
      → ¬ FitsNumber size signed z
      → Misfit (number size signed) (int z) invalid_argument
  other_size :
      {size : ℕ} {v : List ℕ}
      → length v ≢ size
      → Misfit (fixed_bytes size) (octets v) invalid_argument
  other_count :
      {cs : Coders} {vs : Values}
      → count_coders cs ≢ count vs
      → Misfit (tuple cs) (list vs) invalid_argument
  too_few :
      {c : Coder} {k : ℕ} {vs : Values}
      → count vs < k
      → Misfit (array c (some k)) (list vs) missing_argument
  too_many :
      {c : Coder} {k : ℕ} {vs : Values}
      → k < count vs
      → Misfit (array c (some k)) (list vs) unexpected_argument

-- A value that does not fit its coder is refused with the error that `Misfit` names, whatever was
-- written before: an integer out of range, bytes or a tuple of another length with an
-- INVALID_ARGUMENT, an array of a fixed length with too few values with a MISSING_ARGUMENT, and with
-- too many with an UNEXPECTED_ARGUMENT.
pub encode-Misfit :
    {c : Coder} {v : Value} {e : Error} (w : Writer) → Misfit c v e → encode c v w ≡ err e
encode-Misfit w (out_of_range lo h) = number_refused _ _ _ w lo h
encode-Misfit w (other_size h) = fixed_refused _ _ w h
encode-Misfit w (other_count h) = tuple_refused _ _ w h
encode-Misfit w (too_few h) = (array_refused _ _ _ w).0 h
encode-Misfit w (too_many h) = (array_refused _ _ _ w).1 h
