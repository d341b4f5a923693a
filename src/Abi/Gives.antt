-- ===== src/Abi/Gives.antt =====
-- The calls that the decoders of src.ts/abi/coders make end, with a value or with an error.
use native.Mathlib.Nat.{mod-lt}
use corebc_js.Utils.Data.{hexlify_bytes, BytesLike, get_bytes, is_data_text, to_string_16}
use corebc_js.Utils.Data.Hex.{IsBytes}
use corebc_js.Utils.Maths.{
  bigint, from_twos, to_be_hex, get_uint, get_number, get_big_int, pad_start, max_value, top_bits,
  complement,
}
use corebc_js.Utils.Maths.BigEndian.{bytes_to_bigint_lem}
use corebc_js.Utils.Rlp.Lengths.{be_value}
use corebc_js.Utils.Utf8.{error_func, get_utf8_code_points, to_utf8_string, units_of}
use corebc_js.Utils.Utf8.Totality.{get_utf8_code_points-ne-stuck}
use corebc_js.Address.{
  replace_0x, check_digits, checksum_value, text_eq, get_address, check_raw, calculate_check_sum,
  is_address_text, is_precompiled, remove_hex_prefix,
}
use corebc_js.Utils.Maths.Twos.{InRange, range_positive, to_twos-from_twos}
use corebc_js.Abi.{Value, int, chars}
use corebc_js.Abi.Reader.{to_index}
use corebc_js.Abi.Decode.{int_of, number_of, text_of, checked_text, address_of}
use corebc_js.Abi.Layout.{FitsNumber}
use corebc_js.Common.Integers.{ℤ, pos, negsuc}
use corebc_js.Common.{
  ◌≡◌, refl, ◌≢◌, Bool, true, false, Error, Result, ◌>>=◌, assert, ok-injective, ok, err, stuck,
  inl, inr, Text, Bool-cases, invalid_argument, ℕ, List, ◌∷◌, ◌++◌, codes, if◌then◌else◌, drop,
  slice, ◌>>◌, suc, ◌-◌, ◌*◌, ◌%◌, ◌^◌, ◌<◌, arith, sym, some, leb, length, numeric_fault, ◌/◌, ap,
  ◌==◌,
}
use mathlib.Core.Path.{subst}

-- A result with what its value satisfies; the model's loops have not run out of rounds.
pub record Gives {A : Type 0} (P : A → Type 0) (m : Result A) : Type 0 where
  pub ended : m ≢ stuck
  pub each : (a : A) → m ≡ ok a → P a

pub ok-Gives : {A : Type 0} {P : A → Type 0} (a : A) → P a → Gives P (ok a)
ok-Gives {P = P} a h = record { ended = λ e. cc; each = λ b e. subst P (ok-injective e) h }

pub err-Gives : {A : Type 0} {P : A → Type 0} (e : Error) → Gives P (err e)
err-Gives e = record { ended = λ h. cc; each = λ b h. cc }

abbrev pub Any : {A : Type 0} → A → Type 0
Any a = Unit {0}

pub >>=-Gives :
    {A B : Type 0} {P : A → Type 0} {Q : B → Type 0} (m : Result A) (f : A → Result B)
    → Gives P m
    → ((a : A) → P a → Gives Q (f a))
    → Gives Q (m >>= f)
>>=-Gives (ok a) f h k = k a (h.each a refl)
>>=-Gives (err e) f h k = err-Gives e
>>=-Gives stuck f h k = absurd (h.ended refl)

pub assert-Gives : (b : Bool) (e : Error) → Gives Any (assert b e)
assert-Gives true e = ok-Gives tt tt
assert-Gives false e = err-Gives e

get_bytes-Gives : (d : BytesLike) → Gives Any (get_bytes d)
unfolding get_bytes
get_bytes-Gives (BytesLike.bytes v) = ok-Gives v tt
get_bytes-Gives (BytesLike.text s) = elim (Bool-cases (is_data_text s)) [
  | inl e ↦ rw e (ok-Gives _ tt)
  | inr e ↦ rw e (err-Gives invalid_argument)
]

calculate_check_sum-Gives : (a p : Text) → Gives Any (calculate_check_sum a p)
unfolding calculate_check_sum
calculate_check_sum-Gives a p =
    let t = BytesLike.text (b'0' ∷ b'x' ∷ replace_0x a) in
    let u = BytesLike.text (b'0' ∷ b'x' ∷ replace_0x p) in
    let sum = λ (v w : List ℕ).
      check_digits (checksum_value (replace_0x (hexlify_bytes (v ++ w)) ++ codes "00")) in
    >>=-Gives (get_bytes t) (λ v. get_bytes u >>= λ w. ok (sum v w)) (get_bytes-Gives t)
      λ v _.
        >>=-Gives (get_bytes u) (λ w. ok (sum v w)) (get_bytes-Gives u) λ w _. ok-Gives (sum v w) tt

check_raw-Gives : (raw : Text) → Gives Any (check_raw raw)
unfolding check_raw
check_raw-Gives raw =
    let whole = λ (sum : Text). b'0' ∷ b'x' ∷ (slice 0 2 raw ++ sum ++ drop 4 raw) in
    let check = λ (sum : Text). assert (text_eq sum (slice 2 4 raw)) invalid_argument in
    >>=-Gives (calculate_check_sum (drop 4 raw) (slice 0 2 raw))
      (λ sum. check sum >> ok (whole sum)) (calculate_check_sum-Gives (drop 4 raw) (slice 0 2 raw))
      λ s _.
        >>=-Gives (check s) (λ _. ok (whole s)) (assert-Gives _ invalid_argument)
          λ _ _. ok-Gives (whole s) tt

pub get_address-Gives : (s : Text) → Gives Any (get_address s)
unfolding get_address
get_address-Gives s =
    let raw = remove_hex_prefix s in
    let body : Result Text =
      if is_precompiled 10 raw then ok (b'0' ∷ b'x' ∷ raw) else check_raw raw in
    >>=-Gives (assert (is_address_text s) invalid_argument) (λ _. body)
      (assert-Gives (is_address_text s) invalid_argument)
      λ _ _. elim (Bool-cases (is_precompiled 10 raw)) [
        | inl e ↦ rw e (ok-Gives (b'0' ∷ b'x' ∷ raw) tt)
        | inr e ↦ rw e (check_raw-Gives raw)
      ]

text_of-Gives : (m : Result Text) → Gives Any m → Gives Any (text_of m)
text_of-Gives (ok s) h = ok-Gives (chars s) tt
text_of-Gives (err e) h = err-Gives e
text_of-Gives stuck h = absurd (h.ended refl)

checked_text-Gives : (m : Result Text) → Gives Any m → Gives Any (checked_text m)
checked_text-Gives (ok s) h = text_of-Gives (get_address s) (get_address-Gives s)
checked_text-Gives (err e) h = err-Gives e
checked_text-Gives stuck h = absurd (h.ended refl)

pub address_of-Gives : (z : ℤ) → Gives Any (address_of z)
unfolding address_of to_be_hex get_uint get_big_int
address_of-Gives (negsuc n) = err-Gives numeric_fault
address_of-Gives (pos n) = checked_text-Gives (to_be_hex (bigint (pos n)) (some 22)) (
    >>=-Gives (assert (leb (length (to_string_16 n)) 44) numeric_fault)
      (λ _. ok (b'0' ∷ b'x' ∷ pad_start 44 (to_string_16 n))) (assert-Gives _ numeric_fault)
      λ _ _. ok-Gives _ tt)

pub string_of-Gives :
    (b : List ℕ) → Gives Any (text_of (to_utf8_string error_func (BytesLike.bytes b)))
unfolding to_utf8_string
string_of-Gives b = text_of-Gives (to_utf8_string error_func (BytesLike.bytes b)) (
    >>=-Gives (get_utf8_code_points error_func (BytesLike.bytes b)) (λ ps. ok (units_of ps))
      (record {
        ended = get_utf8_code_points-ne-stuck error_func (λ _ _ _ _ _ h. cc) (BytesLike.bytes b);
        each = λ _ _. tt;
      })
      λ ps _. ok-Gives (units_of ps) tt)

pub to_index-Gives : (b : List ℕ) → IsBytes b → Gives Any (to_index b)
unfolding get_number
to_index-Gives b h =
    let n = be_value b in
    rw (bytes_to_bigint_lem b h, to_index)
      (elim (Bool-cases (leb n max_value)) [
        | inl e ↦ rw (e, to_index) (ok-Gives n tt)
        | inr e ↦ rw (e, to_index) (err-Gives invalid_argument)
      ])

-- What the coder of numbers makes of a word is in the range of its type.
pub InType : ℕ → Bool → Value → Type 0
InType size signed v = (z : ℤ) × (v ≡ int z) × FitsNumber size signed z

signed_of :
    (w v : ℕ)
    → v < 2 ^ suc w
    → (z : ℤ) × (from_twos (bigint (pos v)) (suc w) ≡ ok z) × InRange (suc w) z
signed_of w v h = let (z, e, r, _) = (to_twos-from_twos w v).0 h in (z, e, r)

pub number_of-Gives :
    (size : ℕ) (signed : Bool) (z : ℤ)
    → 0 < size
    → Gives (InType size signed) (number_of size signed z)
unfolding number_of InType
number_of-Gives size false (negsuc n) lo = err-Gives numeric_fault
number_of-Gives size true (negsuc n) lo = err-Gives numeric_fault
number_of-Gives size false (pos n) lo =
    let one = range_positive (size * 8) in
    ok-Gives (int (pos (n % 2 ^ (size * 8))))
      (pos (n % 2 ^ (size * 8)), refl, mod-lt n {m = 2 ^ (size * 8)} (omega arith))
number_of-Gives size true (pos n) lo =
    let w = size * 8 - 1 in
    let width : size * 8 ≡ suc w = omega arith in
    let one = range_positive (suc w) in
    let (z, e, r) = signed_of w (n % 2 ^ suc w) (mod-lt n {m = 2 ^ suc w} (omega arith)) in
    let read : from_twos (bigint (pos (n % 2 ^ (size * 8)))) (size * 8) ≡ ok z =
      subst (λ b. from_twos (bigint (pos (n % 2 ^ b))) b ≡ ok z) (sym width) e in
    subst (Gives (InType size true)) (ap int_of (sym read))
      (ok-Gives (int z) (z, refl, subst (λ b. InRange b z) (sym width) r))

int_of-Gives : (m : Result ℤ) → Gives Any m → Gives Any (int_of m)
int_of-Gives (ok z) h = ok-Gives (int z) tt
int_of-Gives (err e) h = err-Gives e
int_of-Gives stuck h = absurd (h.ended refl)

from_twos-Gives : (v w : ℕ) → Gives Any (from_twos (bigint (pos v)) w)
unfolding from_twos get_uint get_big_int
from_twos-Gives v w =
    let z = if top_bits v w == 0 then pos v else negsuc (complement v w) in
    >>=-Gives (assert (v / 2 ^ w == 0) numeric_fault) (λ _. ok z)
      (assert-Gives (v / 2 ^ w == 0) numeric_fault) λ _ _. ok-Gives z tt

pub number_of-Ends : (size : ℕ) (signed : Bool) (z : ℤ) → Gives Any (number_of size signed z)
unfolding number_of
number_of-Ends size false (negsuc n) = err-Gives numeric_fault
number_of-Ends size true (negsuc n) = err-Gives numeric_fault
number_of-Ends size false (pos n) = ok-Gives _ tt
number_of-Ends size true (pos n) =
    int_of-Gives (from_twos (bigint (pos (n % 2 ^ (size * 8)))) (size * 8))
      (from_twos-Gives (n % 2 ^ (size * 8)) (size * 8))
