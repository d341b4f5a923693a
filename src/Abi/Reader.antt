-- ===== src/Abi/Reader.antt =====
-- The class Reader of src.ts/abi/coders/abstract-coder.ts. A method gives its result or its error,
-- and the reader as it is after either.
use corebc_js.Utils.Maths.{bigint, get_number, bytes_to_bigint}
use corebc_js.Common.Integers.{ℤ, pos, negsuc}
use corebc_js.Abi.{word_size}
use corebc_js.Common.{
  ℕ, ◌+◌, ◌*◌, ◌/◌, Bool, false, ◌&&◌, List, leb, if◌then◌else◌, length, take, drop, slice, Result,
  ok, err, stuck, buffer_overrun,
}

pub record Reader : Type 0 where
  pub loose : Bool
  pub contents : List ℕ
  pub offset : ℕ

abbrev pub M : Type 0 → Type 0
M A = Reader → Result A × Reader

-- The next method runs if the one before it returned.
abbrev pub next : {A B : Type 0} → Result A × Reader → (A → M B) → Result B × Reader
next (ok a, r) f = f a r
next (err e, r) f = (err e, r)
next (stuck, r) f = (stuck, r)

infixl 5 ◌>>=◌ ◌>>◌
abbrev pub ◌>>=◌ : {A B : Type 0} → M A → (A → M B) → M B
(m >>= f) r = next (m r) f

abbrev pub ◌>>◌ : {B : Type 0} → M (Unit {0}) → M B → M B
m >> k = m >>= λ done. k

-- A call that does not read.
abbrev pub call : {A : Type 0} → Result A → M A
call m r = (m, r)

-- `Math.ceil(length / WordSize) * WordSize`
abbrev pub aligned : ℕ → ℕ
aligned n = (n + 31) / 32 * 32

-- How many bytes `#peekBytes` takes.
unfoldable pub peek_length : ℕ → Bool → Reader → Result ℕ
peek_length n loose r =
    if leb (r.offset + aligned n) (length r.contents)
    then ok (aligned n)
    else if r.loose && loose && leb (r.offset + n) (length r.contents)
    then ok n
    else err buffer_overrun

abbrev pub taken : ℕ → Result ℕ → M (List ℕ)
taken n (ok k) r =
    let part = slice r.offset (r.offset + k) r.contents in
    (
      ok (take n part),
      record { loose = r.loose; contents = r.contents; offset = r.offset + length part },
    )
taken n (err e) r = (err e, r)
taken n stuck r = (stuck, r)

unfoldable pub read_bytes : ℕ → Bool → M (List ℕ)
unfolding peek_length
read_bytes n loose r = taken n (peek_length n loose r) r

-- `new Reader(this.#data.slice(this.#offset + offset), this.allowLoose)`
abbrev pub sub_reader : ℕ → Reader → Reader
sub_reader n r = record { loose = r.loose; contents = drop (r.offset + n) r.contents; offset = 0 }

unfoldable pub read_value : M ℤ
unfolding read_bytes bytes_to_bigint
read_value = do b ← read_bytes word_size false; call (bytes_to_bigint b)

-- `toNumber`; the number that bytes stand for is never negative.
abbrev pub as_index : ℤ → Result ℕ
as_index (pos n) = ok n
as_index (negsuc n) = stuck

abbrev pub to_index : List ℕ → Result ℕ
to_index b = elim (bytes_to_bigint b) [
  | ok z ↦ elim (get_number (bigint z)) [ ok k ↦ as_index k | err e ↦ err e | stuck ↦ stuck ]
  | err e ↦ err e
  | stuck ↦ stuck
]

unfoldable pub read_index : M ℕ
unfolding read_bytes bytes_to_bigint get_number
read_index = do b ← read_bytes word_size false; call (to_index b)
