-- ===== src/Abi/Decode.antt =====
-- The `decode` methods of src.ts/abi/coders, and `unpack`.
use corebc_js.Utils.Data.{BytesLike, hexlify_bytes}
use corebc_js.Utils.Maths.{bigint, from_twos, to_be_hex}
use corebc_js.Utils.Utf8.{error_func, to_utf8_string}
use corebc_js.Common.Integers.{ℤ, pos, negsuc}
use corebc_js.Address.{get_address}
use corebc_js.Abi.{
  Coder, Coders, Value, Values, number, address, boolean, fixed_bytes, bytes, string, null, array,
  tuple, no_coders, coder, int, flag, chars, list, nothing, deferred, no_values, value, is_dynamic,
  word_size,
}
use corebc_js.Abi.Reader.{
  Reader, M, ◌>>=◌, ◌>>◌, call, read_bytes, sub_reader, read_value, read_index,
}
use corebc_js.Common.{
  ℕ, zero, suc, ◌*◌, ◌%◌, ◌^◌, Bool, true, false, Option, none, some, List, Text, leb,
  if◌then◌else◌, length, Result, ok, err, stuck, buffer_overrun, numeric_fault, plain_error,
}

abbrev pub int_of : Result ℤ → Result Value
int_of (ok z) = ok (int z)
int_of (err e) = err e
int_of stuck = stuck

-- `mask`, and `fromTwos` of a signed number.
unfoldable pub number_of : ℕ → Bool → ℤ → Result Value
unfolding from_twos
number_of size true (pos n) = int_of (from_twos (bigint (pos (n % 2 ^ (size * 8)))) (size * 8))
number_of size false (pos n) = ok (int (pos (n % 2 ^ (size * 8))))
number_of size signed (negsuc n) = err numeric_fault

abbrev pub text_of : Result Text → Result Value
text_of (ok s) = ok (chars s)
text_of (err e) = err e
text_of stuck = stuck

-- The text with the checks of `getAddress`.
abbrev pub checked_text : Result Text → Result Value
checked_text (ok s) = text_of (get_address s)
checked_text (err e) = err e
checked_text stuck = stuck

unfoldable pub address_of : ℤ → Result Value
unfolding to_be_hex get_address
address_of z = checked_text (to_be_hex (bigint z) (some 22))

-- `!!reader.readValue()`
abbrev pub truth_of : ℤ → Value
truth_of (pos zero) = flag false
truth_of (pos (suc n)) = flag true
truth_of (negsuc n) = flag true

-- `catch`: an error stands in for the value, other than a BUFFER_OVERRUN; null is refused.
abbrev pub settle : Result Value → Result Value
settle (err buffer_overrun) = err buffer_overrun
settle (err e) = ok (deferred e)
settle stuck = stuck
settle (ok nothing) = err plain_error
settle (ok v) = ok v

-- One round of `unpack`: a dynamic value is read from a reader of its own.
abbrev pub read_near : M Value → M Value
read_near d r = (settle (d r).0, (d r).1)

abbrev pub read_far : Reader → M Value → M Value
read_far base d = do n ← read_index; call (settle (d (sub_reader n base)).0)

unfoldable pub read_item : Reader → Bool → M Value → M Value
unfolding read_index
read_item base true d = read_far base d
read_item base false d = read_near d

-- `unpack` of n times the same coder.
unfoldable pub unpack_times : Reader → Bool → M Value → ℕ → M Values
unfolding read_item
unpack_times base far d zero = call (ok no_values)
unpack_times base far d (suc n) = do
  v ← read_item base far d
  vs ← unpack_times base far d n
  call (ok (value v vs))

-- `reader.dataLength`, and the check of a count that was read.
abbrev pub check_space : ℕ → M (Unit {0})
check_space n r =
    ((if leb (n * word_size) (length r.contents) then ok tt else err buffer_overrun), r)

abbrev pub read_count : Option ℕ → M ℕ
read_count none = do n ← read_index; check_space n; call (ok n)
read_count (some n) = call (ok n)

abbrev pub with_base : {A : Type 0} → (Reader → M A) → M A
with_base f r = f (sub_reader 0 r) r

unfoldable mutual
  unfolding number_of address_of read_bytes read_value read_index unpack_times to_utf8_string

  pub decode : Coder → M Value
  decode (number size signed) = do z ← read_value; call (number_of size signed z)
  decode address = do z ← read_value; call (address_of z)
  decode boolean = do z ← read_value; call (ok (truth_of z))
  decode (fixed_bytes size) = do b ← read_bytes size false; call (ok (chars (hexlify_bytes b)))
  decode bytes = do n ← read_index; b ← read_bytes n true; call (ok (chars (hexlify_bytes b)))
  decode string = do
    n ← read_index
    b ← read_bytes n true
    call (text_of (to_utf8_string error_func (BytesLike.bytes b)))
  decode null = do b ← read_bytes 0 false; call (ok nothing)
  decode (array c k) = do
    n ← read_count k
    vs ← with_base (λ base. unpack_times base (is_dynamic c) (decode c) n)
    call (ok (list vs))
  decode (tuple cs) = do vs ← with_base (λ base. unpack cs base); call (ok (list vs))

  pub unpack : Coders → Reader → M Values
  unpack no_coders base = call (ok no_values)
  unpack (coder c cs) base = do
    v ← read_item base (is_dynamic c) (decode c)
    vs ← unpack cs base
    call (ok (value v vs))

abbrev pub items_of : Value → Values
items_of (list vs) = vs
items_of v = no_values

abbrev pub result_items : Result Value → Result Values
result_items (ok v) = ok (items_of v)
result_items (err e) = err e
result_items stuck = stuck

-- `AbiCoder.decode` with the coders of the types, of a byte array.
unfoldable pub decode_types : Coders → List ℕ → Bool → Result Values
unfolding decode
decode_types cs v loose =
    result_items (decode (tuple cs) (record { loose = loose; contents = v; offset = 0 })).0
