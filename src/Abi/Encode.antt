-- ===== src/Abi/Encode.antt =====
-- The `encode` methods of src.ts/abi/coders, and `pack`. A writer is passed on and given back; the
-- lengths that the methods return are used by none of them.
use corebc_js.Utils.Data.{BytesLike, get_bytes}
use corebc_js.Utils.Maths.{BigNumberish, get_big_int, to_twos}
use corebc_js.Utils.Utf8.{to_utf8_bytes}
use corebc_js.Common.Integers.{ℤ, pos, negsuc}
use corebc_js.Address.{get_address}
use corebc_js.Abi.{
  Coder, Coders, Value, Values, number, address, boolean, fixed_bytes, bytes, string, null, array,
  tuple, coder, int, flag, octets, chars, list, nothing, deferred, no_values, value, count,
  count_coders, is_dynamic, repeat_coder, word_size,
}
use corebc_js.Abi.Writer.{
  joined, Writer, new_writer, append_writer, write_bytes, write_value, write_updatable,
  update_value,
}
use corebc_js.Common.{
  ℕ, zero, ◌+◌, ◌-◌, ◌*◌, ◌^◌, Bool, true, false, Option, none, some, List, [], ◌∷◌, ◌++◌, leb,
  ◌==◌, if◌then◌else◌, length, Result, ◌>>=◌, ◌>>◌, assert, ok, err, invalid_argument, type_error,
  missing_argument, unexpected_argument,
}

-- What `getBigInt` gets: a value that is no number and no text is refused as a fraction is.
abbrev pub as_number : Value → BigNumberish
as_number (int z) = BigNumberish.bigint z
as_number (chars s) = BigNumberish.text s
as_number v = BigNumberish.fraction

-- `getBytesCopy`
abbrev pub octets_of : Value → Result (List ℕ)
octets_of (octets v) = ok v
octets_of (chars s) = get_bytes (BytesLike.text s)
octets_of v = err invalid_argument

-- `toUtf8Bytes`: a value with no length is written as nothing, and an item has no `charCodeAt`.
abbrev pub utf8_of : Value → Result (List ℕ)
utf8_of (chars s) = to_utf8_bytes s
utf8_of (int z) = ok []
utf8_of (flag b) = ok []
utf8_of (octets []) = ok []
utf8_of (octets (b ∷ v)) = err type_error
utf8_of (list no_values) = ok []
utf8_of (list (value v vs)) = err type_error
utf8_of nothing = err type_error
utf8_of (deferred e) = ok []

-- `value ? 1 : 0`
abbrev pub truth : Value → ℕ
truth (int (pos zero)) = 0
truth (flag false) = 0
truth (chars []) = 0
truth nothing = 0
truth v = 1

-- The bounds of `NumberCoder.encode`; `mask` of all ones keeps 2 ^ bits - 1.
abbrev pub in_bounds : ℕ → Bool → ℤ → Bool
in_bounds size true (pos n) = leb n (2 ^ (size * 8 - 1) - 1)
in_bounds size true (negsuc n) = leb (n + 1) (2 ^ (size * 8 - 1) - 1 + 1)
in_bounds size false (pos n) = leb n (2 ^ (size * 8) - 1)
in_bounds size false (negsuc n) = false

-- `toTwos` for a signed number; any other is in bounds only if it is not negative.
abbrev pub to_pattern : Bool → ℤ → Result BigNumberish
to_pattern true z =
    to_twos (BigNumberish.bigint z) (8 * word_size) >>= λ n. ok (BigNumberish.bigint (pos n))
to_pattern false z = ok (BigNumberish.bigint z)

unfoldable pub encode_number : ℕ → Bool → Value → Writer → Result Writer
unfolding get_big_int to_twos write_value
encode_number size signed v w = do
  z ← get_big_int (as_number v)
  assert (in_bounds size signed z) invalid_argument
  n ← to_pattern signed z
  write_value n w

-- `getAddress` takes a string only.
unfoldable pub encode_address : Value → Writer → Result Writer
unfolding get_address write_value
encode_address (chars s) w = do a ← get_address s; write_value (BigNumberish.text a) w
encode_address v w = err invalid_argument

unfoldable pub encode_fixed : ℕ → Value → Writer → Result Writer
encode_fixed size v w = do
  d ← octets_of v
  assert (length d == size) invalid_argument
  ok (write_bytes d w)

-- `DynamicBytesCoder.encode`
unfoldable pub encode_bytes : List ℕ → Writer → Result Writer
unfolding write_value
encode_bytes d w = do
  w' ← write_value (BigNumberish.number (pos (length d))) w
  ok (write_bytes d w')

abbrev pub encode_null : Value → Writer → Result Writer
encode_null nothing w = ok (write_bytes [] w)
encode_null v w = err invalid_argument

-- The two writers of `pack`, and the update functions: a place, and the offset that it waits for.
pub record Packing : Type 0 where
  pub heads : Writer
  pub tails : Writer
  pub updates : List (ℕ × ℕ)

abbrev pub new_packing : Packing
new_packing = record { heads = new_writer; tails = new_writer; updates = [] }

-- A dynamic item, whose value is in the new tails already.
abbrev pub add_dynamic : Packing → Writer → Packing
add_dynamic p tails = record {
  heads = write_updatable p.heads;
  tails = tails;
  updates = p.updates ++ (length p.heads.chunks, p.tails.data_length) ∷ [];
}

-- `updateFuncs.forEach((func) => func(staticWriter.length))`
unfoldable pub backfill : List (ℕ × ℕ) → Writer → Result Writer
unfolding update_value
backfill [] w = ok w
backfill ((place, offset) ∷ us) w = do
  w' ← update_value place (BigNumberish.number (pos (w.data_length + offset))) w
  backfill us w'

unfoldable pub finish_pack : Packing → Writer → Result Writer
unfolding backfill
finish_pack p w = do
  heads ← backfill p.updates p.heads
  ok (append_writer p.tails (append_writer heads w))

-- `assertArgumentCount`
abbrev pub check_count : Option ℕ → ℕ → Result (Unit {0})
check_count none n = ok tt
check_count (some k) n = do assert (leb k n) missing_argument; assert (leb n k) unexpected_argument

-- `if (count === -1) writer.writeValue(value.length)`
abbrev pub write_count : Option ℕ → ℕ → Writer → Result Writer
write_count none n w = write_value (BigNumberish.number (pos n)) w
write_count (some k) n w = ok w

unfoldable mutual
  unfolding encode_number encode_address encode_fixed encode_bytes finish_pack

  pub encode : Coder → Value → Writer → Result Writer
  encode (array c n) (list vs) w = do
    w' ← write_count n (count vs) w
    check_count n (count vs)
    p ← pack_items (repeat_coder (count vs) c) vs new_packing
    finish_pack p w'
  encode (array c n) v w = err invalid_argument
  encode (tuple cs) (list vs) w = do
    assert (count_coders cs == count vs) invalid_argument
    p ← pack_items cs vs new_packing
    finish_pack p w
  encode (tuple cs) v w = err invalid_argument
  encode (number size signed) v w = encode_number size signed v w
  encode address v w = encode_address v w
  encode boolean v w = write_value (BigNumberish.number (pos (truth v))) w
  encode (fixed_bytes size) v w = encode_fixed size v w
  encode bytes v w = octets_of v >>= λ d. encode_bytes d w
  encode string v w = utf8_of v >>= λ d. encode_bytes d w
  encode null v w = encode_null v w

  -- The loop over the coders; `pack` has compared the two lengths.
  pub pack_items : Coders → Values → Packing → Result Packing
  pack_items (coder c cs) (value v vs) p =
      let far = do tails ← encode c v p.tails; pack_items cs vs (add_dynamic p tails)
      in let near = do
        heads ← encode c v p.heads
        pack_items cs vs (record { heads = heads; tails = p.tails; updates = p.updates })
        in if is_dynamic c then far else near
  pack_items cs vs p = ok p

-- `AbiCoder.encode` with the coders of the types; the result is the bytes of its text.
unfoldable pub encode_types : Coders → Values → Result (List ℕ)
unfolding encode
encode_types cs vs = do
  check_count (some (count_coders cs)) (count vs)
  w ← encode (tuple cs) (list vs) new_writer
  ok (joined w.chunks)
