-- ===== src/Abi/Ends.antt =====
-- The decoders of src.ts/abi/coders on data that nobody has encoded.
use corebc_js.Utils.Data.{hexlify_bytes}
use corebc_js.Utils.Data.Hex.{IsByte, IsBytes}
use corebc_js.Utils.Maths.{bytes_to_bigint}
use corebc_js.Utils.Maths.BigEndian.{bytes_to_bigint_lem}
use corebc_js.Utils.Rlp.Lengths.{be_value}
use corebc_js.Common.Integers.{pos}
use corebc_js.Abi.{
  Coder, Coders, Value, number, address, boolean, fixed_bytes, bytes, string, null, array, tuple,
  no_coders, coder, no_values, value, is_dynamic, list, nothing, chars,
}
use corebc_js.Abi.Reader.{
  aligned, Reader, M, next, ◌>>=◌, call, sub_reader, peek_length, taken, read_bytes, read_value,
  read_index, to_index,
}
use corebc_js.Abi.Decode.{
  decode, unpack, unpack_times, read_item, read_count, check_space, with_base, settle, truth_of,
}
use corebc_js.Abi.Bounds.{
  Steady, read_bytes-Steady, read_value-Steady, read_index-Steady, read_item-Steady,
  read_count-Steady, unpack_times-Steady, decode-Steady, unpack-Steady, checked, based,
}
use corebc_js.Abi.Gives.{
  Gives, Any, ok-Gives, err-Gives, address_of-Gives, string_of-Gives, to_index-Gives,
  number_of-Ends,
}
use corebc_js.Common.{
  refl, Result, ok, err, stuck, ℕ, ◌+◌, ◌-◌, sym, ◌≢◌, inl, inr, Bool, true, false, ◌&&◌, List, leb,
  Bool-cases, length, take, slice, All-take, All-drop, buffer_overrun, zero, suc, ◌*◌, Option, none,
  some, if◌then◌else◌, plain_error,
}
use mathlib.Core.Path.{subst}

-- On a reader of bytes: the result is none of the model's loops without rounds.
pub record Ends {A : Type 0} (P : A → Type 0) (m : M A) : Type 0 where
  pub ends : (r : Reader) → IsBytes r.contents → Gives P (m r).0

next-Gives :
    {A B : Type 0} {P : A → Type 0} {Q : B → Type 0} (p : Result A × Reader) (f : A → M B)
    → Gives P p.0
    → IsBytes p.1.contents
    → ((a : A) → P a → Ends Q (f a))
    → Gives Q (next p f).0
next-Gives (ok a, s) f h b k = (k a (h.each a refl)).ends s b
next-Gives (err e, s) f h b k = err-Gives e
next-Gives (stuck, s) f h b k = absurd (h.ended refl)

pub Steady-then :
    {A B : Type 0} {P : A → Type 0} {Q : B → Type 0} {m : M A} {f : A → M B}
    → Steady m
    → Ends P m
    → ((a : A) → P a → Ends Q (f a))
    → Ends Q (m >>= f)
Steady-then {m = m} {f = f} s h k = record {
  ends = λ r b. next-Gives (m r) f (h.ends r b) (subst IsBytes (sym (s.keeps r).same_contents) b) k;
}

pub call-Ends : {A : Type 0} {P : A → Type 0} (m : Result A) → Gives P m → Ends P (call m)
call-Ends m h = record { ends = λ r b. h }

ok-Ends : {A : Type 0} (a : A) → Ends Any (call (ok a))
ok-Ends a = call-Ends (ok a) (ok-Gives a tt)

taken-Gives :
    (n : ℕ) (k : Result ℕ) (r : Reader)
    → k ≢ stuck
    → IsBytes r.contents
    → Gives IsBytes (taken n k r).0
taken-Gives n (ok k) r h b = ok-Gives (take n (slice r.offset (r.offset + k) r.contents)) (
    All-take IsByte n _
      (All-take IsByte (r.offset + k - r.offset) _ (All-drop IsByte r.offset r.contents b)))
taken-Gives n (err e) r h b = err-Gives e
taken-Gives n stuck r h b = absurd (h refl)

peek_length-ne-stuck : (n : ℕ) (loose : Bool) (r : Reader) → peek_length n loose r ≢ stuck
unfolding peek_length
peek_length-ne-stuck n loose r =
    elim (Bool-cases (leb (r.offset + aligned n) (length r.contents))) [
      | inl e ↦ rw e (λ h. cc)
      | inr e ↦ elim (Bool-cases (r.loose && loose && leb (r.offset + n) (length r.contents))) [
        | inl g ↦ rw e (rw g (λ h. cc))
        | inr g ↦ rw e (rw g (λ h. cc))
      ]
    ]

pub read_bytes-Ends : (n : ℕ) (loose : Bool) → Ends IsBytes (read_bytes n loose)
unfolding read_bytes
read_bytes-Ends n loose = record {
  ends = λ r b. taken-Gives n (peek_length n loose r) r (peek_length-ne-stuck n loose r) b;
}

bigint-Gives : (b : List ℕ) → IsBytes b → Gives Any (bytes_to_bigint b)
bigint-Gives b h =
    subst (Gives Any) (sym (bytes_to_bigint_lem b h)) (ok-Gives (pos (be_value b)) tt)

pub read_value-Ends : Ends Any read_value
unfolding read_value
read_value-Ends =
    Steady-then (read_bytes-Steady 32 false) (read_bytes-Ends 32 false)
      λ b h. call-Ends (bytes_to_bigint b) (bigint-Gives b h)

read_index-Ends : Ends Any read_index
unfolding read_index
read_index-Ends =
    Steady-then (read_bytes-Steady 32 false) (read_bytes-Ends 32 false)
      λ b h. call-Ends (to_index b) (to_index-Gives b h)

settle-Gives : (m : Result Value) → Gives Any m → Gives Any (settle m)
settle-Gives (err buffer_overrun) h = err-Gives buffer_overrun
settle-Gives (ok nothing) h = err-Gives plain_error
settle-Gives stuck h = absurd (h.ended refl)
settle-Gives m h = record { ended = λ e. cc; each = λ a e. tt }

sub_reader-IsBytes : (n : ℕ) (r : Reader) → IsBytes r.contents → IsBytes (sub_reader n r).contents
sub_reader-IsBytes n r b = All-drop IsByte (r.offset + n) r.contents b

read_item-Ends :
    (base : Reader) (far : Bool) (d : M Value)
    → IsBytes base.contents
    → Ends Any d
    → Ends Any (read_item base far d)
unfolding read_item
read_item-Ends base true d b h = Steady-then read_index-Steady read_index-Ends λ n _.
    call-Ends (settle (d (sub_reader n base)).0)
      (settle-Gives _ (h.ends (sub_reader n base) (sub_reader-IsBytes n base b)))
read_item-Ends base false d b h = record { ends = λ r c. settle-Gives _ (h.ends r c) }

unpack_times-Ends :
    (base : Reader) (far : Bool) (d : M Value) (n : ℕ)
    → IsBytes base.contents
    → Steady d
    → Ends Any d
    → Ends Any (unpack_times base far d n)
unfolding unpack_times
unpack_times-Ends base far d zero b s h = ok-Ends no_values
unpack_times-Ends base far d (suc n) b s h =
    Steady-then (read_item-Steady base far d s) (read_item-Ends base far d b h) λ v _.
      Steady-then (unpack_times-Steady base far d n s) (unpack_times-Ends base far d n b s h)
        λ vs _. ok-Ends (value v vs)

read_count-Ends : (k : Option ℕ) → Ends Any (read_count k)
read_count-Ends none =
    Steady-then read_index-Steady read_index-Ends
      λ n _. Steady-then (checked n) (checked-Ends n) λ _ _. ok-Ends n
  where
    checked-Ends : (n : ℕ) → Ends Any (check_space n)
    checked-Ends n = record { ends = λ r b. enough (leb (n * 32) (length r.contents)) }
      where
        enough : (b : Bool) → Gives Any (if b then ok tt else err buffer_overrun)
        enough true = ok-Gives tt tt
        enough false = err-Gives buffer_overrun
read_count-Ends (some n) = ok-Ends n

based-Ends :
    {A : Type 0} {f : Reader → M A}
    → ((base : Reader) → IsBytes base.contents → Ends Any (f base))
    → Ends Any (with_base f)
based-Ends h = record { ends = λ r b. (h (sub_reader 0 r) (sub_reader-IsBytes 0 r b)).ends r b }

mutual
  unfolding decode

  pub decode-Ends : (c : Coder) → Ends Any (decode c)
  decode-Ends (number size signed) =
      Steady-then read_value-Steady read_value-Ends
        λ z _. call-Ends _ (number_of-Ends size signed z)
  decode-Ends address =
      Steady-then read_value-Steady read_value-Ends λ z _. call-Ends _ (address_of-Gives z)
  decode-Ends boolean = Steady-then read_value-Steady read_value-Ends λ z _. ok-Ends (truth_of z)
  decode-Ends (fixed_bytes size) =
      Steady-then (read_bytes-Steady size false) (read_bytes-Ends size false)
        λ b _. ok-Ends (chars (hexlify_bytes b))
  decode-Ends bytes = Steady-then read_index-Steady read_index-Ends λ n _.
      Steady-then (read_bytes-Steady n true) (read_bytes-Ends n true)
        λ b _. ok-Ends (chars (hexlify_bytes b))
  decode-Ends string = Steady-then read_index-Steady read_index-Ends λ n _.
      Steady-then (read_bytes-Steady n true) (read_bytes-Ends n true)
        λ b _. call-Ends _ (string_of-Gives b)
  decode-Ends null =
      Steady-then (read_bytes-Steady 0 false) (read_bytes-Ends 0 false) λ b _. ok-Ends nothing
  decode-Ends (array c k) = Steady-then (read_count-Steady k) (read_count-Ends k) λ n _.
      Steady-then
        (based λ base. unpack_times-Steady base (is_dynamic c) (decode c) n (decode-Steady c))
        (based-Ends λ base b.
          unpack_times-Ends base (is_dynamic c) (decode c) n b (decode-Steady c) (decode-Ends c))
        λ vs _. ok-Ends (list vs)
  decode-Ends (tuple cs) =
      Steady-then (based λ base. unpack-Steady cs base) (based-Ends λ base b. unpack-Ends cs base b)
        λ vs _. ok-Ends (list vs)

  unpack-Ends : (cs : Coders) (base : Reader) → IsBytes base.contents → Ends Any (unpack cs base)
  unpack-Ends no_coders base b = ok-Ends no_values
  unpack-Ends (coder c cs) base b =
      Steady-then (read_item-Steady base (is_dynamic c) (decode c) (decode-Steady c))
        (read_item-Ends base (is_dynamic c) (decode c) b (decode-Ends c))
        λ v _.
          Steady-then (unpack-Steady cs base) (unpack-Ends cs base b) λ vs _. ok-Ends (value v vs)
