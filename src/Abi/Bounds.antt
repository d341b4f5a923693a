-- ===== src/Abi/Bounds.antt =====
-- The reader of src.ts/abi/coders stays in its data, whatever the data is.
use corebc_js.Abi.{
  Coder, Coders, Value, number, address, boolean, fixed_bytes, bytes, string, null, array, tuple,
  no_coders, coder, is_dynamic,
}
use corebc_js.Abi.Reader.{
  Reader, M, next, ◌>>=◌, call, sub_reader, peek_length, taken, read_bytes, read_value, read_index,
}
use corebc_js.Abi.Decode.{
  decode, unpack, unpack_times, read_item, read_count, check_space, with_base,
}
use corebc_js.Common.{
  ℕ, zero, suc, ◌+◌, ◌-◌, ◌≤◌, arith, ◌≡◌, refl, ◌∙◌, ap, Bool, true, false, Option, none, some,
  length, slice, Result, ok, err, stuck, drop, length-take, length-drop,
}

-- The data is the same, the reader goes on, and it does not leave the data.
pub record Keeps (r s : Reader) : Type 0 where
  pub same_contents : s.contents ≡ r.contents
  pub onward : r.offset ≤ s.offset
  pub inside : r.offset ≤ length r.contents → s.offset ≤ length r.contents

pub record Steady {A : Type 0} (m : M A) : Type 0 where
  pub keeps : (r : Reader) → Keeps r (m r).1

same-Keeps : (r : Reader) → Keeps r r
same-Keeps r = record { same_contents = refl; onward = omega arith; inside = λ h. h }

Keeps-trans : {r s t : Reader} → Keeps r s → Keeps s t → Keeps r t
Keeps-trans h k = record {
  same_contents = k.same_contents ∙ h.same_contents;
  onward = omega (arith, h.onward, k.onward);
  inside = λ i. omega (
    arith,
    ap length h.same_contents,
    k.inside (omega (arith, h.inside i, ap length h.same_contents)),
  );
}

next-Keeps :
    {A B : Type 0} (r : Reader) (p : Result A × Reader) (f : A → M B)
    → Keeps r p.1
    → ((a : A) → Steady (f a))
    → Keeps r (next p f).1
next-Keeps r (ok a, s) f h hf = Keeps-trans h ((hf a).keeps s)
next-Keeps r (err e, s) f h hf = h
next-Keeps r (stuck, s) f h hf = h

infixr 4 ◌then◌
◌then◌ :
    {A B : Type 0} {m : M A} {f : A → M B} → Steady m → ((a : A) → Steady (f a)) → Steady (m >>= f)
◌then◌ {m = m} {f = f} hm hf = record { keeps = λ r. next-Keeps r (m r) f (hm.keeps r) hf }

called : {A : Type 0} {m : Result A} → Steady (call m)
called = record { keeps = λ r. same-Keeps r }

taken-Steady : (n : ℕ) (k : Result ℕ) → (r : Reader) → Keeps r (taken n k r).1
taken-Steady n (ok k) r =
    let part = slice r.offset (r.offset + k) r.contents in
    let size : length part ≤ length r.contents - r.offset = omega (
      arith,
      length-take (r.offset + k - r.offset) (drop r.offset r.contents),
      length-drop r.offset r.contents,
    ) in
    record { same_contents = refl; onward = omega arith; inside = λ i. omega arith }
taken-Steady n (err e) r = same-Keeps r
taken-Steady n stuck r = same-Keeps r

pub read_bytes-Steady : (n : ℕ) (loose : Bool) → Steady (read_bytes n loose)
unfolding read_bytes
read_bytes-Steady n loose = record { keeps = λ r. taken-Steady n (peek_length n loose r) r }

pub read_value-Steady : Steady read_value
unfolding read_value
read_value-Steady = read_bytes-Steady 32 false then λ b. called

pub read_index-Steady : Steady read_index
unfolding read_index
read_index-Steady = read_bytes-Steady 32 false then λ b. called

pub read_item-Steady :
    (base : Reader) (far : Bool) (d : M Value) → Steady d → Steady (read_item base far d)
unfolding read_item
read_item-Steady base true d h = read_index-Steady then λ n. called
read_item-Steady base false d h = record { keeps = λ r. (h.keeps r) }

pub checked : (n : ℕ) → Steady (check_space n)
checked n = record { keeps = λ r. same-Keeps r }

pub based :
    {A : Type 0} {f : Reader → M A} → ((base : Reader) → Steady (f base)) → Steady (with_base f)
based h = record { keeps = λ r. (h (sub_reader 0 r)).keeps r }

pub read_count-Steady : (k : Option ℕ) → Steady (read_count k)
read_count-Steady none = read_index-Steady then λ n. checked n then λ done. called
read_count-Steady (some n) = called

pub unpack_times-Steady :
    (base : Reader) (far : Bool) (d : M Value) (n : ℕ)
    → Steady d
    → Steady (unpack_times base far d n)
unfolding unpack_times
unpack_times-Steady base far d zero h = called
unpack_times-Steady base far d (suc n) h =
    read_item-Steady base far d h then λ v. unpack_times-Steady base far d n h then λ vs. called

mutual
  unfolding decode

  pub decode-Steady : (c : Coder) → Steady (decode c)
  decode-Steady (number size signed) = read_value-Steady then λ z. called
  decode-Steady address = read_value-Steady then λ z. called
  decode-Steady boolean = read_value-Steady then λ z. called
  decode-Steady (fixed_bytes size) = read_bytes-Steady size false then λ b. called
  decode-Steady bytes = read_index-Steady then λ n. read_bytes-Steady n true then λ b. called
  decode-Steady string = read_index-Steady then λ n. read_bytes-Steady n true then λ b. called
  decode-Steady null = read_bytes-Steady 0 false then λ b. called
  decode-Steady (array c k) = read_count-Steady k then λ n.
      based (λ base. unpack_times-Steady base (is_dynamic c) (decode c) n (decode-Steady c))
      then λ vs. called
  decode-Steady (tuple cs) = based (λ base. unpack-Steady cs base) then λ vs. called

  pub unpack-Steady : (cs : Coders) (base : Reader) → Steady (unpack cs base)
  unpack-Steady no_coders base = called
  unpack-Steady (coder c cs) base =
      read_item-Steady base (is_dynamic c) (decode c) (decode-Steady c) then λ v.
      unpack-Steady cs base then λ vs. called
