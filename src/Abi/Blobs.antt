-- ===== src/Abi/Blobs.antt =====
-- What the coders of byte strings and of texts in src.ts/abi/coders read from the layout of a value.
use corebc_js.Utils.Data.{BytesLike, pair_bytes, hexlify_bytes}
use corebc_js.Utils.Data.Hex.{IsBytes, pair_bytes-byte_digits}
use corebc_js.Utils.Maths.{max_value}
use corebc_js.Utils.Utf8.{error_func, to_utf8_bytes, to_utf8_string, units_of}
use corebc_js.Utils.Utf8.Points.{IsScalar}
use corebc_js.Utils.Utf8.RoundTrip.{to_utf8_string-to_utf8_bytes}
use corebc_js.Abi.{Coder, Value, is_dynamic, fixed_bytes, bytes, string, chars}
use corebc_js.Abi.Reader.{Reader, M, next, ◌>>=◌, call, read_bytes, read_index}
use corebc_js.Abi.Writer.{pad_right}
use corebc_js.Abi.Decode.{decode, text_of}
use corebc_js.Abi.Layout.{layout, word, sized}
use corebc_js.Abi.Words.{at, length-word, length-pad_right, read_index-word, read_padded}
use corebc_js.Abi.Scalars.{ReadsBack}
use corebc_js.Common.{
  ℕ, ◌+◌, ◌≤◌, arith, ◌≡◌, sym, ◌∙◌, ap, Bool, true, false, List, ◌++◌, append_assoc, Text, length,
  drop, length-append, length_three, ok, refl, [], All, Result, value_or,
}
use mathlib.Core.Path.{subst}

pub bytes_of_text :
    (s : Text) (w : List ℕ) → IsBytes w → s ≡ hexlify_bytes w → pair_bytes (drop 2 s) ≡ w
unfolding hexlify_bytes
bytes_of_text s w h e = ap (λ t. pair_bytes (drop 2 t)) e ∙ pair_bytes-byte_digits w h

pub fixed_bytes-ReadsBack :
    (size : ℕ) (s : Text) (w : List ℕ)
    → IsBytes w
    → length w ≡ size
    → s ≡ hexlify_bytes w
    → ReadsBack (fixed_bytes size) (chars s)
unfolding decode layout
fixed_bytes-ReadsBack size s w h l e loose whole front rest _ g =
    let same = bytes_of_text s w h e in
    let split : whole ≡ front ++ (pad_right w ++ rest) =
      g ∙ ap (λ t. front ++ (pad_right t ++ rest)) same in
    let read : read_bytes size false (at loose whole (length front))
        ≡ (ok w, at loose whole (length front + length (pad_right w))) =
      rw split (rw (sym l) (read_padded false loose front w rest)) in
    (
      length front + length (pad_right w),
      ap (λ m. next m (λ b. call (ok (chars (hexlify_bytes b))))) read
          ∙ ap (λ t. (ok (chars t), at loose whole (length front + length (pad_right w)))) (sym e),
      λ _. ap (λ t. length front + length (pad_right t)) (sym same),
    )

pub long_enough : (w : List ℕ) → length w ≤ length (pad_right w)
long_enough w = omega (arith, length-pad_right w)

-- The bytes behind their length, handed to `use`.
read_sized :
    (use_bytes : List ℕ → M Value) (loose : Bool) (whole front w rest : List ℕ)
    → length whole ≤ max_value
    → whole ≡ front ++ (sized w ++ rest)
    → (read_index >>= λ n. read_bytes n true >>= use_bytes) (at loose whole (length front))
      ≡ use_bytes w (at loose whole (length front + 32 + length (pad_right w)))
read_sized use_bytes loose whole front w rest small g =
    let n = length w in
    let pad = pad_right w in
    let split : whole ≡ front ++ (word n ++ (pad ++ rest)) =
      g ∙ ap (λ t. front ++ t) (append_assoc (word n) pad rest) in
    let again : whole ≡ (front ++ word n) ++ (pad ++ rest) =
      split ∙ sym (append_assoc front (word n) (pad ++ rest)) in
    let total : length whole ≡ length front + (length (word n) + (length pad + length rest)) =
      ap length split
      ∙ length_three front (word n) (pad ++ rest)
      ∙ omega (arith, length-append pad rest) in
    let bound : n ≤ max_value = omega (arith, long_enough w) in
    let place : length (front ++ word n) ≡ length front + 32 =
      length-append front (word n) ∙ ap (λ k. length front + k) (length-word n (omega arith)) in
    let first : read_index (at loose whole (length front))
        ≡ (ok n, at loose whole (length front + 32)) =
      rw split (read_index-word n loose front (pad ++ rest) bound) in
    let second : read_bytes n true (at loose whole (length (front ++ word n)))
        ≡ (ok w, at loose whole (length (front ++ word n) + length pad)) =
      rw again (read_padded true loose (front ++ word n) w rest) in
    ap (λ m. next m (λ k. read_bytes k true >>= use_bytes)) first
    ∙ ap (λ m. next m use_bytes)
        (subst (λ o. read_bytes n true (at loose whole o) ≡ (ok w, at loose whole (o + length pad)))
          place second)

-- A coder that reads a byte string and makes a value of it.
sized-ReadsBack :
    (c : Coder) (v : Value) (f : List ℕ → Result Value) (w : List ℕ)
    → layout c v ≡ sized w
    → is_dynamic c ≡ true
    → ((r : Reader) → decode c r ≡ (read_index >>= λ n. read_bytes n true >>= λ b. call (f b)) r)
    → f w ≡ ok v
    → ReadsBack c v
sized-ReadsBack c v f w l far d e loose whole front rest small g =
    let split : whole ≡ front ++ (sized w ++ rest) = g ∙ ap (λ t. front ++ (t ++ rest)) l in
    let k = length front + 32 + length (pad_right w) in
    (
      k,
      d (at loose whole (length front))
          ∙ read_sized (λ b. call (f b)) loose whole front w rest small split
          ∙ ap (λ m. (m, at loose whole k)) e,
      λ near. cc,
    )

pub bytes-ReadsBack :
    (s : Text) (w : List ℕ) → IsBytes w → s ≡ hexlify_bytes w → ReadsBack bytes (chars s)
unfolding decode layout is_dynamic
bytes-ReadsBack s w h e =
    sized-ReadsBack bytes (chars s) (λ b. ok (chars (hexlify_bytes b))) w
      (ap sized (bytes_of_text s w h e)) refl (λ r. refl) (ap (λ t. ok (chars t)) (sym e))

pub string-ReadsBack :
    (s : Text) (ps : List ℕ) → All IsScalar ps → s ≡ units_of ps → ReadsBack string (chars s)
unfolding decode layout is_dynamic
string-ReadsBack s ps h e =
    let (w, written, _, read) = to_utf8_string-to_utf8_bytes error_func ps h in
    sized-ReadsBack string (chars s) (λ b. text_of (to_utf8_string error_func (BytesLike.bytes b)))
      w
      (ap (λ t. sized (value_or [] (to_utf8_bytes t))) e ∙ ap (λ m. sized (value_or [] m)) written)
      refl (λ r. refl) (ap text_of read ∙ ap (λ t. ok (chars t)) (sym e))
