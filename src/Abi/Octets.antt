-- ===== src/Abi/Octets.antt =====
-- The words, paddings and texts of src.ts/abi/coders are those that the ABI specifies.
use corebc_js.Common.Radix.{of_digits}
use corebc_js.Utils.Data.Hex.{IsByte, IsBytes}
use corebc_js.Utils.Data.Pad.{zeros_value}
use corebc_js.Utils.Maths.{max_value}
use corebc_js.Utils.Rlp.Lengths.{be_value}
use corebc_js.Utils.Utf8.Points.{point_bytes, points_bytes}
use corebc_js.Abi.Writer.{pad_right}
use corebc_js.Abi.Layout.{word, sized}
use corebc_js.Abi.Words.{length-word, word-IsBytes, be_value-word}
use corebc_js.Abi.Standard.{big_endian, filled, counted, utf8_octets, utf8}
use corebc_js.Common.{
  ℕ, ◌+◌, ◌*◌, ◌/◌, ◌%◌, zero, suc, ◌-◌, ◌^◌, ◌≤◌, ◌<◌, arith, ◌≡◌, refl, sym, ◌∙◌, ap, inl, inr,
  true, false, List, [], ◌∷◌, ◌++◌, append-nil, append_assoc, ◌==◌, Bool-cases, length, replicate,
  length-append, All-append, All-replicate,
}
use mathlib.Core.Path.{ap₂}

last_byte : (n b : ℕ) → b < 256 → ((n * 256 + b) / 256 ≡ n) × ((n * 256 + b) % 256 ≡ b)
last_byte n b h = (omega arith, omega arith)

-- Bytes are the octets of the number that they stand for.
big_endian-of_digits :
    (j n : ℕ) (w : List ℕ)
    → IsBytes w
    → big_endian (j + length w) (of_digits 256 (λ b. b) n w) ≡ big_endian j n ++ w
unfolding big_endian
big_endian-of_digits j n [] h =
    let none_more : j + 0 ≡ j = omega arith in
    ap (λ k. big_endian k n) none_more ∙ sym (append-nil (big_endian j n))
big_endian-of_digits j n (b ∷ w) (hb, hw) =
    let (high, low) = last_byte n b hb in
    let one_more : j + suc (length w) ≡ suc j + length w = omega arith in
    ap (λ k. big_endian k (of_digits 256 (λ x. x) (n * 256 + b) w)) one_more
    ∙ big_endian-of_digits (suc j) (n * 256 + b) w hw
    ∙ ap (λ t. t ++ w) (ap₂ (λ q r. big_endian j q ++ r ∷ []) high low)
    ∙ append_assoc (big_endian j n) (b ∷ []) w

pub length-big_endian : (k n : ℕ) → length (big_endian k n) ≡ k
unfolding big_endian
length-big_endian zero n = refl
length-big_endian (suc k) n =
    omega
      (arith, length-append (big_endian k (n / 256)) (n % 256 ∷ []), length-big_endian k (n / 256))

pub big_endian-be_value : (w : List ℕ) → IsBytes w → length w ≡ 32 → big_endian 32 (be_value w) ≡ w
big_endian-be_value w h l =
    let all : 32 ≡ 0 + length w = omega (arith, l) in
    ap (λ k. big_endian k (be_value w)) all
    ∙ big_endian-of_digits 0 0 w h
    ∙ (unfold big_endian in refl)

pub word-big_endian : (n : ℕ) → n < 2 ^ 256 → word n ≡ big_endian 32 n
word-big_endian n h =
    sym (big_endian-be_value (word n) (word-IsBytes n) (length-word n h))
    ∙ ap (λ k. big_endian 32 k) (be_value-word n)

-- The word of 22 bytes has ten zeros before them.
pub word-be_value :
    (w : List ℕ)
    → IsBytes w
    → length w ≡ 22
    → be_value w < 2 ^ 256
    → word (be_value w) ≡ replicate 10 0 ++ w
word-be_value w h l small =
    let zeros = replicate 10 0 ++ w in
    word-big_endian (be_value w) small
    ∙ ap (λ k. big_endian 32 k) (sym (zeros_value 10 w))
    ∙ big_endian-be_value zeros
        (All-append IsByte (replicate 10 0) w (All-replicate IsByte 10 0 (omega arith)) h)
        (omega (arith, l))

pub pad_right-filled : (w : List ℕ) → pad_right w ≡ filled w
unfolding filled
pad_right-filled w = elim (Bool-cases (length w % 32 == 0)) [
  | inl e ↦ rw e (sym (append-nil w) ∙ ap (λ k. w ++ replicate k 0) (none_left (length w) e))
  | inr e ↦ rw e (ap (λ k. w ++ replicate k 0) (some_left (length w) e))
]
  where
    none_left : (n : ℕ) → (n % 32 == 0) ≡ true → 0 ≡ 31 - (n + 31) % 32
    none_left n e = ground arith

    some_left : (n : ℕ) → (n % 32 == 0) ≡ false → 32 - n % 32 ≡ 31 - (n + 31) % 32
    some_left n e = ground arith

pub length-filled : (w : List ℕ) → length w ≤ length (filled w)
unfolding filled
length-filled w = omega (arith, length-append w (replicate (31 - (length w + 31) % 32) 0))

pub sized-counted : (w : List ℕ) → length w ≤ max_value → sized w ≡ counted w
unfolding counted
sized-counted w h =
    ap₂ (λ a b. a ++ b) (word-big_endian (length w) (omega arith)) (pad_right-filled w)

pub length-counted : (w : List ℕ) → length w ≤ length (counted w)
unfolding counted
length-counted w =
    omega (arith, length-append (big_endian 32 (length w)) (filled w), length-filled w)

point_bytes-octets : (p : ℕ) → point_bytes p ≡ utf8_octets p
unfolding utf8_octets
point_bytes-octets p = ground arith

pub points_bytes-utf8 : (ps : List ℕ) → points_bytes ps ≡ utf8 ps
unfolding utf8
points_bytes-utf8 [] = refl
points_bytes-utf8 (p ∷ ps) = ap₂ (λ a b. a ++ b) (point_bytes-octets p) (points_bytes-utf8 ps)
