-- ===== src/Utils/Data/Pad.antt =====
-- Slicing, padding and stripping of src.ts/utils/data.ts.
use corebc_js.Common.Radix.{of_digits}
use corebc_js.Utils.Data.{
  BytesLike, bytes, text, get_bytes, hexlify_bytes, byte_digits, is_hex_string, is_bytes,
  whole_bytes,
}
use corebc_js.Utils.Data.Hex.{IsByte, IsBytes, get_bytes-hexlify_bytes}
use corebc_js.Utils.Data.Texts.{hexlify-hexlify_bytes, arrayify-get_bytes, byte_digits-IsPlain}
use corebc_js.Utils.Data.Slices.{concat, data_slice, zero_pad_value, drop_zeros, strip_zeros}
use corebc_js.Common.{
  ℕ, ◌≤◌, ◌<◌, ◌≡◌, refl, sym, ◌∙◌, ap, none, some, List, [], ◌∷◌, ◌++◌, append-nil, Text, le→leb,
  length, slice, All-take, All-drop, ◌>>=◌, ok, err, buffer_overrun, zero, suc, ◌-◌, ◌%◌, arith,
  true, ◌==◌, lt→leb, take, drop, replicate, length-append, length-drop, length-replicate, take_all,
  take-append-drop, All-append, All-replicate, lt→ltb,
}
use mathlib.Core.Path.{ap₂}

byte_digits-append : (v w : List ℕ) → byte_digits (v ++ w) ≡ byte_digits v ++ byte_digits w
unfolding byte_digits
byte_digits-append [] w = refl
byte_digits-append (b ∷ v) w = simp (byte_digits-append v w)

pub concat_two :
    (to_byte : Text → ℕ) (v w : List ℕ)
    → IsBytes v
    → IsBytes w
    → concat to_byte (text (hexlify_bytes v) ∷ text (hexlify_bytes w) ∷ [])
      ≡ ok (hexlify_bytes (v ++ w))
unfolding concat
concat_two to_byte v w hv hw =
    rw (hexlify-hexlify_bytes to_byte v hv, hexlify-hexlify_bytes to_byte w hw)
      (unfold hexlify_bytes in
        ap (λ t. ok (b'0' ∷ b'x' ∷ t))
          (ap (λ t. byte_digits v ++ t) (append-nil _) ∙ sym (byte_digits-append v w)))

slices : (v : List ℕ) (k : ℕ) → k ≤ length v → slice 0 k v ++ slice k (length v) v ≡ v
slices v k h =
    ap₂ (λ a b. a ++ b) (ap (λ n. take n v) (omega arith))
      (ap (λ n. take n (drop k v)) (sym (length-drop k v)) ∙ take_all (drop k v))
    ∙ take-append-drop k v

-- Data cut in two at any position inside it, and put together again, is the whole data.
pub concat-data_slice :
    (to_byte : Text → ℕ) (d : BytesLike) (v : List ℕ) (k : ℕ)
    → get_bytes d ≡ ok v
    → IsBytes v
    → k ≤ length v
    → (data_slice d none (some k) >>= λ a.
        data_slice d (some k) none >>= λ b. concat to_byte (text a ∷ text b ∷ []))
      ≡ ok (hexlify_bytes v)
unfolding data_slice
concat-data_slice to_byte d v k e h fits =
    rw (e, le→leb k (length v) fits, le→leb 0 (length v) (omega arith))
      (concat_two to_byte (slice 0 k v) (slice k (length v) v) (All-take IsByte _ _ h)
          (All-take IsByte _ _ (All-drop IsByte k v h))
        ∙ ap (λ t. ok (hexlify_bytes t)) (slices v k fits))

pub zeros_value :
    (n : ℕ) (v : List ℕ)
    → of_digits 256 (λ b. b) 0 (replicate n 0 ++ v) ≡ of_digits 256 (λ b. b) 0 v
zeros_value zero v = refl
zeros_value (suc n) v = zeros_value n v

drop_zeros-zeros : (n : ℕ) (v : List ℕ) → drop_zeros (replicate n 0 ++ v) ≡ drop_zeros v
unfolding drop_zeros
drop_zeros-zeros zero v = refl
drop_zeros-zeros (suc n) v = drop_zeros-zeros n v

drop_zeros-value :
    (v : List ℕ) → of_digits 256 (λ b. b) 0 (drop_zeros v) ≡ of_digits 256 (λ b. b) 0 v
unfolding drop_zeros
drop_zeros-value [] = refl
drop_zeros-value (zero ∷ v) = drop_zeros-value v
drop_zeros-value (suc b ∷ v) = ground arith

-- Padding on the left to `n` bytes: longer data is a BUFFER_OVERRUN, other data becomes `n` bytes
-- that stand for the same number.
pub zero_pad_value_lem :
    (d : BytesLike) (v : List ℕ) (n : ℕ)
    → get_bytes d ≡ ok v
    → IsBytes v
    → (n < length v → zero_pad_value d n ≡ err buffer_overrun)
      × (length v ≤ n
          → (w : List ℕ) × ((zero_pad_value d n >>= λ s. get_bytes (text s)) ≡ ok w)
            × (length w ≡ n)
            × (of_digits 256 (λ b. b) 0 w ≡ of_digits 256 (λ b. b) 0 v))
unfolding zero_pad_value
zero_pad_value_lem d v n e h = (
  λ long. rw (e, lt→leb (length v) n long),
  λ fits. (
    replicate (n - length v) 0 ++ v,
    rw (e, le→leb (length v) n fits)
        (get_bytes-hexlify_bytes _
          (All-append IsByte _ v (All-replicate IsByte (n - length v) 0 (omega arith)) h)),
    omega (
      arith,
      length-append {0} (replicate (n - length v) 0) v,
      length-replicate {0} {A = ℕ} (n - length v) 0,
    ),
    zeros_value (n - length v) v,
  ),
)

pub hexlify_bytes-IsHex :
    (v : List ℕ) → IsBytes v → is_hex_string (hexlify_bytes v) whole_bytes ≡ true
unfolding is_hex_string hexlify_bytes
hexlify_bytes-IsHex v h =
    let p = byte_digits-IsPlain v h in
    rw p.digits_only (even (length (byte_digits v)) p.even_length)
  where
    even : (n : ℕ) → n % 2 ≡ 0 → (suc (suc n) % 2 == 0) ≡ true
    even n e = ground arith

pub is_bytes-IsBytes : (v : List ℕ) → IsBytes v → is_bytes v ≡ true
unfolding is_bytes
is_bytes-IsBytes [] h = refl
is_bytes-IsBytes (b ∷ v) (hb, hv) = rw (lt→ltb b 256 hb) (is_bytes-IsBytes v hv)

strip_hex : (w : List ℕ) → IsBytes w → strip_zeros (text (hexlify_bytes w)) ≡ ok (drop_zeros w)
unfolding strip_zeros
strip_hex w h =
    ap (λ r. r >>= λ u. ok (drop_zeros u))
      (arrayify-get_bytes (hexlify_bytes w) (hexlify_bytes-IsHex w h) ∙ get_bytes-hexlify_bytes w h)

strip_bytes : (w : List ℕ) → IsBytes w → strip_zeros (bytes w) ≡ ok (drop_zeros w)
unfolding strip_zeros
strip_bytes w h = rw (is_bytes-IsBytes w h)

-- `stripZeros` of padded data: no trace of the padding is left, and the number is the same.
pub strip_zeros-zero_pad_value :
    (d : BytesLike) (v : List ℕ) (n : ℕ)
    → get_bytes d ≡ ok v
    → IsBytes v
    → length v ≤ n
    → ((zero_pad_value d n >>= λ s. strip_zeros (text s)) ≡ strip_zeros (bytes v))
      × ((w : List ℕ) × (strip_zeros (bytes v) ≡ ok w)
          × (of_digits 256 (λ b. b) 0 w ≡ of_digits 256 (λ b. b) 0 v))
unfolding zero_pad_value
strip_zeros-zero_pad_value d v n e h fits =
    let z : List ℕ = replicate (n - length v) 0 in
    let hz : IsBytes (z ++ v) =
      All-append IsByte z v (All-replicate IsByte (n - length v) 0 (omega arith)) h in
    (
      rw (e, le→leb (length v) n fits)
          (strip_hex (z ++ v) hz
            ∙ ap ok (drop_zeros-zeros (n - length v) v)
            ∙ sym (strip_bytes v h)),
      (drop_zeros v, strip_bytes v h, drop_zeros-value v),
    )
