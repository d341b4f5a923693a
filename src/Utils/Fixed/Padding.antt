-- ===== src/Utils/Fixed/Padding.antt =====
-- The padding of the decimals in `fromString` of src.ts/utils/fixednumber.ts.
use corebc_js.Utils.Maths.{parse_bigint, or_invalid}
use corebc_js.Utils.Fixed.Formats.{zeros}
use corebc_js.Utils.Fixed.Convert.{pad_back, minus_text, decimal_value}
use corebc_js.Utils.Fixed.Tens.{nulls, replicate-append, take-replicate}
use corebc_js.Common.{
  ℕ, arith, ◌≡◌, refl, ap, Bool, true, false, [], ◌∷◌, ◌++◌, Text, ◌==◌, all, zero, suc, ◌+◌, ◌-◌,
  ◌≤◌, ◌∙◌, append_assoc, ltb, lt→ltb, le→ltb, length, drop, length-append, length-replicate, sym,
  append-nil, take,
}
use native.Mathlib.Decide.{dec_lt}

-- The padding of the decimals that `toString` trimmed.
back_more :
    (fuel d : ℕ) (s : Text)
    → ltb (length s) d ≡ true
    → pad_back (suc fuel) d s ≡ pad_back fuel d (s ++ zeros)
unfolding pad_back
back_more fuel d s h = rw (h, pad_back) refl

back_done : (fuel d : ℕ) (s : Text) → ltb (length s) d ≡ false → pad_back (suc fuel) d s ≡ s
unfolding pad_back
back_done fuel d s h = rw (h, pad_back) refl

pad_back_lem :
    (fuel d m : ℕ) (s : Text)
    → d ≤ length s + m + fuel
    → (k : ℕ) × (pad_back fuel d (s ++ nulls m) ≡ s ++ nulls k) × (d ≤ length s + k)
unfolding pad_back
pad_back_lem zero d m s h = (m, refl, omega arith)
pad_back_lem (suc fuel) d m s h = elim (dec_lt (length (s ++ nulls m)) d) [
  | yes short ↦
      let (k, e, hk) = pad_back_lem fuel d (m + 128) s (omega arith) in
      (
        k,
        back_more fuel d (s ++ nulls m) (lt→ltb (length (s ++ nulls m)) d short)
            ∙ ap (pad_back fuel d)
                (append_assoc s (nulls m) zeros ∙ ap (λ t. s ++ t) (replicate-append m 128 b'0'))
            ∙ e,
        hk,
      )
  | no long ↦ (
    m,
    back_done fuel d (s ++ nulls m) (le→ltb (length (s ++ nulls m)) d (omega arith)),
    omega (arith, length-append s (nulls m), length-replicate {A = ℕ} m b'0'),
  )
]

-- The part behind the decimals of the format, and the decimals.
drop-nulls : (d k : ℕ) → drop d (nulls k) ≡ nulls (k - d)
drop-nulls zero k = let same : k ≡ k - 0 = omega arith in ap nulls same
drop-nulls (suc d) zero = let same : 0 ≡ 0 - suc d = omega arith in ap nulls same
drop-nulls (suc d) (suc k) =
    let same : k - d ≡ suc k - suc d = omega arith in drop-nulls d k ∙ ap nulls same

drop_padded :
    (d k : ℕ) (s : Text) → length s ≤ d → drop d (s ++ nulls k) ≡ nulls (k - (d - length s))
drop_padded d k [] h =
    let same : d ≡ d - 0 = omega arith in drop-nulls d k ∙ ap (λ n. nulls (k - n)) same
drop_padded zero k (c ∷ s) h = absurd (omega arith)
drop_padded (suc d) k (c ∷ s) h =
    let same : d - length s ≡ suc d - suc (length s) = omega arith in
    drop_padded d k s (omega arith) ∙ ap (λ n. nulls (k - n)) same

take_padded :
    (d k : ℕ) (s : Text)
    → length s ≤ d
    → d ≤ length s + k
    → take d (s ++ nulls k) ≡ s ++ nulls (d - length s)
take_padded d k [] h h' =
    let same : d ≡ d - 0 = omega arith in take-replicate d k b'0' (omega arith) ∙ ap nulls same
take_padded zero k (c ∷ s) h h' = absurd (omega arith)
take_padded (suc d) k (c ∷ s) h h' =
    let same : d - length s ≡ suc d - suc (length s) = omega arith in
    ap (λ t. c ∷ t) (take_padded d k s (omega arith) (omega arith) ∙ ap (λ n. s ++ nulls n) same)

all-nulls : (k : ℕ) → all (λ c. c == b'0') (nulls k) ≡ true
all-nulls zero = refl
all-nulls (suc k) = all-nulls k

pub decimal_value_lem :
    (minus : Bool) (c : ℕ) (whole fraction : Text) (cut d : ℕ)
    → length fraction + cut ≡ d
    → decimal_value (minus, c ∷ whole, fraction) d
      ≡ or_invalid (parse_bigint (minus_text minus ++ ((c ∷ whole) ++ (fraction ++ nulls cut))))
unfolding decimal_value
decimal_value_lem minus c whole fraction cut d h =
    let (k, padded, enough) = pad_back_lem d d 0 fraction (omega arith) in
    let same = ap (pad_back d d) (sym (append-nil fraction)) ∙ padded in
    let rest : d - length fraction ≡ cut = omega arith in
    rw (same, drop_padded d k fraction (omega arith), all-nulls (k - (d - length fraction)))
      (ap (λ t. or_invalid (parse_bigint (minus_text minus ++ ((c ∷ whole) ++ t))))
        (take_padded d k fraction (omega arith) enough ∙ ap (λ n. fraction ++ nulls n) rest))
