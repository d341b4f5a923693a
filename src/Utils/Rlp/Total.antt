-- ===== src/Utils/Rlp/Total.antt =====
-- src.ts/utils/rlp-decode.ts ends on every input, and src.ts/utils/rlp-encode.ts on all data.
use corebc_js.Utils.Data.{text, get_bytes, is_data_text}
use corebc_js.Utils.Rlp.{
  Structured, unarrayify_integer, decode_byte, decode_step, decode, decode_children, decode_rlp,
}
use corebc_js.Common.{
  ℕ, ◌+◌, ◌-◌, ◌≤◌, ◌<◌, arith, ◌≡◌, refl, ◌≢◌, Bool, true, false, List, leb, if◌then◌else◌, tests,
  length, Error, Result, ◌>>=◌, assert, ok, err, stuck, invalid_argument, buffer_overrun,
  type_error, zero, suc, ◌*◌, sym, Text, ltb, ◌==◌, get_elem?-some, [], ◌∷◌,
}
use mathlib.Core.Path.{subst}

-- The errors that the decoder throws on purpose.
pub data Thrown : Error → Type 0 where
  overrun : Thrown buffer_overrun
  invalid : Thrown invalid_argument

-- The call ends, with a value of which `P` holds or with an error thrown on purpose.
pub data Settles {ℓ κ} {A : Type ℓ} (P : A → Type κ) : Result A → Type (ℓ ⊔ κ) where
  returns : {a : A} → P a → Settles P (ok a)
  throws : {e : Error} → Thrown e → Settles P (err e)

module _ {ℓ κ} {A : Type ℓ} {P : A → Type κ} where
  pub Settles-ne_stuck : {r : Result A} → Settles P r → r ≢ stuck
  Settles-ne_stuck (returns p) = cc
  Settles-ne_stuck (throws t) = cc

  pub Settles-ne_type_error : {r : Result A} → Settles P r → r ≢ err type_error
  Settles-ne_type_error (returns p) = cc
  Settles-ne_type_error (throws overrun) = cc
  Settles-ne_type_error (throws invalid) = cc

  Settles-if :
      (b : Bool) {x y : Result A}
      → (b ≡ true → Settles P x)
      → (b ≡ false → Settles P y)
      → Settles P (if b then x else y)
  Settles-if true hx hy = hx refl
  Settles-if false hx hy = hy refl

  Settles-bind {ℓ' κ'} :
      {B : Type ℓ'} {Q : B → Type κ'} {r : Result A} {f : A → Result B}
      → Settles P r
      → ((a : A) → P a → Settles Q (f a))
      → Settles Q (r >>= f)
  Settles-bind (returns {a} p) k = k a p
  Settles-bind (throws t) k = throws t

Settles-assert : (b : Bool) {e : Error} → Thrown e → Settles (λ _. b ≡ true) (assert b e)
Settles-assert true t = returns refl
Settles-assert false t = throws t

-- An item that starts at `o` ends inside the data and takes at least a byte.
abbrev Inside : List ℕ → ℕ → Structured × ℕ → Type 0
Inside v o (x, c) = (1 ≤ c) × (o + c ≤ length v)

module _ (children : ℕ → ℕ → Result (Structured × ℕ)) (v : List ℕ) (o : ℕ) (inside : o < length v)
    (each : (child n : ℕ)
      → o < child
      → child ≤ o + 1 + n
      → o + 1 + n ≤ length v
      → Settles (Inside v o) (children child n)) where
  decode_byte-Settles : (b : ℕ) → Settles (Inside v o) (decode_byte children v o b)
  unfolding decode_byte
  decode_byte-Settles b =
      Settles-if (leb 0xf8 b)
        (λ p. Settles-bind (Settles-assert (leb (o + 1 + (b - 0xf7)) (length v)) overrun) λ _ h1.
          Settles-bind
            (Settles-assert
              (leb (o + 1 + (b - 0xf7) + unarrayify_integer v (o + 1) (b - 0xf7)) (length v))
              overrun)
            λ _ h2. each _ _ (omega tests) (omega tests) (omega tests))
        λ p1.
          Settles-if (leb 0xc0 b)
            (λ p.
              Settles-bind (Settles-assert (leb (o + 1 + (b - 0xc0)) (length v)) overrun)
                λ _ h1. each _ _ (omega tests) (omega tests) (omega tests))
            λ p2.
              Settles-if (leb 0xb8 b)
                (λ p.
                  Settles-bind (Settles-assert (leb (o + 1 + (b - 0xb7)) (length v)) overrun)
                    λ _ h1.
                      Settles-bind
                        (Settles-assert
                          (leb (o + 1 + (b - 0xb7) + unarrayify_integer v (o + 1) (b - 0xb7))
                            (length v))
                          overrun)
                        λ _ h2. returns (omega tests))
                λ p3.
                  Settles-if (leb 0x80 b)
                    (λ p.
                      Settles-bind (Settles-assert (leb (o + 1 + (b - 0x80)) (length v)) overrun)
                        λ _ h1. returns (omega tests))
                    λ p4. returns (omega arith)

  decode_step-Settles : Settles (Inside v o) (decode_step children v o)
  unfolding decode_step
  decode_step-Settles =
      Settles-if (length v == 0) (λ _. throws overrun)
        (λ _.
          let (b, e) = get_elem?-some v o inside in
          subst (Settles (Inside v o)) (sym (rw e)) (decode_byte-Settles b))

mutual
  unfolding decode

  decode-Settles :
      (f : ℕ) (v : List ℕ) (o : ℕ)
      → o < length v
      → 2 * (length v - o) < f
      → Settles (Inside v o) (decode f v o)
  decode-Settles zero v o inside h = absurd (omega arith)
  decode-Settles (suc f) v o inside h = decode_step-Settles _ v o inside (λ child n lo hi fits.
      Settles-bind (decode_children-Settles f v o child n hi fits (omega arith))
        (λ xs _. returns (omega arith)))

  decode_children-Settles :
      (f : ℕ) (v : List ℕ) (o child n : ℕ)
      → child ≤ o + 1 + n
      → o + 1 + n ≤ length v
      → 2 * (length v - child) + 1 < f
      → Settles (λ _. Unit {0}) (decode_children f v o child n)
  decode_children-Settles zero v o child n hi fits h = absurd (omega arith)
  decode_children-Settles (suc f) v o child n hi fits h =
      Settles-if (ltb child (o + 1 + n))
        (λ more. Settles-bind (decode-Settles f v child (omega tests) (omega tests)) (λ (x, c) p.
          Settles-bind (Settles-assert (leb (child + c) (o + 1 + n)) overrun) (λ _ q.
            Settles-bind
              (decode_children-Settles f v o (child + c) n (omega tests) fits (omega (tests, p)))
              (λ xs _. returns tt))))
        (λ _. returns tt)

decode_whole-Settles : (v : List ℕ) → Settles (Inside v 0) (decode (2 * length v + 1) v 0)
unfolding decode decode_step
decode_whole-Settles [] = throws overrun
decode_whole-Settles (b ∷ v) =
    let fuel : 2 * length (b ∷ v) + 1 ≡ suc (2 * length (b ∷ v)) = omega arith in
    rw fuel (decode-Settles (suc (2 * length (b ∷ v))) (b ∷ v) 0 (omega arith) (omega arith))

get_bytes-Settles : (s : Text) → Settles (λ _. Unit {0}) (get_bytes (text s))
unfolding get_bytes
get_bytes-Settles s = Settles-if (is_data_text s) (λ _. returns tt) (λ _. throws invalid)

-- On every text the decoder ends, and what it throws is a BUFFER_OVERRUN or an INVALID_ARGUMENT.
pub decode_rlp-Settles : (s : Text) → Settles (λ _. Unit {0}) (decode_rlp s)
unfolding decode_rlp
decode_rlp-Settles s = Settles-bind (get_bytes-Settles s) λ v _.
    Settles-bind (decode_whole-Settles v)
      λ (x, c) _. Settles-bind (Settles-assert (c == length v) invalid) λ _ _. returns tt
