-- ===== src/Common/Outcome.antt =====
-- What a call of the library comes to: a value, a thrown error, or no end.
use mathlib.Core.Path.{◌≡◌, refl, ap}
use mathlib.Core.Bool.{Bool, true, false}

-- The error codes that the modelled code throws; `type_error` is JavaScript's own TypeError, and
-- `plain_error` an Error without a code.
pub data Error : Type 0 where
  invalid_argument buffer_overrun numeric_fault unsupported_operation missing_argument
        unexpected_argument bad_data type_error plain_error :
      Error

-- `stuck` is no value of the program: a loop that does not end, or a loop of the model that
-- ran out of fuel.
pub data Result {ℓ} (A : Type ℓ) : Type ℓ where
  ok : A → Result A
  err : Error → Result A
  stuck : Result A

infixl 5 ◌>>=◌ ◌>>◌
abbrev pub ◌>>=◌ {ℓ κ} : {A : Type ℓ} {B : Type κ} → Result A → (A → Result B) → Result B
stuck >>= next = stuck
err code >>= next = err code
ok value >>= next = next value

abbrev pub ◌>>◌ {κ} : {A : Type κ} → Result (Unit {0}) → Result A → Result A
check >> rest = check >>= λ done. rest

-- `assert(test, ..., code)`: the call goes on if the test holds.
abbrev pub assert : Bool → Error → Result (Unit {0})
assert test code = elim test [ true ↦ ok tt | false ↦ err code ]

-- Inversion of a chain that returned a value.
pub >>=-eq-ok {ℓ κ} :
    {A : Type ℓ} {B : Type κ} (call : Result A) (next : A → Result B) {result : B}
    → (call >>= next) ≡ ok result
    → (value : A) × (call ≡ ok value) × (next value ≡ ok result)
>>=-eq-ok stuck next h = cc
>>=-eq-ok (err code) next h = cc
>>=-eq-ok (ok value) next h = (value, refl, h)

-- The value of a call, and another value for a call that has none.
abbrev pub value_or {ℓ} : {A : Type ℓ} → A → Result A → A
value_or d (ok a) = a
value_or d (err e) = d
value_or d stuck = d

pub ok-injective {ℓ} : {A : Type ℓ} {a b : A} → ok a ≡ ok b → a ≡ b
ok-injective {a = a} h = ap (value_or a) h
