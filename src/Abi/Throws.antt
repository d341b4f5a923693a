-- ===== src/Abi/Throws.antt =====
-- The errors that `AbiCoder.decode` throws, next to those that src.ts/abi/coders/array.ts defers.
use corebc_js.Utils.Data.Hex.{IsBytes}
use corebc_js.Abi.Reader.{Reader, M}
use corebc_js.Common.{
  Result, ok, err, stuck, ◌≡◌, Bool, true, Error, buffer_overrun, invalid_argument, plain_error,
}

-- Data that is too short; an offset that is no safe integer, where a type is dynamic; null.
pub data Thrown (far : Bool) : Error → Type 0 where
  too_short : Thrown far buffer_overrun
  unsafe_offset : far ≡ true → Thrown far invalid_argument
  null_value : Thrown far plain_error

-- The errors of a method that reads bytes.
record Throws {A : Type 0} (far : Bool) (m : M A) : Type 0 where
  throws : (r : Reader) → IsBytes r.contents → (e : Error) → (m r).0 ≡ err e → Thrown far e

error_code : {A : Type 0} → Error → Result A → Error
error_code e (ok a) = e
error_code e (err c) = c
error_code e stuck = e
