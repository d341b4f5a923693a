-- ===== src/Abi.antt =====
-- src.ts/abi/coders: the coders of the contract ABI. A coder object is its type; names, which only
-- reach messages, are left out, and so are the wrappers of Typed and objects as tuples.
pub mod Writer
pub mod Reader
pub mod Encode
pub mod Decode
pub mod Layout
pub mod Words
pub mod Scalars
pub mod Addresses
pub mod Blobs
pub mod Written
pub mod Contents
pub mod Heads
pub mod Places
pub mod Packed
pub mod PackSteps
pub mod RoundTrip
pub mod Refines
pub mod Bounds
pub mod Guards
pub mod Gives
pub mod Ends
pub mod Untrusted
pub mod Wholes
pub mod Defaults
pub mod Interface
pub mod Calls
pub mod Standard
pub mod Octets
pub mod Parts
pub mod Conforms
pub mod Throws
pub mod Peeks
pub mod Sources
mod Runs
use corebc_js.Common.Integers.{ℤ}
use corebc_js.Common.{ℕ, zero, suc, Bool, true, false, ◌||◌, Option, none, some, List, Text, Error}

-- `number` has its size in bytes and `signed`; `array` its length, and `none` for the length -1.
mutual
  pub data Coder : Type 0 where
    number : ℕ → Bool → Coder
    address boolean : Coder
    fixed_bytes : ℕ → Coder
    bytes string null : Coder
    array : Coder → Option ℕ → Coder
    tuple : Coders → Coder

  pub data Coders : Type 0 where
    no_coders : Coders
    coder : Coder → Coders → Coders

-- A JavaScript value: a bigint, a boolean, a Uint8Array, a string, an array, null, or an Error that
-- stands in a Result in place of the item that could not be decoded.
mutual
  pub data Value : Type 0 where
    int : ℤ → Value
    flag : Bool → Value
    octets : List ℕ → Value
    chars : Text → Value
    list : Values → Value
    nothing : Value
    deferred : Error → Value

  pub data Values : Type 0 where
    no_values : Values
    value : Value → Values → Values

abbrev pub count : Values → ℕ
count no_values = 0
count (value v vs) = suc (count vs)

abbrev pub count_coders : Coders → ℕ
count_coders no_coders = 0
count_coders (coder c cs) = suc (count_coders cs)

-- `Coder.dynamic`
unfoldable mutual
  pub is_dynamic : Coder → Bool
  is_dynamic (number size signed) = false
  is_dynamic address = false
  is_dynamic boolean = false
  is_dynamic (fixed_bytes size) = false
  is_dynamic bytes = true
  is_dynamic string = true
  is_dynamic null = false
  is_dynamic (array c none) = true
  is_dynamic (array c (some n)) = is_dynamic c
  is_dynamic (tuple cs) = any_dynamic cs

  pub any_dynamic : Coders → Bool
  any_dynamic no_coders = false
  any_dynamic (coder c cs) = is_dynamic c || any_dynamic cs

-- `coders.push(this.coder)`, n times.
abbrev pub repeat_coder : ℕ → Coder → Coders
repeat_coder zero c = no_coders
repeat_coder (suc n) c = coder c (repeat_coder n c)

abbrev pub word_size : ℕ
word_size = 32
