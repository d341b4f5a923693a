-- ===== src/Abi/Writer.antt =====
-- The class Writer and `getValue` of src.ts/abi/coders/abstract-coder.ts. `concat` of byte arrays and
-- `getBytesCopy` of its text is the array of all their bytes.
use corebc_js.Utils.Maths.{BigNumberish, to_be_array}
use corebc_js.Abi.{word_size}
use corebc_js.Common.{
  ℕ, zero, suc, ◌+◌, ◌-◌, ◌%◌, List, [], ◌∷◌, ◌++◌, leb, ◌==◌, if◌then◌else◌, length, replicate,
  Result, ◌>>=◌, ◌>>◌, assert, ok, buffer_overrun,
}

pub record Writer : Type 0 where
  pub chunks : List (List ℕ)
  pub data_length : ℕ

abbrev pub new_writer : Writer
new_writer = record { chunks = []; data_length = 0 }

-- `get data()`
abbrev pub joined : List (List ℕ) → List ℕ
joined [] = []
joined (b ∷ bs) = b ++ joined bs

-- `getValue`
unfoldable pub get_value : BigNumberish → Result (List ℕ)
unfolding to_be_array
get_value n = do
  v ← to_be_array n
  assert (leb (length v) word_size) buffer_overrun
  ok (if length v == word_size then v else replicate (word_size - length v % word_size) 0 ++ v)

abbrev pub write_data : List ℕ → Writer → Writer
write_data v w = record { chunks = w.chunks ++ v ∷ []; data_length = w.data_length + length v }

abbrev pub append_writer : Writer → Writer → Writer
append_writer other w = write_data (joined other.chunks) w

-- Padding on the right to whole words.
abbrev pub pad_right : List ℕ → List ℕ
pad_right v =
    if length v % word_size == 0 then v else v ++ replicate (word_size - length v % word_size) 0

abbrev pub write_bytes : List ℕ → Writer → Writer
write_bytes v w = write_data (pad_right v) w

unfoldable pub write_value : BigNumberish → Writer → Result Writer
unfolding get_value
write_value n w = do v ← get_value n; ok (write_data v w)

-- `writeUpdatableValue`: the place of the value is the number of chunks before it.
abbrev pub write_updatable : Writer → Writer
write_updatable w = record {
  chunks = w.chunks ++ replicate word_size 0 ∷ [];
  data_length = w.data_length + word_size;
}

abbrev pub set_chunk : List (List ℕ) → ℕ → List ℕ → List (List ℕ)
set_chunk [] i v = []
set_chunk (b ∷ bs) zero v = v ∷ bs
set_chunk (b ∷ bs) (suc i) v = b ∷ set_chunk bs i v

-- The callback of `writeUpdatableValue`.
unfoldable pub update_value : ℕ → BigNumberish → Writer → Result Writer
unfolding get_value
update_value place n w = do
  v ← get_value n
  ok (record { chunks = set_chunk w.chunks place v; data_length = w.data_length })
