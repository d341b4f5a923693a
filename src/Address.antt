-- ===== src/Address.antt =====
-- src.ts/address/index.ts: checksums of addresses, and the two forms of an address.
-- `BigInt` of a text of digits is the number that they spell.
pub mod Digits
pub mod Checksum
pub mod Valid
pub mod Iban
mod Runs
use corebc_js.Common.Radix.{digits, of_digits}
use corebc_js.Utils.Data.{text, get_bytes, hexlify_bytes, is_hex_digit, starts_0x, hex_value}
use corebc_js.Common.Integers.{ℤ, pos, negsuc}
use corebc_js.Common.{
  ℕ, zero, suc, ◌+◌, ◌-◌, ◌%◌, arith, Bool, true, false, ◌&&◌, ◌||◌, [], ◌∷◌, ◌++◌, codes, Text,
  ltb, leb, ◌==◌, if◌then◌else◌, length, take, drop, replicate, all, slice, Result, ◌>>=◌, ◌>>◌,
  assert, ok, err, stuck, invalid_argument,
}

unfoldable pub text_eq : Text → Text → Bool
text_eq [] [] = true
text_eq (c ∷ s) (d ∷ t) = c == d && text_eq s t
text_eq _ _ = false

-- The texts of 64 digits 0 to 9 behind zeros.
unfoldable pub precompiled_address : ℕ → Text
precompiled_address d = replicate 63 b'0' ++ (b'0' + d) ∷ []

-- `precompiledAddresses.includes(raw)`, of the first n of the list.
unfoldable pub is_precompiled : ℕ → Text → Bool
unfolding text_eq precompiled_address
is_precompiled zero raw = false
is_precompiled (suc n) raw = text_eq (precompiled_address n) raw || is_precompiled n raw

unfoldable pub remove_hex_prefix : Text → Text
unfolding starts_0x
remove_hex_prefix s = if starts_0x s then drop 2 s else s

-- `s.replace("0x", "")`: the first occurrence goes.
unfoldable pub replace_0x : Text → Text
replace_0x (z ∷ x ∷ s) =
    let rest = replace_0x (x ∷ s) in if z == b'0' && x == b'x' then s else z ∷ rest
replace_0x s = s

abbrev pub to_upper : ℕ → ℕ
to_upper c = if leb b'a' c && leb c b'z' then c - 32 else c

-- `toUpperCase` of an ASCII text. It maps a few letters outside ASCII into it, which are left alone here.
abbrev pub upper_case : Text → Text
upper_case [] = []
upper_case (c ∷ s) = to_upper c ∷ upper_case s

unfoldable pub decimal_char : ℕ → ℕ
decimal_char d = b'0' + d

-- `n.toString()`
unfoldable pub to_decimal : ℕ → Text
unfolding digits decimal_char
to_decimal n = if n == 0 then codes "0" else digits 10 (omega arith) decimal_char n []

-- The characters of `mods`; the text has only digits and the letters A to F.
unfoldable pub mod_digits : Text → Text
unfolding to_decimal
mod_digits [] = []
mod_digits (c ∷ s) = to_decimal (if ltb 64 c && ltb c 91 then c - 55 else c - 48) ++ mod_digits s

-- `checkSum > 9 ? checkSum.toString() : "0" + checkSum.toString()` of `98 - n % 97`
unfoldable pub check_digits : ℕ → Text
unfolding to_decimal
check_digits n =
    if ltb 9 (98 - n % 97) then to_decimal (98 - n % 97) else b'0' ∷ to_decimal (98 - n % 97)

-- `bigVal` of `hexedConcat`.
abbrev pub checksum_value : Text → ℕ
checksum_value hexed = of_digits 10 hex_value 0 (mod_digits (upper_case hexed))

unfoldable pub calculate_check_sum : Text → Text → Result Text
unfolding replace_0x check_digits mod_digits get_bytes hexlify_bytes
calculate_check_sum address prefix = do
  v ← get_bytes (text (b'0' ∷ b'x' ∷ replace_0x address))
  w ← get_bytes (text (b'0' ∷ b'x' ∷ replace_0x prefix))
  ok (check_digits (checksum_value (replace_0x (hexlify_bytes (v ++ w)) ++ codes "00")))

-- `/^(0x)?[0-9a-fA-F]{44}$/`
unfoldable pub is_address_text : Text → Bool
unfolding starts_0x
is_address_text s =
    (all is_hex_digit s && length s == 44)
    || (starts_0x s && all is_hex_digit (drop 2 s) && length (drop 2 s) == 44)

unfoldable pub check_raw : Text → Result Text
unfolding calculate_check_sum text_eq
check_raw raw = do
  sum ← calculate_check_sum (drop 4 raw) (slice 0 2 raw)
  assert (text_eq sum (slice 2 4 raw)) invalid_argument
  ok (b'0' ∷ b'x' ∷ (slice 0 2 raw ++ sum ++ drop 4 raw))

unfoldable pub get_address : Text → Result Text
unfolding is_address_text remove_hex_prefix is_precompiled check_raw
get_address s = do
  assert (is_address_text s) invalid_argument
  let raw = remove_hex_prefix s
  let checked = check_raw raw
  if is_precompiled 10 raw then ok (b'0' ∷ b'x' ∷ raw) else checked

-- `String(i)` of a digit, and 10 to 35 for a letter; any other character joins as nothing.
unfoldable pub iban_lookup : ℕ → Text
unfolding to_decimal
iban_lookup c =
    if leb b'0' c && leb c b'9'
    then c ∷ []
    else if leb b'A' c && leb c b'Z'
    then to_decimal (c - 55)
    else []

unfoldable pub expand_iban : Text → Text
unfolding iban_lookup
expand_iban [] = []
expand_iban (c ∷ s) = iban_lookup c ++ expand_iban s

abbrev pub safe_digits : ℕ
safe_digits = 15

-- `while (expanded.length >= safeDigits)`; each round leaves the text shorter.
unfoldable pub iban_loop : ℕ → Text → Result Text
unfolding to_decimal
iban_loop zero s = stuck
iban_loop (suc f) s =
    let rest =
      iban_loop f
        (to_decimal (of_digits 10 hex_value 0 (take safe_digits s) % 97) ++ drop safe_digits s) in
    if leb safe_digits (length s) then rest else ok s

-- `while (checksum.length < 2) checksum = "0" + checksum`
abbrev pub pad_two : Text → Text
pad_two s = replicate (2 - length s) b'0' ++ s

unfoldable pub iban_checksum : Text → Result Text
unfolding expand_iban iban_loop
iban_checksum address = do
  let s = upper_case address
  let expanded = expand_iban (drop 4 s ++ slice 0 2 s ++ codes "00")
  rest ← iban_loop (length expanded + 1) expanded
  ok (pad_two (to_decimal (98 - of_digits 10 hex_value 0 rest % 97)))

-- The digits of `toString(36)`, in upper case.
unfoldable pub char_36 : ℕ → ℕ
char_36 d = if ltb d 10 then b'0' + d else 55 + d

unfoldable pub to_base36 : ℕ → Text
unfolding digits char_36
to_base36 n = if n == 0 then codes "0" else digits 36 (omega arith) char_36 n []

unfoldable pub get_icap_address : Text → Result Text
unfolding get_address to_base36 iban_checksum
get_icap_address address = do
  a ← get_address address
  let base36 = to_base36 (of_digits 16 hex_value 0 (drop 2 a))
  let padded = replicate (30 - length base36) b'0' ++ base36
  sum ← iban_checksum (codes "XE00" ++ padded)
  ok (codes "XE" ++ sum ++ padded)

-- `networkIdToPrefix` of an integer.
unfoldable pub network_id_to_prefix : ℤ → Result Text
network_id_to_prefix (pos n) =
    if n == 1
    then ok (codes "cb")
    else if n == 3 || n == 4
    then ok (codes "ab")
    else if ltb 10 n || n == 0
    then ok (codes "ce")
    else err invalid_argument
network_id_to_prefix (negsuc n) = err invalid_argument

-- `isAddress` of a text.
unfoldable pub is_address : Text → Bool
unfolding get_address
is_address s = elim (get_address s) [ ok a ↦ true | err e ↦ false | stuck ↦ false ]
