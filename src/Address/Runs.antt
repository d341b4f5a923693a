-- ===== src/Address/Runs.antt =====
-- Runs of src.ts/address/index.ts, and its theorems at concrete inputs.
use corebc_js.Utils.Data.{is_pairs, hex_value}
use corebc_js.Common.Radix.{of_digits}
use corebc_js.Address.{
  get_address, calculate_check_sum, iban_checksum, pad_two, to_decimal, upper_case,
}
use corebc_js.Address.Digits.{Closes, iso_value}
use corebc_js.Address.Checksum.{calculate_check_sum-Closes}
use corebc_js.Address.Valid.{IsChecked, get_address-IsChecked}
use corebc_js.Address.Iban.{iban_checksum_lem, iban_digits}
use corebc_js.Common.{◌-◌, ◌%◌, ◌≡◌, refl, ◌++◌, codes, Text, ok, err, invalid_argument}

abbrev body : Text
body = codes "8ba1f109551bd432803012645ac136ddd64dba72"

sample_sum : calculate_check_sum body (codes "cb") ≡ ok (codes "64")
unfolding calculate_check_sum
sample_sum = refl

-- An address in the form of the 20-byte networks is refused.
short_address :
    get_address (codes "0x8ba1f109551bd432803012645ac136ddd64dba72") ≡ err invalid_argument
unfolding get_address
short_address = refl

calculate_check_sum-Closes_example :
    (sum : Text) × (calculate_check_sum body (codes "cb") ≡ ok sum)
    × Closes (iso_value 0 (body ++ codes "cb")) sum
unfolding is_pairs
calculate_check_sum-Closes_example = calculate_check_sum-Closes body (codes "cb") refl refl

sample_address :
    get_address (codes "cb648ba1f109551bd432803012645ac136ddd64dba72")
    ≡ ok (codes "0xcb648ba1f109551bd432803012645ac136ddd64dba72")
unfolding get_address
sample_address = refl

get_address-IsChecked_example : IsChecked (codes "0xcb648ba1f109551bd432803012645ac136ddd64dba72")
get_address-IsChecked_example =
    get_address-IsChecked (codes "cb648ba1f109551bd432803012645ac136ddd64dba72") sample_address

iban_checksum_lem_example :
    iban_checksum (codes "XE00AB12")
    ≡ ok (
        pad_two (
          to_decimal
            (98 - of_digits 10 hex_value 0 (iban_digits (upper_case (codes "XE00AB12"))) % 97)))
iban_checksum_lem_example = iban_checksum_lem (codes "XE00AB12")
