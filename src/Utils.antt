-- ===== src/Utils.antt =====
-- src.ts/utils: data, numbers and encodings.
pub mod Data
pub mod Rlp
pub mod Maths
pub mod Base58
pub mod Utf8
pub mod Fixed
pub mod Units
