-- ===== src/Utils/Fixed.antt =====
-- src.ts/utils/fixednumber.ts: fixed-point numbers.
pub mod Formats
pub mod Values
pub mod Number
pub mod Convert
pub mod Bounds
pub mod Wraps
pub mod Tens
pub mod Arithmetic
pub mod Compare
pub mod Rounds
pub mod Literals
pub mod Trims
pub mod Decimals
pub mod Padding
pub mod RoundTrip
mod Runs
