-- ===== src/Crypto.antt =====
-- src.ts/crypto: the parts that need no primitive of another library.
pub mod Rlp
pub mod Signature
