-- ===== src/Providers.antt =====
-- src.ts/providers: the signer that counts nonces, and the votes of the fallback provider.
pub mod Nonce
pub mod Quorum
