-- ===== src/Derivation.antt =====
-- internal/tss/derivation: derivation paths, contexts and their hash.
pub mod Errors
pub mod Path
pub mod PublicKey
pub mod Context
pub mod Hash
pub mod Ecdsa
mod Tests
