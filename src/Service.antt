-- ===== src/Service.antt =====
-- internal/tss/service: the table of running key generations (service.go), the checks before a
-- derived signature (sign.go), the sessions
-- of key generation and of signing, and the numbers that a service reports.
pub mod Runs
pub mod Errors
pub mod Sign
pub mod Dkg
pub mod Signing
pub mod Snapshot
pub mod Wallet
mod Tests
