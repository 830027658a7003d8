-- ===== src/Execution.antt =====
-- internal/tssbnb/execution: one run of a threshold protocol.
pub mod Errors
pub mod Deduper
pub mod State
pub mod Inbound
pub mod Run
pub mod Watchdog
pub mod Outbound
pub mod Receive
mod Tests
