-- ===== src/Preparams.antt =====
-- internal/preparams: the pre-parameters of a key generation and who may use them.
pub mod Handle
pub mod Config
pub mod Pool
mod Tests
