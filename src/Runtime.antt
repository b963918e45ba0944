-- ===== src/Runtime.antt =====
-- runtime/: the configuration and the tokenization helpers.
pub mod Config
pub mod Tokens
pub mod Model
mod Tests
