-- ===== src/Cli.antt =====
-- cli/main.cpp: the client.
pub mod Options
pub mod Events
pub mod Client
mod Tests
