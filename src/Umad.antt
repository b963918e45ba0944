-- ===== src/Umad.antt =====
-- umad/: the daemon's event loop.
pub mod Loop
pub mod Session
pub mod Process
mod Tests
