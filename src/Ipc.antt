-- ===== src/Ipc.antt =====
-- ipc/: sessions and the framed protocol on the Unix domain socket.
pub mod Server
pub mod Protocol
pub mod Poller
pub mod Json
pub mod Session
pub mod Request
pub mod Manager
