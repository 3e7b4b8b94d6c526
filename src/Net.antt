-- ===== src/Net.antt =====
-- The network library (src/net).
pub mod Io
pub mod Uri
pub mod Ssh
pub mod Packet
pub mod WebSocket
pub mod Digest
