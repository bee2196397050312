-- ===== src/Game.antt =====
-- game/: the handshake, the KCP connection, the packet queue and its handlers, and the server.
pub mod Handshake
pub mod Ikcp
pub mod Kcp
pub mod Messages
pub mod Handlers
pub mod Queue
pub mod Server
