-- ===== src/Client.antt =====
-- internal/client/client.go: the client's handshake, its reconnection delays and its two pumps.
mod Examples
pub mod Auth
pub mod Mac
pub mod Backoff
pub mod Tunnel
pub mod Session
