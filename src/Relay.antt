-- ===== src/Relay.antt =====
-- internal/relay/relay.go: the relay server, its hub of connected peers and their sessions.
pub mod Peer
pub mod Hub
pub mod Auth
pub mod Session
pub mod Server
pub mod Slots
pub mod Schedule
pub mod Http
pub mod Connections
mod Examples
