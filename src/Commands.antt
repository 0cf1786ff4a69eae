-- ===== src/Commands.antt =====
-- The programs of cmd: wsnctl, and the start of wsn-client and of wsn-server.
pub mod Lists
pub mod Wsnctl
pub mod Client
pub mod Server
mod Examples
