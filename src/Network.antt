-- ===== src/Network.antt =====
-- src/core/network: the server's acceptor and its sessions with clients.
pub mod Sample
pub mod Acceptor
pub mod Session
pub mod Exchange
pub mod Service
mod Tests
