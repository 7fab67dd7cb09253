-- ===== src/Server.antt =====
-- packages/server/src: the server.
pub mod Capacity
pub mod Credentials
pub mod History
pub mod Journal
pub mod Persistence
pub mod Recent
pub mod Rules
