-- ===== src/Server/Recent.antt =====
-- packages/server/src/events, logs and clients: what the server keeps of the last events, logs and
-- clients.
pub mod Events
pub mod Shift
pub mod Logs
pub mod Clients
