-- ===== src/Server/Capacity.antt =====
-- packages/server/src/capacity/ConcurrencyGate.js: two gates that bound what runs at once.
mod Leases
pub mod Gate
pub mod QueuedGate
