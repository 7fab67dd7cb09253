-- ===== src/Server/History.antt =====
-- packages/server/src/aggregation/history and packages/server/src/aggregation/HyperLogLog.js: the
-- buckets of a minute, an hour or a day that are kept of what clients sent.
pub mod Sketch
pub mod Rows
pub mod Series
pub mod Bytes
pub mod Buckets
pub mod Compactor
pub mod Input
pub mod Minutes
pub mod Accumulator
mod Sample
