-- ===== src/Core/Metrics.antt =====
-- packages/core/src/metrics.
pub mod HyperLogLog
pub mod Dimensions
pub mod Histogram
pub mod Series
pub mod Sweep
pub mod Registry
