-- ===== src/Core.antt =====
-- packages/core/src: the in-process engine.
pub mod Buffers
pub mod Frame
pub mod Delivery
pub mod Metrics
pub mod Experiments
pub mod Internal
