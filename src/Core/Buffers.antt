-- ===== src/Core/Buffers.antt =====
-- packages/core/src/buffers: the bounded buffers of events and of logs. `now` is the reading of
-- `Date.now()`. A limit that is no integer bounds the length as the next integer does, so a limit is
-- a number here.
pub mod EventBuffer
pub mod LogBuffer
