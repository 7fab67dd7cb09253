-- ===== src/Lib.antt =====
-- Wardx: a model of the JavaScript engine and server, with the theorems that make them correct.
--
-- Parts. Core is packages/core/src, the in-process engine that buffers events, logs and metrics,
-- cuts them into frames and hands these to a transport. Server is packages/server/src, which takes the
-- frames in and keeps the configuration that the engines fetch.
--   Core/Buffers models packages/core/src/buffers: EventBuffer and LogBuffer are the classes of the
--   same names, their methods functions from a buffer to a result and the next buffer.
--   Core/Frame models packages/core/src/frame/FrameBuilder.js. Core/Frame/Split has the closures of
--   the generator _splitToMaxBytesSteps as functions over its variables: finish_current is
--   finishCurrent, try_add_row is tryAddRow, add_row is addRow. Its proofs stand in its children.
--   Core/Delivery models the part of packages/core/src/WardxCore.js that keeps the frames until they
--   are sent: accept_frame_batch is _acceptFrameBatch, take_pending_batch is _takePendingBatch,
--   envelope_end is _envelopeEnd. A Frame of Core/Frame is what it keeps.
--   Core/Metrics models packages/core/src/metrics: Dimensions is dimensions.js; Histogram has the
--   classes of Histogram.js, Counter.js and Gauge.js; HyperLogLog is HyperLogLog.js; Series is _series
--   of MetricsRegistry.js, for any kind of series, Sweep are its loops over all series, and Registry is
--   the class with its four kinds. A series that a caller holds is known by its name and key.
--   Core/Experiments models packages/core/src/config/ExperimentResolver.js and fnv1a32 of hash.js.
--   Core/Internal models packages/core/src/internal/InternalMetrics.js and how FrameBuilder.build puts
--   these metrics into a frame of Core/Frame.
--   Server/Capacity models packages/server/src/capacity/ConcurrencyGate.js. The closure that a gate
--   hands out is a place in the list of leases. Step and Reach are the calls on one gate in any order.
--   Server/Credentials models packages/server/src/auth/CredentialRegistry.js: validate_record is
--   validateRecord, and create, authenticate, authorize and resolve are the methods.
--   Server/History models packages/server/src/aggregation/HyperLogLog.js (Sketch) and the files
--   HistoryBucket.js and HistoricalCompactor.js of packages/server/src/aggregation/history. Rows has the
--   checks of a row's fields, Series normalizeHistoricalRow, historicalSeriesKey and mergeRow, Bytes
--   mergedRowBytes and rowBytes of HistoryAccumulator.js, Buckets normalizeHistoryBucket and
--   mergeHistoryBuckets, which use Series, and Compactor the method compact, which uses Buckets.
--   HistoryAccumulator.js stands in Input (historyRows), Minutes (emptyState, stateFromBucket and the
--   loop of prepare over rows), Accumulator (the class), Accumulator/Pending and Accumulator/Seed; its
--   Step and Reach are the calls on one accumulator in any order.
--   Server/Journal models packages/server/src/control/MutationJournal.js: Server/Journal.antt has the
--   records and the checks, Server/Journal/Calls has commit, rollback and list. Server/Journal/Repository
--   is packages/server/src/storage/SqliteMutationRepository.js, the class that the journal reads from and
--   writes to, with commitProjectMutation of SqliteStateStore.js beside it.
--   Server/Persistence models mark, flush and _drain of
--   packages/server/src/control/PersistenceCoordinator.js. Each await ends a step: take_batch is the head
--   of the loop of _drain, wrote and failed are the two ends of a write, and Step and Reach are the calls
--   and ends in any order. Persistence/Schedule models _scheduleCompaction and _scanCompaction of the same
--   file, which call compact of Server/History/Compactor.
--   Server/Recent/Events models packages/server/src/events/RecentEvents.js, a ring of the last events;
--   the array with unused places is a list of options. Server/Recent/Logs models
--   packages/server/src/logs/RecentLogs.js and Server/Recent/Clients
--   packages/server/src/clients/RecentClients.js.
--   Server/Rules models packages/server/src/config/rules.js, validateConfigRules and
--   resolveConfigRules.
--   Prelude has the library names that all parts use, lists, results, JSON values, the entries of a
--   Map, and the numbers of JavaScript as a record of operations.
--
-- Conventions. A call that throws returns an err with the message, or a failed outcome in the journal,
-- whose conflict is MutationConflictError. A type that the code checks with typeof is the type of the
-- argument here, so that the check itself has no counterpart; a number that the code wants to be an
-- integer >= 0 is a natural number, which has no upper limit: the sums of counts are those of
-- JavaScript up to 2 ^ 53. A reading of the clock and a fresh id are arguments. JSON values
-- are copied without a change, so cloneJson is left out. No definition takes fuel: every loop runs
-- over a list.
--
-- Parameters, for code that is not in the repository. JSON.stringify in the splitter is a function to
-- texts with a measure of bytes; Library has trim, toLowerCase and the text of a number; the function
-- applyChange is the argument apply_change of the journal; `fault` is the error that SQLite throws within
-- a transaction, which it then rolls back. === on attributes and the sort of an array are the
-- arguments same and sort_by_ts of query. Js has the numbers of the language, which are floats, with
-- the operations that the metrics and experiments use, and no law but where a theorem names one. Base64
-- are the two directions of a Buffer. The digests of xxhash-wasm, and the fingerprint of an experiment,
-- which is such a digest of its JSON text, are arguments. Buffer is base64 on the server, localeCompare
-- is the argument locale_before, and the store of a compaction a record of its two calls.
--
-- Not modelled, for want of room or since it only passes calls on: the tracer and its messages,
-- promises other than the order in which they are resolved, sockets, files, SQL and the command line;
-- the engine's estimate of a sketch, timers, ingest and its checks of the input (validate.js),
-- FrameAggregator, what a write of the PersistenceCoordinator does, the control service,
-- ConfigRepository, the shapes that a state has in the database, and the rest of storage; the clients
-- in C# and Swift.
pub mod Prelude
pub mod Core
pub mod Server
