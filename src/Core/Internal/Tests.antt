-- ===== src/Core/Internal/Tests.antt =====
-- Internal metrics with one counter and one optional gauge.
use wardx.Prelude.{ltb, length, ℕ, String, ◌≡◌, refl, some, [], ◌∷◌}
use wardx.Core.Frame.{Metrics}
use wardx.Core.Internal.{
  InternalMetrics, has_counter_activity, snapshot_and_reset, internal_counters, internal_gauges,
  counter_if,
}
use wardx.Core.Internal.Activity.{has_counter_activity-counters}

abbrev counter_row : String → ℕ → String × ℕ
counter_row name value = (name, value)

abbrev gauge_row : String → ℕ → ℕ → String × ℕ
gauge_row name value now = (name, value)

abbrev busy : InternalMetrics
busy = record {
  events_dropped = 0;
  logs_dropped = 2;
  cardinality_dropped = 0;
  frames_sent = 0;
  frames_failed = 0;
  bytes_uncompressed = 0;
  bytes_compressed = 0;
  events_buffered = 1;
  logs_buffered = 0;
  last_sync_ms = 40;
  config_version = 3;
  process_rss_bytes = 0;
}

abbrev metrics : Metrics (String × ℕ)
metrics = record { counters = ("hits", 1) ∷ []; gauges = []; histograms = []; distincts = some [] }

busy_counters :
    internal_counters counter_row gauge_row 9 busy ≡ ("wardx.internal.logs_dropped", 2) ∷ []
unfolding internal_counters counter_if
busy_counters = refl

has_counter_activity-counters_example :
    (ltb 0 (length (internal_counters counter_row gauge_row 9 busy)) ≡ has_counter_activity busy)
    × ((snapshot_and_reset busy).0 ≡ busy)
    × (internal_counters counter_row gauge_row 9 (snapshot_and_reset busy).1 ≡ [])
    × (internal_gauges counter_row gauge_row 9 (snapshot_and_reset busy).1
        ≡ internal_gauges counter_row gauge_row 9 busy)
has_counter_activity-counters_example = has_counter_activity-counters counter_row gauge_row 9 busy
