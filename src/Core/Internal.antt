-- ===== src/Core/Internal.antt =====
-- packages/core/src/internal/InternalMetrics.js, and `build` and `mergeInternal` of
-- packages/core/src/frame/FrameBuilder.js, which put these metrics into a frame. `now` is the reading
-- of the clock. `counter_row` and `gauge_row` make the rows, which have no dimensions.
pub mod Activity
mod Tests
use wardx.Prelude.{
  ltb, if◌then◌else◌, ℕ, String, Bool, ◌||◌, Option, none, some, List, [], ◌∷◌, ◌++◌,
}
use wardx.Core.Frame.{Frame, Metrics}

pub record InternalMetrics : Type 0 where
  pub events_dropped : ℕ
  pub logs_dropped : ℕ
  pub cardinality_dropped : ℕ
  pub frames_sent : ℕ
  pub frames_failed : ℕ
  pub bytes_uncompressed : ℕ
  pub bytes_compressed : ℕ
  pub events_buffered : ℕ
  pub logs_buffered : ℕ
  pub last_sync_ms : ℕ
  pub config_version : ℕ
  pub process_rss_bytes : ℕ

pub create : InternalMetrics
create = record {
  events_dropped = 0;
  logs_dropped = 0;
  cardinality_dropped = 0;
  frames_sent = 0;
  frames_failed = 0;
  bytes_uncompressed = 0;
  bytes_compressed = 0;
  events_buffered = 0;
  logs_buffered = 0;
  last_sync_ms = 0;
  config_version = 0;
  process_rss_bytes = 0;
}

-- `value !== 0`
abbrev pub is_set : ℕ → Bool
is_set value = ltb 0 value

pub has_counter_activity : InternalMetrics → Bool
has_counter_activity m =
    is_set m.events_dropped
    || (is_set m.logs_dropped
        || (is_set m.cardinality_dropped
            || (is_set m.frames_sent
                || (is_set m.frames_failed
                    || (is_set m.bytes_uncompressed || is_set m.bytes_compressed)))))

pub snapshot_and_reset : InternalMetrics → InternalMetrics × InternalMetrics
snapshot_and_reset m = (
  m,
  record m {
    events_dropped = 0;
    logs_dropped = 0;
    cardinality_dropped = 0;
    frames_sent = 0;
    frames_failed = 0;
    bytes_uncompressed = 0;
    bytes_compressed = 0;
  },
)

module _ {Row : Type 0} (counter_row : String → ℕ → Row) (gauge_row : String → ℕ → ℕ → Row)
    (now : ℕ) where
  pub counter_if : String → ℕ → List Row → List Row
  counter_if name value rows = if is_set value then counter_row name value ∷ rows else rows

  -- The counters that `mergeInternal` pushes.
  pub internal_counters : InternalMetrics → List Row
  internal_counters m = counter_if "wardx.internal.events_dropped" m.events_dropped (
      counter_if "wardx.internal.logs_dropped" m.logs_dropped (
        counter_if "wardx.internal.cardinality_dropped" m.cardinality_dropped (
          counter_if "wardx.internal.frames_sent" m.frames_sent (
            counter_if "wardx.internal.frames_failed" m.frames_failed (
              counter_if "wardx.internal.bytes_uncompressed" m.bytes_uncompressed
                (counter_if "wardx.internal.bytes_compressed" m.bytes_compressed []))))))

  abbrev gauge_if : String → ℕ → List Row → List Row
  gauge_if name value rows = if is_set value then gauge_row name value now ∷ rows else rows

  -- The gauges that it pushes.
  pub internal_gauges : InternalMetrics → List Row
  internal_gauges m =
      gauge_row "wardx.internal.events_buffered" m.events_buffered now
      ∷ (gauge_row "wardx.internal.logs_buffered" m.logs_buffered now
          ∷ (gauge_if "wardx.internal.last_sync_ms" m.last_sync_ms (
              gauge_row "wardx.internal.config_version" m.config_version now
              ∷ (gauge_if "wardx.internal.process_rss_bytes" m.process_rss_bytes []))))

  -- `metrics.distincts?.length > 0 ? { distincts: … } : {}`
  abbrev pub present_rows : Option (List Row) → Option (List Row)
  present_rows none = none
  present_rows (some []) = none
  present_rows (some (r ∷ rows)) = some (r ∷ rows)

  pub build : ℕ → ℕ → ℕ → Metrics Row → List Row → List Row → InternalMetrics → Frame Row
  build seq from to metrics events logs internal = record {
    seq = seq;
    from = from;
    to = to;
    metrics = record {
      counters = metrics.counters ++ internal_counters internal;
      gauges = metrics.gauges ++ internal_gauges internal;
      histograms = metrics.histograms;
      distincts = present_rows metrics.distincts;
    };
    events = events;
    logs = logs;
  }
