-- ===== src/Core/Internal/Activity.antt =====
-- The internal counters are reported when there are any, and once.
use wardx.Prelude.{
  ltb, length, length-append, ℕ, ◌+◌, String, ◌≡◌, refl, Bool, ◌||◌, Option, none, some, List, [],
  ◌∷◌, arith,
}
use wardx.Core.Frame.{Metrics, row_count, or_empty}
use wardx.Core.Internal.{
  InternalMetrics, has_counter_activity, snapshot_and_reset, internal_counters, internal_gauges,
  present_rows, build, counter_if, is_set,
}

module _ {Row : Type 0} (counter_row : String → ℕ → Row) (gauge_row : String → ℕ → ℕ → Row)
    (now : ℕ) where
  counter_if-next :
      (name : String) (value : ℕ) (rows : List Row) (b : Bool)
      → ltb 0 (length rows) ≡ b
      → ltb 0 (length (counter_if counter_row gauge_row now name value rows)) ≡ (is_set value || b)
  unfolding counter_if
  counter_if-next name value rows b h = ground arith

  counter_if-last :
      (name : String) (value : ℕ)
      → ltb 0 (length (counter_if counter_row gauge_row now name value [])) ≡ is_set value
  unfolding counter_if
  counter_if-last name value = ground arith

  counters_if :
      (m : InternalMetrics)
      → ltb 0 (length (internal_counters counter_row gauge_row now m)) ≡ has_counter_activity m
  unfolding has_counter_activity internal_counters
  counters_if m = counter_if-next _ m.events_dropped _ _ (
      counter_if-next _ m.logs_dropped _ _ (
        counter_if-next _ m.cardinality_dropped _ _ (
          counter_if-next _ m.frames_sent _ _ (
            counter_if-next _ m.frames_failed _ _ (
              counter_if-next _ m.bytes_uncompressed _ _ (counter_if-last _ m.bytes_compressed))))))

  -- There are internal counter rows exactly if there is counter activity; a snapshot takes all values as
  -- they are and ends the activity; the other metrics are kept.
  pub has_counter_activity-counters :
      (m : InternalMetrics)
      → (ltb 0 (length (internal_counters counter_row gauge_row now m)) ≡ has_counter_activity m)
        × ((snapshot_and_reset m).0 ≡ m)
        × (internal_counters counter_row gauge_row now (snapshot_and_reset m).1 ≡ [])
        × (internal_gauges counter_row gauge_row now (snapshot_and_reset m).1
            ≡ internal_gauges counter_row gauge_row now m)
  unfolding has_counter_activity snapshot_and_reset internal_counters internal_gauges counter_if
  has_counter_activity-counters m = (counters_if m, refl, refl, refl)

  present :
      (rows : Option (List Row))
      → length (or_empty (present_rows counter_row gauge_row now rows)) ≡ length (or_empty rows)
  present none = refl
  present (some []) = refl
  present (some (r ∷ rows)) = refl

  -- A frame that is built has all rows of its parts and one row for each internal counter and gauge that
  -- is reported, and no other.
  row_count-build :
      (seq from to : ℕ) (metrics : Metrics Row) (events logs : List Row) (m : InternalMetrics)
      → row_count (build counter_row gauge_row now seq from to metrics events logs m)
        ≡ length metrics.counters
          + length metrics.gauges
          + length metrics.histograms
          + length (or_empty metrics.distincts)
          + length events
          + length logs
          + length (internal_counters counter_row gauge_row now m)
          + length (internal_gauges counter_row gauge_row now m)
  unfolding row_count build
  row_count-build seq from to metrics events logs m = omega (
    arith,
    length-append metrics.counters (internal_counters counter_row gauge_row now m),
    length-append metrics.gauges (internal_gauges counter_row gauge_row now m),
    present metrics.distincts,
  )
