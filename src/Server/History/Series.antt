-- ===== src/Server/History/Series.antt =====
-- The rows of one series in packages/server/src/aggregation/history/HistoryBucket.js: the whole check of
-- a row, the key of its series, and how two rows of a series are merged.
pub mod Private
mod Tests
use Prim.Native.String.{◌++◌ as append}
use wardx.Prelude.{
  if◌then◌else◌, Result, ok, err, ◌>>=◌, ◌>>◌, guard, ℕ, ◌+◌, min, max, String, Bool, true, false,
  ◌&&◌, ◌||◌, Option, none, some, List, [], ◌∷◌, ◌==◌,
}
use wardx.Prelude.Js.{Js}
use wardx.Prelude.Json.{Json, Fields, null, obj, end, field, own}
use wardx.Server.History.Sketch.{
  Buffer, Sketch, body_of, normalize_hll_body, merge_hll_bodies, estimate_hll_body,
}
use wardx.Server.History.Rows.{
  Gauge, Histogram, Body, counter, event, drop_row, log_row, gauge, histogram, distinct, Row,
  base_row, finite_number, integer_count, level_of, gauge_of, histogram_of,
}

-- `row.os ?? ''`
abbrev os_text : Option String → String
os_text none = ""
os_text (some os) = os

module _ {N : Type 0} where
  -- An object's property that is not there is written as `null`, which is as wrong as `undefined`.
  abbrev or_null : Option (Json N) → Json N
  or_null none = null
  or_null (some value) = value

  abbrev pub kind_name : Body N → String
  kind_name (counter _) = "counter"
  kind_name (event _) = "event"
  kind_name (drop_row _) = "drop"
  kind_name (log_row _ _) = "log"
  kind_name (gauge _) = "gauge"
  kind_name (histogram _) = "histogram"
  kind_name (distinct _ _) = "distinct"

  -- `row.level ?? ''`
  abbrev level_text : Body N → String
  level_text (log_row level _) = level
  level_text _ = ""

  -- `row.dimensions ?? null`
  abbrev pub dimensions_json : Option (Fields N) → Json N
  dimensions_json none = null
  dimensions_json (some fields) = obj fields

module _ (js : Js) where
  open js use {Number, plus, same, less, smaller, larger}

  unfoldable pub historical_series_key : Row Number → String
  historical_series_key row = append (kind_name row.body) (
      append "\0" (
        append row.common.role (
          append "\0" (
            append row.common.environment (
              append "\0" (
                append row.common.app_version (
                  append "\0" (
                    append (os_text row.common.os) (
                      append "\0" (
                        append row.common.name (
                          append "\0" (
                            append (level_text row.body) (
                              append "\0"
                                (js.stringify (dimensions_json row.common.dimensions)))))))))))))))

  pub compatible_bounds : List (Number × ℕ) → List (Number × ℕ) → Bool
  compatible_bounds [] [] = true
  compatible_bounds ((bound, _) ∷ left) ((other, _) ∷ right) =
      same bound other && compatible_bounds left right
  compatible_bounds _ _ = false

  -- The loop over the buckets, which are as many.
  unfoldable pub add_counts : List (Number × ℕ) → List (Number × ℕ) → List (Number × ℕ)
  add_counts ((bound, count) ∷ existing) ((_, more) ∷ incoming) =
      (bound, count + more) ∷ add_counts existing incoming
  add_counts existing _ = existing

  unfoldable pub merge_gauge : Gauge Number → Gauge Number → Gauge Number
  merge_gauge existing incoming =
      let is_later =
        less existing.last_timestamp incoming.last_timestamp
        || (same incoming.last_timestamp existing.last_timestamp
            && less existing.last_value incoming.last_value) in
      record {
        last_value = if is_later then incoming.last_value else existing.last_value;
        last_timestamp = if is_later then incoming.last_timestamp else existing.last_timestamp;
        min = smaller existing.min incoming.min;
        max = larger existing.max incoming.max;
        sample_count = existing.sample_count + incoming.sample_count;
      }

  unfoldable pub merge_histogram :
      String → Histogram Number → Histogram Number → Result (Histogram Number)
  merge_histogram name existing incoming = do
    guard (compatible_bounds existing.buckets incoming.buckets)
        (append "incompatible histogram bounds for historical series " name)
    ok (record {
      count = existing.count + incoming.count;
      sum = plus existing.sum incoming.sum;
      min = smaller existing.min incoming.min;
      max = larger existing.max incoming.max;
      buckets = add_counts existing.buckets incoming.buckets;
    })

module _ (js : Js) (buffer : Buffer) where
  open js use {Number, plus}

  pub sketch_of : Fields Number → Result (Body Number)
  sketch_of row = do
    body ← normalize_hll_body js buffer (
        obj (
          field "precision" (or_null (own "precision" row))
            (field "registers" (or_null (own "registers" row)) end)))
    estimate ← estimate_hll_body js buffer (body_of body)
    ok (distinct body estimate)

  -- The branches on `row.kind`.
  unfoldable pub kind_body : String → Fields Number → String → Result (Body Number)
  kind_body kind row label =
      if kind == "counter"
      then (do
        value ← finite_number js (own "value" row) (append label ".value")
        ok (counter value))
      else if kind == "event"
      then (do count ← integer_count js (own "count" row) (append label ".count"); ok (event count))
      else if kind == "drop"
      then (do
        count ← integer_count js (own "count" row) (append label ".count")
        ok (drop_row count))
      else if kind == "log"
      then (do
        level ← level_of js (own "level" row) label
        count ← integer_count js (own "count" row) (append label ".count")
        ok (log_row level count))
      else if kind == "gauge"
      then (do body ← gauge_of js row label; ok (gauge body))
      else if kind == "histogram"
      then (do body ← histogram_of js row label; ok (histogram body))
      else sketch_of row

  unfoldable pub normalize_historical_row : Json Number → String → Result (Row Number)
  normalize_historical_row (obj row) label = do
    (kind, common) ← base_row js row label
    body ← kind_body kind row label
    ok (record { common = common; body = body })
  normalize_historical_row _ label = err (append label " must be an object")

  unfoldable pub merge_sketch : Sketch Number → Sketch Number → Result (Body Number)
  merge_sketch existing incoming = do
    body ← merge_hll_bodies js buffer (body_of existing) (body_of incoming)
    estimate ← estimate_hll_body js buffer (body_of body)
    ok (distinct body estimate)

  -- `mergeRow`. Rows of one series are of one kind, so that the last case is no call.
  unfoldable pub merge_row : String → Body Number → Body Number → Result (Body Number)
  merge_row name (counter value) (counter more) = ok (counter (plus value more))
  merge_row name (event count) (event more) = ok (event (count + more))
  merge_row name (log_row level count) (log_row _ more) = ok (log_row level (count + more))
  merge_row name (drop_row count) (drop_row more) = ok (drop_row (count + more))
  merge_row name (gauge existing) (gauge incoming) = ok (gauge (merge_gauge js existing incoming))
  merge_row name (histogram existing) (histogram incoming) = do
    body ← merge_histogram js name existing incoming
    ok (histogram body)
  merge_row name (distinct existing _) (distinct incoming _) = merge_sketch existing incoming
  merge_row name _ _ = err "rows of two kinds"

  -- The copy of `copyHistoricalRow` is the same value.
  unfoldable pub merge_historical_row : Row Number → Row Number → Result (Row Number)
  merge_historical_row existing incoming = do
    body ← merge_row incoming.common.name existing.body incoming.body
    ok (record { common = existing.common; body = body })
