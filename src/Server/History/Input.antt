-- ===== src/Server/History/Input.antt =====
-- The rows that packages/server/src/aggregation/history/HistoryAccumulator.js makes of a frame. The
-- envelope was checked when it came in, so its parts are typed here; of an event or a log only the name
-- and the level are read.
use wardx.Prelude.{if◌then◌else◌, ℕ, String, Option, none, some, List, [], ◌∷◌, ◌++◌}
use wardx.Prelude.Entries.{contains}
use wardx.Prelude.Js.{Js}
use wardx.Prelude.Json.{Json, Items, Fields, null, num, str, arr, obj, end, field}
use wardx.Server.History.Sketch.{Sketch}

pub record Client : Type 0 where
  pub role : String
  pub environment : String
  pub app_version : String
  pub os : Option String

module _ (N : Type 0) where
  -- The body of a histogram.
  pub record Observed : Type 0 where
    pub count : N
    pub sum : N
    pub min : N
    pub max : N
    pub buckets : Items N

  -- Each series has its name and its dimensions, which are an object or `null`; a gauge has its value
  -- and the time of it, a log its level and its name.
  pub record Frame : Type 0 where
    pub from : ℕ
    pub counters : List (String × Json N × N)
    pub gauges : List (String × Json N × N × N)
    pub histograms : List (String × Json N × Observed)
    pub distincts : List (String × Json N × Sketch N)
    pub events : List String
    pub logs : List (String × String)

  pub record Envelope : Type 0 where
    pub client : Client
    pub frames : List Frame

module _ (js : Js) where
  open js use {Number, of_nat}

  -- `...common`
  unfoldable pub common_fields : Client → Fields Number
  common_fields c = field "role" (str c.role) (
      field "environment" (str c.environment) (
        field "appVersion" (str c.app_version)
          (elim c.os [ none ↦ end | some os ↦ field "os" (str os) end ])))

  abbrev row_of : String → String → Json Number → Fields Number → Json Number
  row_of kind name dimensions fields =
      obj (field "kind" (str kind) (field "name" (str name) (field "dimensions" dimensions fields)))

  unfoldable pub counter_rows : Client → List (String × Json Number × Number) → List (Json Number)
  counter_rows c [] = []
  counter_rows c ((name, dimensions, value) ∷ counters) =
      row_of "counter" name dimensions (field "value" (num value) (common_fields c))
      ∷ counter_rows c counters

  unfoldable pub gauge_rows :
      Client → List (String × Json Number × Number × Number) → List (Json Number)
  gauge_rows c [] = []
  gauge_rows c ((name, dimensions, value, timestamp) ∷ gauges) =
      row_of "gauge" name dimensions (
        field "lastValue" (num value) (
          field "lastTimestamp" (num timestamp) (
            field "min" (num value)
              (field "max" (num value) (field "sampleCount" (num (of_nat 1)) (common_fields c))))))
      ∷ gauge_rows c gauges

  unfoldable pub histogram_rows :
      Client → List (String × Json Number × Observed Number) → List (Json Number)
  histogram_rows c [] = []
  histogram_rows c ((name, dimensions, body) ∷ histograms) =
      row_of "histogram" name dimensions (
        field "count" (num body.count) (
          field "sum" (num body.sum) (
            field "min" (num body.min)
              (field "max" (num body.max) (field "buckets" (arr body.buckets) (common_fields c))))))
      ∷ histogram_rows c histograms

  unfoldable pub distinct_rows :
      Client → List (String × Json Number × Sketch Number) → List (Json Number)
  distinct_rows c [] = []
  distinct_rows c ((name, dimensions, body) ∷ distincts) =
      row_of "distinct" name dimensions (
        field "precision" (num body.precision)
          (field "registers" (str body.registers) (common_fields c)))
      ∷ distinct_rows c distincts

  unfoldable pub event_rows : Client → List String → List (Json Number)
  event_rows c [] = []
  event_rows c (name ∷ events) =
      row_of "event" name null (field "count" (num (of_nat 1)) (common_fields c))
      ∷ event_rows c events

  -- Only the logs that `persistLogs` names.
  unfoldable pub log_rows : Client → List String → List (String × String) → List (Json Number)
  log_rows c persist_logs [] = []
  log_rows c persist_logs ((level, name) ∷ logs) =
      let rest = log_rows c persist_logs logs in
      if contains persist_logs name
      then obj (
          field "kind" (str "log") (
            field "name" (str name) (
              field "level" (str level)
                (field "dimensions" null (field "count" (num (of_nat 1)) (common_fields c))))))
        ∷ rest
      else rest

  unfoldable pub history_rows : Client → Frame Number → List String → List (Json Number)
  history_rows c frame persist_logs =
      counter_rows c frame.counters
      ++ gauge_rows c frame.gauges
      ++ histogram_rows c frame.histograms
      ++ distinct_rows c frame.distincts
      ++ event_rows c frame.events
      ++ log_rows c persist_logs frame.logs
