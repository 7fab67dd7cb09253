-- ===== src/Core/Metrics/Registry.antt =====
-- packages/core/src/metrics/MetricsRegistry.js. A series that a call returns is known by its key, and
-- `none` is the instrument that does nothing. `new HyperLogLog` throws without a salt, which the
-- settings do not allow, so a sketch is given digests here.
pub mod Calls
pub mod Refusals
pub mod Whole
mod Tests
use Prim.Native.String.{◌++◌ as append}
use wardx.Prelude.{
  ltb, eqb, length, Result, ok, err, ◌>>=◌, ◌>>◌, guard, ℕ, zero, String, Bool, true, false, not,
  ◌&&◌, ◌||◌, Option, none, some, List, [], ◌∷◌,
}
use wardx.Prelude.Js.{Js}
use wardx.Core.Metrics.Dimensions.{Dims, other}
use wardx.Core.Metrics.Histogram.{
  Counter, counter_add, Gauge, gauge_set, Histogram, histogram, observe, reset_histogram,
  HistogramBody, histogram_body,
}
use wardx.Core.Metrics.HyperLogLog.{
  HyperLogLog, Base64, Sketch, add as add_digest, reset as reset_sketch, create as new_sketch,
  snapshot as sketch_body,
}
use wardx.Core.Metrics.Series.{Rejections, State, Table, or_no_entries, series, update}
use wardx.Prelude.Entries.{find, put}
use wardx.Core.Metrics.Sweep.{sweep, any_dirty}

module _ (js : Js) where
  open js use {Number, zero, same, less, at_most, is_finite, minus_infinity}

  -- An argument of `histogram`: its property `buckets`, and the others.
  pub record Arguments : Type 0 where
    pub buckets : Option (List Number)
    pub rest : Dims Number

  -- `dims ? { ...dims, ...b } : b`
  pub spread : Dims Number → Dims Number → Dims Number
  spread dims [] = dims
  spread dims ((k, v) ∷ more) = spread (put k v dims) more

  -- `String` of an array of numbers
  array_text : List Number → String
  array_text [] = ""
  array_text (n ∷ []) = js.show n
  array_text (n ∷ m ∷ numbers) = append (js.show n) (append "," (array_text (m ∷ numbers)))

  -- `b` as dimensions: an array of buckets is no scalar.
  pub as_dims : Arguments → Dims Number
  as_dims record_args = elim record_args.buckets [
    | none ↦ record_args.rest
    | some buckets ↦ put "buckets" (other (array_text buckets)) record_args.rest
  ]

  pub or_null : Dims Number → Option (Dims Number)
  or_null [] = none
  or_null (d ∷ dims) = some (d ∷ dims)

  abbrev or_none : Option (Dims Number) → Dims Number
  or_none none = []
  or_none (some dims) = dims

  pub with_buckets : Arguments → Option Arguments → Option (Dims Number)
  with_buckets a none = or_null a.rest
  with_buckets a (some b) = some (spread (or_none (or_null a.rest)) (as_dims b))

  pub bounds_of : Option Arguments → List Number → List Number
  bounds_of none default_buckets = default_buckets
  bounds_of (some b) default_buckets = elim b.buckets [
    | none ↦ default_buckets
    | some buckets ↦ buckets
  ]

  -- The first half of `parseHistogramArgs`: the buckets and the dimensions.
  pub select_args :
      Option Arguments → Option Arguments → List Number → List Number × Option (Dims Number)
  select_args none b default_buckets = (default_buckets, none)
  select_args (some a) b default_buckets = elim a.buckets [
    | some buckets ↦ (buckets, with_buckets a b)
    | none ↦ (bounds_of b default_buckets, some a.rest)
  ]

  pub check_bounds : Number → List Number → Result (Unit {0})
  check_bounds prev [] = ok tt
  check_bounds prev (bound ∷ bounds) = do
    guard (is_finite bound && not (at_most bound prev))
        "histogram buckets must be strictly increasing finite numbers"
    check_bounds bound bounds

  pub parse_histogram_args :
      Option Arguments
      → Option Arguments
      → List Number
      → Result (List Number × Option (Dims Number))
  parse_histogram_args a b default_buckets = do
    let (buckets, dims) = select_args a b default_buckets
    guard (not (eqb (length buckets) 0)) "histogram buckets must be a non-empty array"
    check_bounds minus_infinity buckets
    ok (buckets, dims)

  pub bounds_equal : List Number → List Number → Bool
  bounds_equal [] [] = true
  bounds_equal (a ∷ left) (b ∷ right) = same a b && bounds_equal left right
  bounds_equal [] (b ∷ right) = false
  bounds_equal (a ∷ left) [] = false

  -- A series of distinct values.
  pub record Distinct : Type 0 where
    pub name : String
    pub dims : Option (Dims Number)
    pub sketch : HyperLogLog

  pub record Options : Type 0 where
    pub max_series_per_metric : ℕ
    pub max_dimension_keys : ℕ
    pub max_dimension_value_length : ℕ
    pub default_histogram_buckets : List Number

  pub record MetricsRegistry : Type 0 where
    pub counters_by_name : Table (Counter js)
    pub gauges_by_name : Table (Gauge js)
    pub histograms_by_name : Table (Histogram js)
    pub distincts_by_name : Table Distinct
    pub rejections : Rejections

  pub create : MetricsRegistry
  create = record {
    counters_by_name = [];
    gauges_by_name = [];
    histograms_by_name = [];
    distincts_by_name = [];
    rejections = record { rejected = []; cardinality_dropped = 0 };
  }

  abbrev pub counter_state : MetricsRegistry → State (Counter js)
  counter_state r = record { table = r.counters_by_name; rejections = r.rejections }

  abbrev pub set_counters : MetricsRegistry → State (Counter js) → MetricsRegistry
  set_counters r s = record r { counters_by_name = s.table; rejections = s.rejections }

  abbrev pub gauge_state : MetricsRegistry → State (Gauge js)
  gauge_state r = record { table = r.gauges_by_name; rejections = r.rejections }

  abbrev pub set_gauges : MetricsRegistry → State (Gauge js) → MetricsRegistry
  set_gauges r s = record r { gauges_by_name = s.table; rejections = s.rejections }

  abbrev pub histogram_state : MetricsRegistry → State (Histogram js)
  histogram_state r = record { table = r.histograms_by_name; rejections = r.rejections }

  abbrev pub set_histograms : MetricsRegistry → State (Histogram js) → MetricsRegistry
  set_histograms r s = record r { histograms_by_name = s.table; rejections = s.rejections }

  abbrev pub distinct_state : MetricsRegistry → State Distinct
  distinct_state r = record { table = r.distincts_by_name; rejections = r.rejections }

  abbrev pub set_distincts : MetricsRegistry → State Distinct → MetricsRegistry
  set_distincts r s = record r { distincts_by_name = s.table; rejections = s.rejections }

  module _ (o : Options) where
    pub counter :
        String → Option (Dims Number) → MetricsRegistry → Result (Option String × MetricsRegistry)
    counter name dims r = do
      (key, s) ←
          series js o.max_series_per_metric o.max_dimension_keys o.max_dimension_value_length "c"
            name dims (λ checked. record { name = name; dims = checked; value = zero })
            (counter_state r)
      ok (key, set_counters r s)

    pub gauge :
        String → Option (Dims Number) → MetricsRegistry → Result (Option String × MetricsRegistry)
    gauge name dims r = do
      (key, s) ←
          series js o.max_series_per_metric o.max_dimension_keys o.max_dimension_value_length "g"
            name dims
            (λ checked. record {
              name = name;
              dims = checked;
              value = zero;
              timestamp = 0;
              dirty = false;
            })
            (gauge_state r)
      ok (key, set_gauges r s)

    pub distinct :
        String → Option (Dims Number) → MetricsRegistry → Result (Option String × MetricsRegistry)
    distinct name dims r = do
      (key, s) ←
          series js o.max_series_per_metric o.max_dimension_keys o.max_dimension_value_length "d"
            name dims (λ checked. record { name = name; dims = checked; sketch = new_sketch })
            (distinct_state r)
      ok (key, set_distincts r s)

    -- The test of the bounds of the series that was found; there is always one.
    pub check_buckets : String → List Number → Option String → MetricsRegistry → Result (Unit {0})
    check_buckets name buckets none r = ok tt
    check_buckets name buckets (some key) r =
        elim (find key (or_no_entries (find name r.histograms_by_name))) [
          | none ↦ ok tt
          | some h ↦
              guard (bounds_equal h.bounds buckets)
                (append "histogram " (append name " buckets cannot change for an existing series"))
        ]

    -- What `_series` did stays done where the buckets differ, so the registry is returned either way.
    pub histogram_with :
        String
        → List Number
        → Option (Dims Number)
        → MetricsRegistry
        → Result (Option String) × MetricsRegistry
    histogram_with name buckets dims r =
        elim (series js o.max_series_per_metric o.max_dimension_keys o.max_dimension_value_length
          "h" name dims
          (λ checked.
            histogram js name checked buckets
              (some (o.max_dimension_keys, o.max_dimension_value_length)))
          (histogram_state r)) [
            | err e ↦ (err e, r)
            | ok (key, s) ↦ (
              (do check_buckets name buckets key (set_histograms r s); ok key),
              set_histograms r s,
            )
          ]

    pub histogram_of :
        String
        → Option Arguments
        → Option Arguments
        → MetricsRegistry
        → Result (Option String) × MetricsRegistry
    histogram_of name a b r = elim (parse_histogram_args a b o.default_histogram_buckets) [
      | err e ↦ (err e, r)
      | ok (buckets, dims) ↦ histogram_with name buckets dims r
    ]

  -- What the holder of a series does to it. A call that throws is one that changes nothing, or for a
  -- histogram what `observe` says.
  pub add_to_counter : String → String → Number → MetricsRegistry → MetricsRegistry
  add_to_counter name key n r = set_counters r (
      update name key (λ c. elim (counter_add js n c) [ err e ↦ c | ok c' ↦ c' ]) (counter_state r))

  pub set_on_gauge : String → String → ℕ → Number → MetricsRegistry → MetricsRegistry
  set_on_gauge name key now value r = set_gauges r (
      update name key (λ g. elim (gauge_set js now value g) [ err e ↦ g | ok g' ↦ g' ])
        (gauge_state r))

  pub observe_on_histogram :
      String → String → Number → Option (Dims Number) → MetricsRegistry → MetricsRegistry
  observe_on_histogram name key value attrs r =
      set_histograms r (update name key (λ h. (observe js value attrs h).1) (histogram_state r))

  pub add_to_distinct : String → String → ℕ → MetricsRegistry → MetricsRegistry
  add_to_distinct name key digest r =
      set_distincts r
        (update name key (λ d. record d { sketch = add_digest digest d.sketch }) (distinct_state r))

  abbrev pub counter_dirty : Counter js → Bool
  counter_dirty c = not (same c.value zero)

  abbrev pub gauge_dirty : Gauge js → Bool
  gauge_dirty g = g.dirty

  abbrev pub histogram_dirty : Histogram js → Bool
  histogram_dirty h = ltb 0 h.count

  abbrev pub distinct_dirty : Distinct → Bool
  distinct_dirty d = d.sketch.dirty

  abbrev pub counter_row : Counter js → String × Option (Dims Number) × Number
  counter_row c = (c.name, c.dims, c.value)

  abbrev pub clear_counter : Counter js → Counter js
  clear_counter c = record c { value = zero }

  abbrev pub gauge_row : Gauge js → String × Option (Dims Number) × Number × ℕ
  gauge_row g = (g.name, g.dims, g.value, g.timestamp)

  abbrev pub clear_gauge : Gauge js → Gauge js
  clear_gauge g = record g { dirty = false }

  abbrev pub histogram_row : Histogram js → String × Option (Dims Number) × HistogramBody js
  histogram_row h = (h.name, h.dims, histogram_body js h)

  abbrev pub distinct_row : Distinct → String × Option (Dims Number) × HyperLogLog
  distinct_row d = (d.name, d.dims, d.sketch)

  abbrev pub clear_distinct : Distinct → Distinct
  clear_distinct d = record d { sketch = reset_sketch d.sketch }

  -- The rows of `snapshotAndReset`. The registers of a sketch are put into text by `encode_rows`.
  pub record Swept : Type 0 where
    pub counters : List (String × Option (Dims Number) × Number)
    pub gauges : List (String × Option (Dims Number) × Number × ℕ)
    pub histograms : List (String × Option (Dims Number) × HistogramBody js)
    pub distincts : List (String × Option (Dims Number) × HyperLogLog)

  abbrev pub sweep_counters :
      Table (Counter js) → List (String × Option (Dims Number) × Number) × Table (Counter js)
  sweep_counters = sweep counter_dirty counter_row clear_counter

  abbrev pub sweep_gauges :
      Table (Gauge js) → List (String × Option (Dims Number) × Number × ℕ) × Table (Gauge js)
  sweep_gauges = sweep gauge_dirty gauge_row clear_gauge

  abbrev pub sweep_histograms :
      Table (Histogram js)
      → List (String × Option (Dims Number) × HistogramBody js) × Table (Histogram js)
  sweep_histograms = sweep histogram_dirty histogram_row (reset_histogram js)

  abbrev pub sweep_distincts :
      Table Distinct → List (String × Option (Dims Number) × HyperLogLog) × Table Distinct
  sweep_distincts = sweep distinct_dirty distinct_row clear_distinct

  pub sweep_all : MetricsRegistry → Swept × MetricsRegistry
  sweep_all r = (
    record {
      counters = (sweep_counters r.counters_by_name).0;
      gauges = (sweep_gauges r.gauges_by_name).0;
      histograms = (sweep_histograms r.histograms_by_name).0;
      distincts = (sweep_distincts r.distincts_by_name).0;
    },
    record r {
      counters_by_name = (sweep_counters r.counters_by_name).1;
      gauges_by_name = (sweep_gauges r.gauges_by_name).1;
      histograms_by_name = (sweep_histograms r.histograms_by_name).1;
      distincts_by_name = (sweep_distincts r.distincts_by_name).1;
    },
  )

  pub encode_rows :
      (base64 : Base64)
      → List (String × Option (Dims Number) × HyperLogLog)
      → Result (List (String × Option (Dims Number) × Sketch base64.Text))
  encode_rows base64 [] = ok []
  encode_rows base64 ((name, dims, sketch) ∷ rows) = do
    body ← sketch_body base64 sketch
    bodies ← encode_rows base64 rows
    ok ((name, dims, body) ∷ bodies)

  pub is_dirty : MetricsRegistry → Bool
  is_dirty r =
      any_dirty counter_dirty r.counters_by_name
      || (any_dirty gauge_dirty r.gauges_by_name
          || (any_dirty histogram_dirty r.histograms_by_name
              || any_dirty distinct_dirty r.distincts_by_name))
