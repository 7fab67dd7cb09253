-- ===== src/Core/Metrics/Histogram.antt =====
-- packages/core/src/metrics/Histogram.js, Counter.js and Gauge.js.
pub mod Buckets
mod Tests
use wardx.Prelude.{
  if◌then◌else◌, set, Result, ok, err, ◌>>=◌, ◌>>◌, guard, ℕ, zero, ◌+◌, min, max, String, Bool,
  true, not, Option, none, some, List, [], ◌∷◌,
}
use wardx.Prelude.Js.{Js}
use wardx.Core.Metrics.Dimensions.{Dims, Checked, valid, refused, validate_dimensions}

module _ (js : Js) where
  open js use {Number, zero, infinity, minus_infinity, plus, less, at_most, is_finite}

  pub record Counter : Type 0 where
    pub name : String
    pub dims : Option (Dims Number)
    pub value : Number

  -- `add`; `inc` is `add(1)` without the check.
  unfoldable pub counter_add : Number → Counter → Result Counter
  counter_add n c = do
    guard (is_finite n) "counter.add requires a finite number"
    ok (record c { value = plus c.value n })

  pub record Gauge : Type 0 where
    pub name : String
    pub dims : Option (Dims Number)
    pub value : Number
    pub timestamp : ℕ
    pub dirty : Bool

  -- `set`, with the reading of the clock.
  pub gauge_set : ℕ → Number → Gauge → Result Gauge
  gauge_set now value g = do
    guard (is_finite value) "gauge.set requires a finite number"
    ok (record g { value = value; timestamp = now; dirty = true })

  pub record Exemplar : Type 0 where
    pub value : Number
    pub attrs : Dims Number

  -- `limits` has `maxDimensionKeys` and `maxDimensionValueLength`.
  pub record Histogram : Type 0 where
    pub name : String
    pub dims : Option (Dims Number)
    pub bounds : List Number
    pub limits : Option (ℕ × ℕ)
    pub counts : List ℕ
    pub count : ℕ
    pub sum : Number
    pub min : Number
    pub max : Number
    pub exemplar : Option Exemplar

  -- `new Array(bounds.length).fill(0)`
  pub fill_zero : List Number → List ℕ
  fill_zero [] = []
  fill_zero (b ∷ bounds) = 0 ∷ fill_zero bounds

  pub histogram : String → Option (Dims Number) → List Number → Option (ℕ × ℕ) → Histogram
  histogram name dims bounds limits = record {
    name = name;
    dims = dims;
    bounds = bounds;
    limits = limits;
    counts = fill_zero bounds;
    count = 0;
    sum = zero;
    min = infinity;
    max = minus_infinity;
    exemplar = none;
  }

  pub exemplar_of : Number → Checked Number → Option Exemplar
  exemplar_of value (valid (some dims)) = some (record { value = value; attrs = dims })
  exemplar_of value (valid none) = none
  exemplar_of value (refused reason) = none

  -- `_exemplarFrom`
  pub exemplar_from : Number → Option (Dims Number) → Option (ℕ × ℕ) → Result (Option Exemplar)
  exemplar_from value none limits = ok none
  exemplar_from value (some attrs) none = err "histogram.observe attrs require dimension limits"
  exemplar_from value (some attrs) (some (max_keys, max_value_length)) = do
    checked ← validate_dimensions js (some attrs) max_keys max_value_length
    ok (exemplar_of value checked)

  -- `for (let i = 0; i < bounds.length; i++)`
  pub bump : Number → List Number → List ℕ → List ℕ
  bump value [] counts = counts
  bump value (b ∷ bounds) [] = []
  bump value (b ∷ bounds) (c ∷ counts) =
      if at_most value b then (c + 1) ∷ counts else c ∷ bump value bounds counts

  -- The first three updates of `observe`.
  pub count_value : Number → Histogram → Histogram
  count_value value h = record h {
    count = h.count + 1;
    sum = plus h.sum value;
    min = if less value h.min then value else h.min;
  }

  -- `this.max = value` and the loop over the bounds that follows the exemplar.
  pub count_bucket : Number → Histogram → Histogram
  count_bucket value h = record h { counts = bump value h.bounds h.counts }

  -- A value that is the greatest so far, with what `_exemplarFrom` does. What it throws leaves the
  -- updates before it in place.
  pub observe_max : Number → Result (Option Exemplar) → Histogram → Result (Unit {0}) × Histogram
  observe_max value (err e) h = (err e, record h { max = value })
  observe_max value (ok exemplar) h =
      (ok tt, count_bucket value (record h { max = value; exemplar = exemplar }))

  pub observe : Number → Option (Dims Number) → Histogram → Result (Unit {0}) × Histogram
  observe value attrs h =
      if not (is_finite value)
      then (err "histogram.observe requires a finite number", h)
      else if at_most h.max value
      then observe_max value (exemplar_from value attrs h.limits) (count_value value h)
      else (ok tt, count_bucket value (count_value value h))

  unfoldable pub reset_histogram : Histogram → Histogram
  reset_histogram h = record h {
    counts = fill_zero h.bounds;
    count = 0;
    sum = zero;
    min = infinity;
    max = minus_infinity;
    exemplar = none;
  }

  -- The buckets of `snapshot`: a bound and its count.
  pub pairs : List Number → List ℕ → List (Number × ℕ)
  pairs [] counts = []
  pairs (b ∷ bounds) [] = []
  pairs (b ∷ bounds) (c ∷ counts) = (b, c) ∷ pairs bounds counts

  pub record HistogramBody : Type 0 where
    pub count : ℕ
    pub sum : Number
    pub min : Number
    pub max : Number
    pub buckets : List (Number × ℕ)
    pub exemplar : Option Exemplar

  pub histogram_body : Histogram → HistogramBody
  histogram_body h = record {
    count = h.count;
    sum = h.sum;
    min = h.min;
    max = h.max;
    buckets = pairs h.bounds h.counts;
    exemplar = h.exemplar;
  }
