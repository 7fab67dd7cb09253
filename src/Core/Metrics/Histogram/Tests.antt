-- ===== src/Core/Metrics/Histogram/Tests.antt =====
-- A histogram with two bounds.
use wardx.Prelude.{◌≡◌, refl, none, some, List, [], ◌∷◌}
use wardx.Prelude.Sample.{sample_js}
use wardx.Core.Metrics.Dimensions.{text, other, validate_dimensions, validate_values}
use wardx.Core.Metrics.Histogram.{
  Histogram, histogram, fill_zero, bump, count_value, count_bucket, observe, observe_max,
  exemplar_from, exemplar_of, reset_histogram,
}
use wardx.Core.Metrics.Histogram.Buckets.{
  Counted, Call, observed, cleared, call_all, accepted, finite_calls, call_all-Counted,
}

abbrev empty : Histogram sample_js
empty = histogram sample_js "latency" none (10 ∷ 20 ∷ []) (some (2, 8))

-- The last call throws, since its attribute is no scalar.
abbrev calls : List (Call sample_js)
calls =
    observed 30 (some (("k", other "[object Object]") ∷ []))
    ∷ observed 12 none
    ∷ observed 25 (some (("k", text "v") ∷ []))
    ∷ observed 2000000 none
    ∷ observed 10 none
    ∷ cleared
    ∷ observed 11 none
    ∷ []

calls_counts : (call_all sample_js calls empty).counts ≡ 1 ∷ 1 ∷ []
unfolding histogram fill_zero bump count_value count_bucket observe observe_max exemplar_from
    exemplar_of reset_histogram validate_dimensions validate_values
calls_counts = refl

-- What throws has been counted.
calls_count : (call_all sample_js calls empty).count ≡ 4
unfolding histogram fill_zero bump count_value count_bucket observe observe_max exemplar_from
    exemplar_of reset_histogram validate_dimensions validate_values
calls_count = refl

call_all-Counted_example :
    Counted sample_js
      (10 ∷ 20 ∷ [])
      (finite_calls sample_js calls)
      (accepted sample_js calls empty)
      (call_all sample_js calls empty)
call_all-Counted_example =
    call_all-Counted sample_js "latency" none (10 ∷ 20 ∷ []) (some (2, 8)) calls
