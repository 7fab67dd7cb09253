-- ===== src/Core/Metrics/Registry/Tests.antt =====
-- A registry with one counter.
use wardx.Prelude.{ok, String, ◌≡◌, refl, false, not, ◌&&◌, none, some, [], ◌∷◌}
use wardx.Prelude.Sample.{sample_js}
use wardx.Core.Metrics.Dimensions.{
  text, value_text, dim_key, validate_dimensions, validate_values, assert_metric_name,
}
use wardx.Prelude.Entries.{find, put}
use wardx.Core.Metrics.Series.{
  series, after_check, find_or_insert, insert, with_name, has, update, reject, reject_key_of,
}
use wardx.Core.Metrics.Histogram.{counter_add}
use wardx.Core.Metrics.Sweep.{is_empty}
use wardx.Core.Metrics.Registry.{
  MetricsRegistry, Options, create, counter, add_to_counter, sweep_all, is_dirty,
}
use wardx.Core.Metrics.Registry.Calls.{Reach, here, next, asked_counter, added, swept}
use wardx.Core.Metrics.Registry.Refusals.{refused_keys}
use wardx.Core.Metrics.Registry.Whole.{IsWhole, Reach-IsWhole, sweep_all-is_dirty}

abbrev options : Options sample_js
options = record {
  max_series_per_metric = 1;
  max_dimension_keys = 2;
  max_dimension_value_length = 8;
  default_histogram_buckets = 10 ∷ 20 ∷ [];
}

abbrev one_counter : MetricsRegistry sample_js
one_counter = record {
  counters_by_name = ("hits", ("", record { name = "hits"; dims = none; value = 0 }) ∷ []) ∷ [];
  gauges_by_name = [];
  histograms_by_name = [];
  distincts_by_name = [];
  rejections = record { rejected = []; cardinality_dropped = 0 };
}

first_counter : counter sample_js options "hits" none (create sample_js) ≡ ok (some "", one_counter)
unfolding counter create series after_check find_or_insert insert with_name has assert_metric_name
    validate_dimensions dim_key find put
first_counter = refl

abbrev counted : MetricsRegistry sample_js
counted = add_to_counter sample_js "hits" "" 3 one_counter

-- There is room for one series, so that a second one is refused.
abbrev one_refused : MetricsRegistry sample_js
one_refused = record counted {
  rejections = record { rejected = "c\0hits\0at=home" ∷ []; cardinality_dropped = 1 };
}

second_counter :
    counter sample_js options "hits" (some (("at", text "home") ∷ [])) counted
    ≡ ok (none, one_refused)
unfolding counter create series after_check find_or_insert insert with_name has assert_metric_name
    validate_dimensions validate_values value_text dim_key find put add_to_counter update
    counter_add reject reject_key_of
second_counter = refl

abbrev calls : Reach sample_js options (create sample_js) (sweep_all sample_js one_refused).1
calls =
    next
      (next
        (next (next here (asked_counter "hits" none (some "") first_counter)) (added "hits" "" 3))
        (asked_counter "hits" (some (("at", text "home") ∷ [])) none second_counter))
      swept

Reach-IsWhole_example :
    IsWhole sample_js 1 (sweep_all sample_js one_refused).1
    × ((key : String)
        → has (sweep_all sample_js one_refused).1.rejections.rejected key
          ≡ has (refused_keys sample_js options calls) key)
Reach-IsWhole_example = Reach-IsWhole sample_js options calls

sweep_all-is_dirty_example :
    (is_dirty sample_js (sweep_all sample_js counted).1 ≡ false)
    × ((is_empty (sweep_all sample_js counted).0.counters
          && (is_empty (sweep_all sample_js counted).0.gauges
              && (is_empty (sweep_all sample_js counted).0.histograms
                  && is_empty (sweep_all sample_js counted).0.distincts)))
        ≡ not (is_dirty sample_js counted))
sweep_all-is_dirty_example = sweep_all-is_dirty sample_js counted refl
