-- ===== src/Core/Metrics/Series/Tests.antt =====
-- Requests for a series, with one series at most for a name.
use wardx.Prelude.{ok, ℕ, ◌≡◌, refl, true, Option, none, some, [], ◌∷◌}
use wardx.Prelude.Sample.{sample_js}
use wardx.Core.Metrics.Dimensions.{
  Dims, flag, dim_key, value_text, validate_dimensions, validate_values, assert_metric_name,
}
use wardx.Prelude.Entries.{find, put}
use wardx.Core.Metrics.Series.{
  State, has, reject, series, after_check, find_or_insert, insert, with_name, reject_key_of,
}
use wardx.Core.Metrics.Series.Again.{series-again}

abbrev full : State ℕ
full = record {
  table = ("hits", ("", 7) ∷ []) ∷ [];
  rejections = record { rejected = []; cardinality_dropped = 0 };
}

abbrev dims : Option (Dims ℕ)
dims = some (("ok", flag true) ∷ [])

abbrev after : State ℕ
after = record full {
  rejections = record { rejected = "c\0hits\0ok=true" ∷ []; cardinality_dropped = 1 };
}

turned_away : series sample_js 1 2 8 "c" "hits" dims (λ d. 0) full ≡ ok (none, after)
unfolding series after_check find_or_insert insert with_name has reject reject_key_of
    assert_metric_name validate_dimensions validate_values dim_key find put value_text
turned_away = refl

series-again_example : series sample_js 1 2 8 "c" "hits" dims (λ d. 0) after ≡ ok (none, after)
series-again_example =
    series-again sample_js 1 2 8 "c" "hits" dims (λ d. 0) (λ d. 0) full after none turned_away
