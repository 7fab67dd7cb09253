-- ===== src/Server/History/Buckets/Tests.antt =====
-- Two minutes of an hour, with the same event in both.
use wardx.Prelude.{ok, ℕ, ◌≡◌, refl, true, [], ◌∷◌}
use wardx.Prelude.Entries.{find, put}
use wardx.Prelude.Sample.{sample_js}
use wardx.Prelude.Json.{Json}
use wardx.Server.History.Rows.{
  Row, non_empty_string, kind_of, os_of, dimensions_of, dimension_fields, dimension_of,
  is_dimension, base_row, integer_count, count_or,
}
use wardx.Server.History.Series.{
  kind_body, normalize_historical_row, historical_series_key, merge_row, merge_historical_row,
}
use wardx.Server.History.Sample.{sample_buffer, visit, before, minutes}
use wardx.Server.History.Buckets.{
  hour, Bucket, expected_width, assert_history_boundary, normalize_rows, insert_row, sort_rows,
  normalize_history_bucket, merge_rows, merge_sources, merge_history_buckets,
}
use wardx.Server.History.Buckets.Totals.{drops_of, sources_held, merge_history_buckets-totals}

abbrev target : Bucket (Json ℕ)
target = record {
  project = "shop";
  tier = hour;
  from = 3600000;
  to = 7200000;
  finalized = true;
  drop_count = 0;
  rows = [];
}

abbrev merged_hour : Bucket (Row ℕ)
merged_hour = record {
  project = "shop";
  tier = hour;
  from = 3600000;
  to = 7200000;
  finalized = true;
  drop_count = 3;
  rows = visit 7 ∷ [];
}

merged : merge_history_buckets sample_js sample_buffer before target minutes ≡ ok merged_hour
unfolding merge_history_buckets merge_sources merge_rows normalize_history_bucket
    assert_history_boundary normalize_rows sort_rows insert_row expected_width find put
    historical_series_key merge_historical_row merge_row normalize_historical_row kind_body base_row
    kind_of non_empty_string dimensions_of dimension_fields dimension_of is_dimension os_of
    integer_count count_or
merged = refl

merge_history_buckets-totals_example :
    (3 ≡ drops_of minutes) × (7 ≡ sources_held sample_js sample_buffer before 0 minutes)
merge_history_buckets-totals_example =
    merge_history_buckets-totals sample_js sample_buffer before target minutes merged_hour merged
