-- ===== src/Server/History/Accumulator/Tests.antt =====
-- An accumulator that takes in one event.
use wardx.Prelude.{ok, ℕ, ◌+◌, String, ◌≡◌, refl, true, none, [], ◌∷◌}
use wardx.Prelude.Entries.{find, put}
use wardx.Prelude.Numbered.{find_at, put_at}
use wardx.Prelude.Updates.{put_all}
use wardx.Prelude.Sample.{sample_js}
use wardx.Server.History.Rows.{
  Row, event, non_empty_string, kind_of, os_of, dimensions_of, dimension_fields, dimension_of,
  is_dimension, base_row, integer_count, count_or,
}
use wardx.Server.History.Series.{kind_body, normalize_historical_row, historical_series_key}
use wardx.Server.History.Bytes.{row_bytes}
use wardx.Server.History.Buckets.{expected_width}
use wardx.Server.History.Compactor.{utc_bucket_start}
use wardx.Server.History.Sample.{sample_buffer}
use wardx.Server.History.Input.{
  Envelope, common_fields, counter_rows, gauge_rows, histogram_rows, distinct_rows, event_rows,
  log_rows, history_rows,
}
use wardx.Server.History.Minutes.{
  bucket_bytes, empty_state, extend, add_row, merge_with, update_rows, new_update,
}
use wardx.Server.History.Accumulator.{
  Accumulator, create, remember_version, exceeds_versions, commit_update, commit_updates, commit,
  update_frames, prepare, ingest,
}
use wardx.Server.History.Accumulator.Counted.{
  Reach, here, next, ingested, NoOverflow, IsCountedAll, Reach-IsCountedAll,
}

abbrev visited : Row ℕ
visited = record {
  common = record {
    name = "visit";
    role = "client";
    environment = "live";
    app_version = "1.0";
    dimensions = none;
    os = none;
  };
  body = event 1;
}

abbrev one_event : Envelope ℕ
one_event = record {
  client = record { role = "client"; environment = "live"; app_version = "1.0"; os = none };
  frames =
      record {
        from = 60500;
        counters = [];
        gauges = [];
        histograms = [];
        distincts = [];
        events = "visit" ∷ [];
        logs = [];
      }
      ∷ [];
}

abbrev new : Accumulator ℕ
new = record {
  project = "shop";
  clock_skew_allowance = 1000;
  max_app_versions = 2;
  states = [];
  dirty = [];
  versions_by_role = [];
}

abbrev key : String
key = historical_series_key sample_js visited

abbrev after_event : Accumulator ℕ
after_event = record new {
  states =
      (
        60000,
        record {
          rows = (key, visited) ∷ [];
          row_bytes = (key, row_bytes sample_js visited) ∷ [];
          sorted_keys = none;
          bytes = bucket_bytes sample_js "shop" 60000 [] + 0 + row_bytes sample_js visited;
        },
      )
      ∷ [];
  dirty = 60000 ∷ [];
  versions_by_role = ("minute\0client", "1.0" ∷ []) ∷ [];
}

taken_in : ingest sample_js sample_buffer one_event [] new ≡ ok (true, after_event)
unfolding ingest prepare exceeds_versions update_frames update_rows new_update add_row extend
    merge_with commit commit_updates commit_update remember_version empty_state utc_bucket_start
    expected_width history_rows counter_rows gauge_rows histogram_rows distinct_rows event_rows
    log_rows common_fields normalize_historical_row kind_body base_row kind_of non_empty_string
    dimensions_of dimension_fields dimension_of is_dimension os_of integer_count count_or find put
    put_all find_at put_at
taken_in = refl

created : create "shop" 1000 2 ≡ ok new
unfolding create
created = refl

abbrev reached : Reach sample_js sample_buffer new after_event
reached = next here (ingested one_event [] true taken_in)

stays_finite : NoOverflow sample_js sample_buffer reached
unfolding update_frames update_rows new_update add_row extend merge_with empty_state
    utc_bucket_start expected_width history_rows counter_rows gauge_rows histogram_rows
    distinct_rows event_rows log_rows common_fields normalize_historical_row kind_body base_row
    kind_of non_empty_string dimensions_of dimension_fields dimension_of is_dimension os_of
    integer_count count_or find put put_all find_at put_at
stays_finite = (tt, ((refl, tt), tt))

Reach-IsCountedAll_example : IsCountedAll sample_js sample_buffer after_event
Reach-IsCountedAll_example =
    Reach-IsCountedAll sample_js sample_buffer "shop" 1000 2 new after_event created reached
      stays_finite
