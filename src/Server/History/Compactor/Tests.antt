-- ===== src/Server/History/Compactor/Tests.antt =====
-- A store that takes every bucket, and the compaction of one minute.
use wardx.Prelude.{ok, ℕ, ◌≡◌, true, none, []}
use wardx.Prelude.Sample.{sample_js}
use wardx.Server.History.Buckets.{minute, hour}
use wardx.Server.History.Sample.{sample_buffer, before, minutes}
use wardx.Server.History.Compactor.{Store, Request, compact}
use wardx.Server.History.Compactor.Closed.{Compacts, compact-Compacts}

abbrev store : Store ℕ ℕ
store = record {
  read_buckets = λ project tier start stop. ok minutes;
  replace_compacted_bucket = λ source destination bucket through. ok bucket.drop_count;
}

abbrev first_hour : Request ℕ
first_hour = record {
  project = "shop";
  source_tier = minute;
  destination_tier = hour;
  destination_from = 3600000;
  finalized = true;
  source_buckets = none;
}

compact-Compacts_example :
    ((stored : ℕ)
      → (compact sample_js sample_buffer before store first_hour []).0 ≡ ok stored
      → Compacts sample_js sample_buffer before store first_hour stored)
    × ((compact sample_js sample_buffer before store first_hour []).1 ≡ [])
compact-Compacts_example = compact-Compacts sample_js sample_buffer before store first_hour []
