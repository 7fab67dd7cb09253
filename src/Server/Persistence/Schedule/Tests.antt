-- ===== src/Server/Persistence/Schedule/Tests.antt =====
-- A store that counts the buckets that it takes, with one minute of the first hour.
use wardx.Prelude.{
  ok, ℕ, ◌+◌, String, ◌≡◌, refl, Bool, true, false, Option, none, List, [], ◌∷◌, arith,
}
use wardx.Prelude.Sample.{sample_js}
use wardx.Prelude.Json.{Json}
use wardx.Server.History.Sketch.{Buffer}
use wardx.Server.History.Buckets.{
  Tier, minute, hour, Bucket, expected_width, assert_history_boundary, normalize_rows, sort_rows,
  normalize_history_bucket, merge_rows, merge_sources, merge_history_buckets,
}
use wardx.Server.History.Compactor.{
  Store, utc_bucket_start, compact, compact_work, assert_compactable, sources_of, all_finalized,
  key_of, destination_to,
}
use wardx.Server.Persistence.Schedule.{
  Candidate, Times, Work, open_until, finalizes_at, after_compaction, request_of, scan_due,
  scan_candidate,
}
use wardx.Server.Persistence.Schedule.Due.{
  Reschedules, CompactsDue, schedule_compaction-Reschedules, scan_candidate-CompactsDue,
}

abbrev buffer : Buffer
buffer = record { encode = λ bytes. ""; decode = λ text. [] }

abbrev before : String → String → Bool
before left right = false

abbrev no_starts : ℕ → String → Tier → Tier → List ℕ
no_starts world project source destination = []

abbrev times : Times
times = record {
  clock_skew_allowance = 1000;
  max_accepted_past_age = 100000;
  compaction_interval = 60000;
}

abbrev first_minute : Bucket (Json ℕ)
first_minute = record {
  project = "shop";
  tier = minute;
  from = 0;
  to = 60000;
  finalized = true;
  drop_count = 2;
  rows = [];
}

abbrev store : ℕ → Store ℕ ℕ
store world = record {
  read_buckets = λ project tier start stop. ok (first_minute ∷ []);
  replace_compacted_bucket = λ source destination bucket through. ok (world + bucket.drop_count);
}

abbrev waiting : Candidate
waiting = record { due_at = 61000; compacted_at = none }

abbrev work : Work ℕ
work = record { table = ("shop\0minute", (0, waiting) ∷ []) ∷ []; world = 0; compactions = 0 }

abbrev scanned : Option String × Work ℕ
scanned =
    scan_candidate no_starts times sample_js buffer before store "shop" minute hour 70000 0 waiting
      work

compacted : scanned.1.compactions ≡ 1
unfolding scan_candidate scan_due open_until request_of finalizes_at after_compaction compact
    compact_work assert_compactable sources_of all_finalized key_of destination_to utc_bucket_start
    expected_width merge_history_buckets merge_sources merge_rows normalize_history_bucket
    assert_history_boundary normalize_rows sort_rows
compacted = refl

scan_candidate-CompactsDue_example :
    CompactsDue no_starts times sample_js buffer before store "shop" minute hour 70000 0 waiting 0
      scanned.1.world
scan_candidate-CompactsDue_example =
    scan_candidate-CompactsDue no_starts times sample_js buffer before store "shop" minute hour
      70000 0 waiting work scanned.1 scanned.0 refl (omega (arith, compacted))

schedule_compaction-Reschedules_example :
    Reschedules no_starts times "shop" minute hour 3600000 3660000 0 work.table
schedule_compaction-Reschedules_example =
    schedule_compaction-Reschedules no_starts times "shop" minute hour 3600000 3660000 0 work.table
