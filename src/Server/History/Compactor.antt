-- ===== src/Server/History/Compactor.antt =====
-- packages/server/src/aggregation/history/HistoricalCompactor.js: the buckets of a tier become one of
-- the next. The store is what `replaceCompactedBucket` and `readBuckets` do.
pub mod Closed
mod Tests
use Prim.Native.String.{◌++◌ as append}
use wardx.Prelude.{
  eqb, if◌then◌else◌, Result, ok, err, ◌>>=◌, ◌>>◌, guard, ℕ, ◌+◌, ◌*◌, ◌/◌, String, Bool, true,
  false, not, ◌&&◌, Option, none, some, List, [], ◌∷◌, ◌==◌,
}
use wardx.Prelude.Entries.{contains}
use wardx.Prelude.Js.{Js}
use wardx.Prelude.Json.{Json}
use wardx.Server.History.Sketch.{Buffer}
use wardx.Server.History.Rows.{Row}
use wardx.Server.History.Buckets.{
  Tier, minute, hour, day, tier_name, Bucket, expected_width, merge_history_buckets,
}

-- The width is that of `WIDTH`, and a clock gives finite numbers only.
unfoldable pub utc_bucket_start : ℕ → Tier → ℕ
utc_bucket_start timestamp tier = timestamp / expected_width tier * expected_width tier

-- The pairs of tiers that `compact` takes.
abbrev pub is_next : Tier → Tier → Bool
is_next minute hour = true
is_next hour day = true
is_next _ _ = false

-- `delete` of a `Set`.
abbrev pub without : String → List String → List String
without key [] = []
without key (k ∷ keys) = if k == key then without key keys else k ∷ without key keys

-- `Stored` is what the store answers.
pub record Store (N Stored : Type 0) : Type 0 where
  pub read_buckets : String → Tier → ℕ → ℕ → Result (List (Bucket (Json N)))
  pub replace_compacted_bucket : Tier → Tier → Bucket (Row N) → ℕ → Result Stored

-- The argument of `compact`.
pub record Request (N : Type 0) : Type 0 where
  pub project : String
  pub source_tier : Tier
  pub destination_tier : Tier
  pub destination_from : ℕ
  pub finalized : Bool
  pub source_buckets : Option (List (Bucket (Json N)))

module _ {N : Type 0} where
  unfoldable pub key_of : Request N → String
  key_of r =
      append r.project (
        append "\0" (append (tier_name r.source_tier) (append "\0" (tier_name r.destination_tier))))

  unfoldable pub destination_to : Request N → ℕ
  destination_to r =
      utc_bucket_start r.destination_from r.destination_tier + expected_width r.destination_tier

  unfoldable pub assert_compactable : Request N → List String → Result (Unit {0})
  assert_compactable r in_flight = do
    guard (is_next r.source_tier r.destination_tier)
        "compaction tier pair must be minute-to-hour or hour-to-day"
    guard (eqb (utc_bucket_start r.destination_from r.destination_tier) r.destination_from)
        "destinationFrom must be UTC aligned"
    guard (not (contains in_flight (key_of r)))
        "compaction is already in flight for project and tier"

  unfoldable pub sources_of :
      {Stored : Type 0} → Store N Stored → Request N → Result (List (Bucket (Json N)))
  sources_of store r = elim r.source_buckets [
    | some buckets ↦ ok buckets
    | none ↦
        store.read_buckets r.project r.source_tier
          (utc_bucket_start r.destination_from r.destination_tier) (destination_to r)
  ]

  unfoldable pub all_finalized : List (Bucket (Json N)) → Bool
  all_finalized [] = true
  all_finalized (bucket ∷ buckets) = bucket.finalized && all_finalized buckets

  -- The empty bucket that names the destination.
  abbrev pub target_of : Request N → Bucket (Json N)
  target_of r = record {
    project = r.project;
    tier = r.destination_tier;
    from = utc_bucket_start r.destination_from r.destination_tier;
    to = destination_to r;
    finalized = r.finalized;
    drop_count = 0;
    rows = [];
  }

module _ (js : Js) (buffer : Buffer) (locale_before : String → String → Bool)
    {Stored : Type 0} where
  open js use {Number}

  -- What stands under `try`.
  unfoldable pub compact_work : Store Number Stored → Request Number → Result Stored
  compact_work store r = do
    sources ← sources_of store r
    guard (all_finalized sources) "compaction requires closed source buckets"
    bucket ← merge_history_buckets js buffer locale_before (target_of r) sources
    store.replace_compacted_bucket r.source_tier r.destination_tier bucket (destination_to r)

  -- The result, and the keys in flight after it; the store runs while the key is among them.
  unfoldable pub compact :
      Store Number Stored → Request Number → List String → Result Stored × List String
  compact store r in_flight = elim (assert_compactable r in_flight) [
    | err e ↦ (err e, in_flight)
    | ok _ ↦ (compact_work store r, without (key_of r) (key_of r ∷ in_flight))
  ]
