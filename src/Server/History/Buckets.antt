-- ===== src/Server/History/Buckets.antt =====
-- The buckets of packages/server/src/aggregation/history/HistoryBucket.js and their merge. Times are
-- milliseconds since 1970, and a bucket that comes from outside still has the rows as parsed JSON.
-- `locale_before` says of two keys that `localeCompare` puts the first before the second.
pub mod Totals
mod Tests
use Prim.Native.String.{◌++◌ as append}
use wardx.Prelude.{
  leb, eqb, if◌then◌else◌, Result, ok, ◌>>=◌, ◌>>◌, guard, ℕ, ◌+◌, ◌%◌, String, Bool, not, ◌&&◌,
  none, some, List, [], ◌∷◌, ◌==◌,
}
use wardx.Prelude.Entries.{find, put}
use wardx.Prelude.Js.{Js}
use wardx.Prelude.Json.{Json}
use wardx.Server.History.Sketch.{Buffer}
use wardx.Server.History.Rows.{Row}
use wardx.Server.History.Series.{
  normalize_historical_row, historical_series_key, merge_historical_row,
}

pub data Tier : Type 0 where
  minute : Tier
  hour : Tier
  day : Tier

abbrev pub tier_name : Tier → String
tier_name minute = "minute"
tier_name hour = "hour"
tier_name day = "day"

-- `rows` are JSON in a bucket that is to be checked.
pub record Bucket (R : Type 0) : Type 0 where
  pub project : String
  pub tier : Tier
  pub from : ℕ
  pub to : ℕ
  pub finalized : Bool
  pub drop_count : ℕ
  pub rows : List R

unfoldable pub expected_width : Tier → ℕ
expected_width minute = 60000
expected_width hour = 3600000
expected_width day = 86400000

unfoldable pub assert_history_boundary : Tier → ℕ → ℕ → String → Result (Unit {0})
assert_history_boundary tier start stop label =
    let width = expected_width tier in
    guard (eqb (start % width) 0 && eqb stop (start + width))
      (append label (append " must have a UTC-aligned " (append (tier_name tier) " boundary")))

abbrev pub values_of : {A : Type 0} → List (String × A) → List A
values_of [] = []
values_of ((_, a) ∷ entries) = a ∷ values_of entries

module _ (js : Js) (buffer : Buffer) where
  open js use {Number, of_nat, show}

  unfoldable pub normalize_rows : ℕ → List (Json Number) → String → Result (List (Row Number))
  normalize_rows index [] label = ok []
  normalize_rows index (row ∷ rows) label = do
    first ←
        normalize_historical_row js buffer row
          (append label (append ".rows[" (append (show (of_nat index)) "]")))
    rest ← normalize_rows (index + 1) rows label
    ok (first ∷ rest)

  -- The loop over the rows of a source; `merged` are the entries of the `Map`.
  unfoldable pub merge_rows :
      List (Row Number) → List (String × Row Number) → Result (List (String × Row Number))
  merge_rows [] merged = ok merged
  merge_rows (incoming ∷ rows) merged = elim (find (historical_series_key js incoming) merged) [
    | none ↦ merge_rows rows (put (historical_series_key js incoming) incoming merged)
    | some existing ↦ merge_historical_row js buffer existing incoming >>= λ row.
        merge_rows rows (put (historical_series_key js incoming) row merged)
  ]

  module _ (locale_before : String → String → Bool) where
    -- `sort` keeps the order of rows with one key.
    pub insert_row : Row Number → List (Row Number) → List (Row Number)
    insert_row row [] = row ∷ []
    insert_row row (r ∷ rows) =
        let rest = insert_row row rows in
        if locale_before (historical_series_key js r) (historical_series_key js row)
        then r ∷ rest
        else row ∷ r ∷ rows

    unfoldable pub sort_rows : List (Row Number) → List (Row Number)
    sort_rows [] = []
    sort_rows (row ∷ rows) = insert_row row (sort_rows rows)

    unfoldable pub normalize_history_bucket :
        Bucket (Json Number) → String → Result (Bucket (Row Number))
    normalize_history_bucket bucket label = do
      assert_history_boundary bucket.tier bucket.from bucket.to label
      rows ← normalize_rows 0 bucket.rows label
      guard (not (bucket.project == "")) (append label ".project must be a non-empty string")
      ok (record {
        project = bucket.project;
        tier = bucket.tier;
        from = bucket.from;
        to = bucket.to;
        finalized = bucket.finalized;
        drop_count = bucket.drop_count;
        rows = sort_rows rows;
      })

    -- The loop over the sources, with the drops so far.
    unfoldable pub merge_sources :
        Bucket (Json Number)
        → ℕ
        → List (Bucket (Json Number))
        → ℕ
        → List (String × Row Number)
        → Result (ℕ × List (String × Row Number))
    merge_sources target index [] drops merged = ok (drops, merged)
    merge_sources target index (bucket ∷ buckets) drops merged = do
      source ←
          normalize_history_bucket bucket
            (append "sourceBuckets[" (append (show (of_nat index)) "]"))
      guard
          ((source.project == target.project)
            && leb target.from source.from
            && leb source.to target.to)
          "source bucket falls outside the destination bucket"
      rows ← merge_rows source.rows merged
      merge_sources target (index + 1) buckets (drops + source.drop_count) rows

    -- `target` has the `project`, `tier`, `from`, `to` and `finalized` of the argument, no drops and no
    -- rows.
    unfoldable pub merge_history_buckets :
        Bucket (Json Number) → List (Bucket (Json Number)) → Result (Bucket (Row Number))
    merge_history_buckets target sources = do
      expected ← normalize_history_bucket target "history bucket"
      (drops, merged) ← merge_sources target 0 sources 0 []
      ok (record expected { drop_count = drops; rows = sort_rows (values_of merged) })
