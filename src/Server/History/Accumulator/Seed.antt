-- ===== src/Server/History/Accumulator/Seed.antt =====
-- How packages/server/src/aggregation/history/HistoryAccumulator.js starts from the buckets of a store.
use wardx.Prelude.{
  if◌then◌else◌, Result, ok, ◌>>=◌, ◌>>◌, guard, String, Bool, true, false, List, [], ◌∷◌, ◌==◌,
}
use wardx.Prelude.Numbered.{put_at}
use wardx.Prelude.Js.{Js}
use wardx.Prelude.Json.{Json}
use wardx.Server.History.Sketch.{Buffer}
use wardx.Server.History.Buckets.{Tier, minute, Bucket, normalize_history_bucket}
use wardx.Server.History.Minutes.{empty_state, add_rows}
use wardx.Server.History.Accumulator.{Accumulator, remember_rows}

module _ (js : Js) (buffer : Buffer) (locale_before : String → String → Bool) where
  open js use {Number}

  pub seed : List (Bucket (Json Number)) → Accumulator Number → Result (Accumulator Number)
  seed [] a = ok a
  seed (bucket ∷ buckets) a = do
    normalized ← normalize_history_bucket js buffer locale_before bucket "history bucket"
    guard (normalized.project == a.project) "history seed must contain buckets for this project"
    let state = add_rows js normalized.rows (empty_state js normalized.project normalized.from)
    let states =
        if is_minute normalized.tier then put_at normalized.from state a.states else a.states
    seed buckets (remember_rows normalized.tier normalized.rows (record a { states = states }))
    where
      is_minute : Tier → Bool
      is_minute minute = true
      is_minute _ = false
