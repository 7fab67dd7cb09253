-- ===== src/Server/Persistence/Schedule.antt =====
-- The schedule of compactions in packages/server/src/control/PersistenceCoordinator.js: which
-- destinations are to be compacted, and when. `World` is what the state store holds.
pub mod Due
mod Tests
use Prim.Native.String.{◌++◌ as append}
use wardx.Prelude.{
  ltb, leb, if◌then◌else◌, ok, err, ℕ, ◌+◌, max, String, Bool, Option, none, some, List, [], ◌∷◌,
}
use wardx.Prelude.Entries.{find, put}
use wardx.Prelude.Numbered.{find_at, put_at, remove_at}
use wardx.Prelude.Js.{Js}
use wardx.Prelude.Json.{Json}
use wardx.Server.History.Sketch.{Buffer}
use wardx.Server.History.Buckets.{Tier, minute, hour, day, tier_name, Bucket}
use wardx.Server.History.Compactor.{Store, Request, utc_bucket_start, compact}

pub record Candidate : Type 0 where
  pub due_at : ℕ
  pub compacted_at : Option ℕ

-- `config.history`, in milliseconds
pub record Times : Type 0 where
  pub clock_skew_allowance : ℕ
  pub max_accepted_past_age : ℕ
  pub compaction_interval : ℕ

-- `compactionCandidates`, by project and tier of the sources, and then by the start of the destination.
abbrev pub Table : Type 0
Table = List (String × List (ℕ × Candidate))

abbrev pub table_key : String → Tier → String
table_key project source_tier = append project (append "\0" (tier_name source_tier))

pub initial_candidates : List ℕ → List (ℕ × Candidate) → List (ℕ × Candidate)
initial_candidates [] candidates = candidates
initial_candidates (start ∷ starts) candidates =
    initial_candidates starts (put_at start (record { due_at = 0; compacted_at = none }) candidates)

abbrev pub found_or_initial : Option (List (ℕ × Candidate)) → List ℕ → List (ℕ × Candidate)
found_or_initial none starts = initial_candidates starts []
found_or_initial (some candidates) starts = candidates

pub source_allowance : Times → Tier → ℕ
source_allowance times minute = times.clock_skew_allowance
source_allowance times _ = times.max_accepted_past_age

pub postponed : ℕ → ℕ → ℕ → Option ℕ → Candidate
postponed interval closes_at due_at none = record {
  due_at = max due_at closes_at;
  compacted_at = none;
}
postponed interval closes_at due_at (some before) = record {
  due_at = max closes_at (before + interval);
  compacted_at = none;
}

pub rescheduled : ℕ → ℕ → Option Candidate → Candidate
rescheduled interval closes_at none = record { due_at = closes_at; compacted_at = none }
rescheduled interval closes_at (some c) = postponed interval closes_at c.due_at c.compacted_at

abbrev pub destination_width : Tier → ℕ
destination_width hour = 3600000
destination_width _ = 86400000

-- The latest close of the sources that are open, if there is one.
pub open_until : {R : Type 0} → ℕ → List (Bucket R) → Option ℕ
open_until allowance [] = none
open_until allowance (bucket ∷ buckets) =
    let rest = open_until allowance buckets in
    if bucket.finalized
    then rest
    else some (elim rest [
      | none ↦ bucket.to + allowance
      | some other ↦ max (bucket.to + allowance) other
    ])

-- What the coordinator changes while it scans.
pub record Work (World : Type 0) : Type 0 where
  pub table : Table
  pub world : World
  pub compactions : ℕ

module _ {World : Type 0} (compaction_starts : World → String → Tier → Tier → List ℕ)
    (times : Times) where
  -- `_candidates`
  pub candidates_of : String → Tier → Tier → World → Table → List (ℕ × Candidate)
  candidates_of project source_tier destination_tier world table =
      found_or_initial (find (table_key project source_tier) table)
        (compaction_starts world project source_tier destination_tier)

  -- `_scheduleCompaction`, with the bounds of the source.
  pub schedule_compaction : String → Tier → Tier → ℕ → ℕ → World → Table → Table
  schedule_compaction project source_tier destination_tier from to world table =
      let candidates = candidates_of project source_tier destination_tier world table in
      let start = utc_bucket_start from destination_tier in
      put (table_key project source_tier)
        (put_at start
          (rescheduled times.compaction_interval (to + source_allowance times source_tier)
            (find_at start candidates))
          candidates)
        table

  module _ (js : Js) (buffer : Buffer) (locale_before : String → String → Bool)
      (store : World → Store js.Number World) where
    -- The change of the candidates that are scanned.
    abbrev write_candidates :
        String
        → Tier
        → Tier
        → (List (ℕ × Candidate) → List (ℕ × Candidate))
        → Work World
        → Work World
    write_candidates project source_tier destination_tier change w = record w {
      table =
          put (table_key project source_tier)
            (change (candidates_of project source_tier destination_tier w.world w.table)) w.table;
    }

    abbrev day_scheduled : String → Tier → ℕ → Work World → Work World
    day_scheduled project hour start w = record w {
      table = schedule_compaction project hour day start (start + 3600000) w.world w.table;
    }
    day_scheduled project _ start w = w

    pub finalizes_at : Tier → ℕ → ℕ
    finalizes_at destination_tier start =
        start + destination_width destination_tier + times.max_accepted_past_age

    -- What follows a compaction: the end of the loop's body.
    pub after_compaction : String → Tier → Tier → ℕ → ℕ → Work World → Work World
    after_compaction project source_tier destination_tier now start w =
        let scheduled = day_scheduled project destination_tier start w in
        let final = finalizes_at destination_tier start in
        let written =
          write_candidates project source_tier destination_tier
            (if leb final now
              then remove_at start
              else put_at start (record { due_at = final; compacted_at = some now }))
            scheduled in
        record written { compactions = w.compactions + 1 }

    pub request_of :
        String → Tier → Tier → ℕ → ℕ → List (Bucket (Json js.Number)) → Request js.Number
    request_of project source_tier destination_tier now start sources = record {
      project = project;
      source_tier = source_tier;
      destination_tier = destination_tier;
      destination_from = start;
      finalized = leb (finalizes_at destination_tier start) now;
      source_buckets = some sources;
    }

    -- The body of the loop for a candidate that is due, with its sources. The first part is the error
    -- that ends the scan.
    pub scan_due :
        String
        → Tier
        → Tier
        → ℕ
        → ℕ
        → List (Bucket (Json js.Number))
        → Work World
        → Option String × Work World
    scan_due project source_tier destination_tier now start [] w =
        (none, write_candidates project source_tier destination_tier (remove_at start) w)
    scan_due project source_tier destination_tier now start (source ∷ sources) w =
        elim (open_until (source_allowance times source_tier) (source ∷ sources)) [
          | some until ↦ (
            none,
            write_candidates project source_tier destination_tier
                (put_at start (record { due_at = until; compacted_at = none })) w,
          )
          | none ↦
              elim ((compact js buffer locale_before (store w.world)
                (request_of project source_tier destination_tier now start (source ∷ sources))
                []).0) [
                  | err e ↦ (some e, w)
                  | ok world ↦ (
                    none,
                    after_compaction project source_tier destination_tier now start
                        (record w { world = world }),
                  )
                ]
        ]

    pub scan_candidate :
        String → Tier → Tier → ℕ → ℕ → Candidate → Work World → Option String × Work World
    scan_candidate project source_tier destination_tier now start candidate w =
        if ltb now candidate.due_at
        then (none, w)
        else elim ((store w.world).read_buckets project source_tier start
            (start + destination_width destination_tier)) [
              | err e ↦ (some e, w)
              | ok sources ↦ scan_due project source_tier destination_tier now start sources w
            ]

    -- `_scanCompaction` over the entries of the `Map`; each changes its own entry only.
    pub scan_candidates :
        String → Tier → Tier → ℕ → List (ℕ × Candidate) → Work World → Option String × Work World
    scan_candidates project source_tier destination_tier now [] w = (none, w)
    scan_candidates project source_tier destination_tier now ((start, c) ∷ candidates) w =
        let (error, after) = scan_candidate project source_tier destination_tier now start c w in
        elim error [
          | some e ↦ (some e, after)
          | none ↦ scan_candidates project source_tier destination_tier now candidates after
        ]

    pub scan_compaction : String → Tier → Tier → ℕ → Work World → Option String × Work World
    scan_compaction project source_tier destination_tier now w =
        scan_candidates project source_tier destination_tier now
          (candidates_of project source_tier destination_tier w.world w.table)
          (write_candidates project source_tier destination_tier (λ candidates. candidates) w)
