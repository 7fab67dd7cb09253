-- ===== src/Server/History/Accumulator.antt =====
-- The class of packages/server/src/aggregation/history/HistoryAccumulator.js: the minutes that clients
-- report, kept until the store has them. `locale_before` is `localeCompare` as in the buckets.
pub mod Counted
pub mod Pending
pub mod Seed
mod Tests
use Prim.Native.String.{◌++◌ as append}
use wardx.Prelude.{
  ltb, leb, eqb, if◌then◌else◌, length, Result, ok, ◌>>=◌, ◌>>◌, guard, ℕ, ◌+◌, String, Bool, false,
  not, ◌&&◌, ◌||◌, Option, none, some, List, [], ◌∷◌, ◌++◌, ◌==◌,
}
use wardx.Prelude.Entries.{find, put, contains}
use wardx.Prelude.Numbered.{find_at, put_at}
use wardx.Prelude.Updates.{put_all}
use wardx.Prelude.Js.{Js}
use wardx.Server.History.Sketch.{Buffer}
use wardx.Server.History.Rows.{Row}
use wardx.Server.History.Buckets.{Tier, minute, tier_name}
use wardx.Server.History.Compactor.{utc_bucket_start}
use wardx.Server.History.Input.{Client, Frame, Envelope, history_rows}
use wardx.Server.History.Minutes.{State, Update, empty_state, update_rows, new_update}

pub record Accumulator (N : Type 0) : Type 0 where
  pub project : String
  pub clock_skew_allowance : ℕ
  pub max_app_versions : ℕ
  pub states : List (ℕ × State N)
  pub dirty : List ℕ
  pub versions_by_role : List (String × List String)

-- What `prepare` returns: an update for each minute, by its start.
pub record Prepared (N : Type 0) : Type 0 where
  pub role : String
  pub app_version : String
  pub updates : List (ℕ × Update N)

abbrev pub or_empty : Option (List String) → List String
or_empty none = []
or_empty (some versions) = versions

abbrev pub add_once : String → List String → List String
add_once version versions = if contains versions version then versions else versions ++ version ∷ []

abbrev pub contains_at : ℕ → List ℕ → Bool
contains_at n [] = false
contains_at n (k ∷ numbers) = eqb k n || contains_at n numbers

abbrev pub without_at : ℕ → List ℕ → List ℕ
without_at n [] = []
without_at n (k ∷ numbers) = if eqb k n then without_at n numbers else k ∷ without_at n numbers

module _ {N : Type 0} where
  pub create : String → ℕ → ℕ → Result (Accumulator N)
  create project allowance max_versions = do
    guard (not (project == "")) "history project is required"
    guard (not (ltb allowance 1)) "history clockSkewAllowanceMs must be an integer >= 1"
    guard (not (ltb max_versions 1))
        "history maxAppVersionsPerProjectRoleTier must be an integer >= 1"
    ok (record {
      project = project;
      clock_skew_allowance = allowance;
      max_app_versions = max_versions;
      states = [];
      dirty = [];
      versions_by_role = [];
    })

  -- `_rememberVersion`
  pub remember_version : Tier → String → String → Accumulator N → Accumulator N
  remember_version tier role version a =
      let key = append (tier_name tier) (append "\0" role) in
      record a {
        versions_by_role =
            put key (add_once version (or_empty (find key a.versions_by_role))) a.versions_by_role;
      }

  pub remember_rows : Tier → List (Row N) → Accumulator N → Accumulator N
  remember_rows tier [] a = a
  remember_rows tier (row ∷ rows) a =
      remember_rows tier rows (remember_version tier row.common.role row.common.app_version a)

  -- `versions && !versions.has(appVersion) && versions.size >= this.maxAppVersions`
  pub exceeds_versions : Accumulator N → String → String → Bool
  exceeds_versions a role version =
      elim (find (append "minute" (append "\0" role)) a.versions_by_role) [
        | none ↦ false
        | some versions ↦
            not (contains versions version) && leb a.max_app_versions (length versions)
      ]

  abbrev pub clear_if_new : List (String × Row N) → State N → Option (List String)
  clear_if_new [] s = s.sorted_keys
  clear_if_new ((key, _) ∷ rows) s = elim (find key s.rows) [
    | none ↦ none
    | some _ ↦ clear_if_new rows s
  ]

  -- The body of the loop of `commit`.
  pub commit_update : Update N → State N → State N
  commit_update u s = record {
    rows = put_all u.rows s.rows;
    row_bytes = put_all u.row_bytes s.row_bytes;
    sorted_keys = clear_if_new u.rows s;
    bytes = u.projected_bytes;
  }

  -- `acknowledge`, of the starts of the buckets.
  pub acknowledge : List ℕ → Accumulator N → Accumulator N
  acknowledge [] a = a
  acknowledge (start ∷ starts) a =
      acknowledge starts (record a { dirty = without_at start a.dirty })

  pub kept_states : ℕ → List ℕ → List (ℕ × State N) → List (ℕ × State N)
  kept_states through dirty [] = []
  kept_states through dirty ((start, s) ∷ states) =
      let rest = kept_states through dirty states in
      if leb (start + 60000) through && not (contains_at start dirty)
      then rest
      else (start, s) ∷ rest

  pub prune_persisted : ℕ → Accumulator N → Accumulator N
  prune_persisted through a = record a { states = kept_states through a.dirty a.states }

module _ (js : Js) where
  open js use {Number}

  -- `this.states.get(from) || emptyState(this.project, from)`
  abbrev pub state_or_empty : Accumulator Number → ℕ → State Number
  state_or_empty a start = elim (find_at start a.states) [
    | none ↦ empty_state js a.project start
    | some s ↦ s
  ]

  -- `updates.get(from)`, or a new update.
  abbrev pub found_or_new : State Number → Option (Update Number) → Update Number
  found_or_new base none = new_update js base
  found_or_new base (some u) = u

  pub commit_updates : List (ℕ × Update Number) → Accumulator Number → Accumulator Number
  commit_updates [] a = a
  commit_updates ((start, u) ∷ updates) a = commit_updates updates (record a {
    states = put_at start (commit_update u (state_or_empty a start)) a.states;
    dirty = if contains_at start a.dirty then a.dirty else a.dirty ++ start ∷ [];
  })

  pub commit : Prepared Number → Accumulator Number → Accumulator Number
  commit p a = commit_updates p.updates (remember_version minute p.role p.app_version a)

  module _ (buffer : Buffer) where
    -- The loop over the frames; `updates` are the entries of the `Map`.
    pub update_frames :
        Accumulator Number
        → Client
        → List String
        → List (Frame Number)
        → List (ℕ × Update Number)
        → Result (List (ℕ × Update Number))
    update_frames a client persist_logs [] updates = ok updates
    update_frames a client persist_logs (frame ∷ frames) updates = do
      let start = utc_bucket_start frame.from minute
      let base = state_or_empty a start
      u ←
          update_rows js buffer 0 (history_rows js client frame persist_logs) base
            (found_or_new base (find_at start updates))
      update_frames a client persist_logs frames (put_at start u updates)

    pub prepare : Accumulator Number → Envelope Number → List String → Result (Prepared Number)
    prepare a envelope persist_logs = do
      guard (not (exceeds_versions a envelope.client.role envelope.client.app_version))
          (append "historical app-version cap exceeded for role " envelope.client.role)
      updates ← update_frames a envelope.client persist_logs envelope.frames []
      ok (record {
        role = envelope.client.role;
        app_version = envelope.client.app_version;
        updates = updates;
      })

    -- The answer says whether there was a frame.
    pub ingest :
        Envelope Number → List String → Accumulator Number → Result (Bool × Accumulator Number)
    ingest envelope persist_logs a = do
      prepared ← prepare a envelope persist_logs
      ok (ltb 0 (length prepared.updates), commit prepared a)
