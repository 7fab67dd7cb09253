-- ===== src/Server/Recent/Logs.antt =====
-- packages/server/src/logs/RecentLogs.js: the last logs, the oldest first. `same` is `===` on the
-- values of attributes.
pub mod Window
mod Tests
use mathlib.Core.List.{reverse}
use wardx.Prelude.{
  leb, if◌then◌else◌, ℕ, ◌+◌, max, String, Bool, true, false, not, ◌&&◌, ◌||◌, Option, none, some,
  List, [], ◌∷◌, ◌++◌, ◌==◌,
}
use wardx.Server.Recent.Events.{Attrs, text_matches, attrs_match}
use wardx.Server.Recent.Shift.{shift_to}

-- `LOG_LEVELS.has(level)`
pub is_level : String → Bool
is_level level =
    (level == "debug") || ((level == "info") || ((level == "warn") || (level == "error")))

module _ (V : Type 0) where
  pub record Row : Type 0 where
    pub ts : ℕ
    pub level : String
    pub message : String
    pub attrs : Attrs V
    pub instance_id : String
    pub role : String

  -- A row of a frame's logs. `ts` is a finite number.
  pub record Log : Type 0 where
    pub ts : ℕ
    pub level : String
    pub message : String
    pub attrs : Attrs V

  pub record RecentLogs : Type 0 where
    pub max : ℕ
    pub buf : List Row

  pub record Filter : Type 0 where
    pub level : Option String
    pub message : Option String
    pub role : Option String
    pub attrs : Attrs V
    pub limit : Option ℕ

module _ {V : Type 0} where
  pub create : ℕ → RecentLogs V
  create max = record { max = max; buf = [] }

  pub row_of : Log V → String → String → Row V
  row_of log instance_id role = record {
    ts = log.ts;
    level = log.level;
    message = log.message;
    attrs = log.attrs;
    instance_id = instance_id;
    role = role;
  }

  -- The checks of `_push`.
  pub is_row : Log V → Bool
  is_row log = is_level log.level && not (log.message == "")

  -- `_push`
  pub push : Log V → String → String → RecentLogs V → RecentLogs V
  push log instance_id role s =
      if is_row log
      then record s { buf = shift_to s.max (s.buf ++ row_of log instance_id role ∷ []) }
      else s

  pub push_logs : List (Log V) → String → String → RecentLogs V → RecentLogs V
  push_logs [] instance_id role s = s
  push_logs (log ∷ logs) instance_id role s =
      push_logs logs instance_id role (push log instance_id role s)

  -- `ingest`, on the logs of each frame of the envelope.
  pub ingest : List (List (Log V)) → String → String → RecentLogs V → RecentLogs V
  ingest [] instance_id role s = s
  ingest (logs ∷ frames) instance_id role s =
      ingest frames instance_id role (push_logs logs instance_id role s)

  module _ (same : V → V → Bool) where
    pub matches : Filter V → Row V → Bool
    matches filter row =
        text_matches filter.level row.level
        && (text_matches filter.message row.message
            && (text_matches filter.role row.role && attrs_match same row.attrs filter.attrs))

    -- `filter.limit !== undefined && filter.limit !== null && out.length >= filter.limit`
    abbrev pub is_full : Option ℕ → ℕ → Bool
    is_full none found = false
    is_full (some limit) found = leb limit found

    -- The loop of `query`, from the last row down; `found` rows are in `out`.
    pub query_from : Filter V → ℕ → List (Row V) → List (Row V)
    query_from filter found [] = []
    query_from filter found (row ∷ rows) = elim (matches filter row) [
      | false ↦ query_from filter found rows
      | true ↦ row ∷ (elim (is_full filter.limit (found + 1)) [
        | true ↦ []
        | false ↦ query_from filter (found + 1) rows
      ])
    ]

    pub query : Filter V → RecentLogs V → List (Row V)
    query filter s = query_from filter 0 (reverse s.buf)
