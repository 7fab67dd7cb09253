-- ===== src/Server/Recent/Logs/Tests.antt =====
-- A window of two logs.
use mathlib.Core.List.{reverse}
use wardx.Prelude.{eqb, length, take, drop, ℕ, ◌-◌, String, ◌≡◌, none, some, List, [], ◌∷◌, arith}
use wardx.Server.Recent.Logs.{Log, Filter, RecentLogs, ingest, query}
use wardx.Server.Recent.Logs.Window.{all_rows, select, ingest-window, query-limited}

abbrev log : ℕ → String → Log ℕ
log ts level = record { ts = ts; level = level; message = "m"; attrs = none }

abbrev frames : List (List (Log ℕ))
frames = (log 1 "info" ∷ log 2 "loud" ∷ []) ∷ (log 3 "warn" ∷ log 4 "error" ∷ []) ∷ []

abbrev empty : RecentLogs ℕ
empty = record { max = 2; buf = [] }

abbrev no_filter : Filter ℕ
no_filter = record { level = none; message = none; role = none; attrs = none; limit = some 0 }

ingest-window_example :
    (ingest frames "a" "web" empty).buf
    ≡ drop (length (all_rows frames "a" "web") - 2) (all_rows frames "a" "web")
ingest-window_example = ingest-window frames "a" "web" empty (omega arith)

query-limited_example :
    query eqb no_filter (ingest frames "a" "web" empty)
    ≡ take 1 (select eqb no_filter (reverse (ingest frames "a" "web" empty).buf))
query-limited_example = query-limited eqb no_filter (ingest frames "a" "web" empty)
