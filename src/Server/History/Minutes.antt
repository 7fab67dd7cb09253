-- ===== src/Server/History/Minutes.antt =====
-- The minutes that packages/server/src/aggregation/history/HistoryAccumulator.js keeps, with the bytes
-- of their JSON, and what a frame makes of them before it is committed.
pub mod Counted
use Prim.Native.String.{◌++◌ as append}
use wardx.Prelude.{
  ltb, leb, if◌then◌else◌, length, Result, ok, ◌>>=◌, ◌>>◌, ℕ, ◌+◌, ◌-◌, String, false, Option,
  none, some, List, [], ◌∷◌,
}
use wardx.Prelude.Entries.{find, put}
use wardx.Prelude.Updates.{or_else}
use wardx.Prelude.Js.{Js}
use wardx.Prelude.Json.{Json, Items, bool, num, str, arr, obj, nil, cons, end, field}
use wardx.Server.History.Sketch.{Buffer}
use wardx.Server.History.Rows.{Row}
use wardx.Server.History.Series.{
  normalize_historical_row, historical_series_key, merge_historical_row,
}
use wardx.Server.History.Bytes.{json_bytes, row_json, row_bytes, merged_row_bytes}

-- `emptyState` and what becomes of it; `sorted_keys` is a cache.
pub record State (N : Type 0) : Type 0 where
  pub rows : List (String × Row N)
  pub row_bytes : List (String × ℕ)
  pub sorted_keys : Option (List String)
  pub bytes : ℕ

-- What frames add to a minute.
pub record Update (N : Type 0) : Type 0 where
  pub rows : List (String × Row N)
  pub row_bytes : List (String × ℕ)
  pub projected_bytes : ℕ
  pub added : ℕ

-- The bytes that a row and its comma make more, after so many rows.
abbrev pub grown : Option ℕ → ℕ → ℕ → ℕ → ℕ
grown none bytes next rows = bytes + (if ltb 0 rows then 1 else 0) + next
grown (some previous) bytes next rows = bytes + next - previous

module _ (js : Js) where
  open js use {Number, of_nat}

  pub row_items : List (String × Row Number) → Items Number
  row_items [] = nil
  row_items ((_, row) ∷ rows) = cons (row_json js row) (row_items rows)

  -- The JSON of the bucket of a minute.
  pub minute_json : String → ℕ → List (String × Row Number) → Json Number
  minute_json project start rows = obj (
      field "project" (str project) (
        field "tier" (str "minute") (
          field "from" (num (of_nat start)) (
            field "to" (num (of_nat (start + 60000))) (
              field "finalized" (bool false)
                (field "dropCount" (num (of_nat 0)) (field "rows" (arr (row_items rows)) end)))))))

  pub bucket_bytes : String → ℕ → List (String × Row Number) → ℕ
  bucket_bytes project start rows = json_bytes js (minute_json project start rows)

  unfoldable pub empty_state : String → ℕ → State Number
  empty_state project start = record {
    rows = [];
    row_bytes = [];
    sorted_keys = none;
    bytes = bucket_bytes project start [];
  }

  -- The loop of `stateFromBucket`.
  pub add_rows : List (Row Number) → State Number → State Number
  add_rows [] s = s
  add_rows (row ∷ rows) s =
      let comma = if leb (length s.rows) 0 then 0 else 1 in
      add_rows rows (record s {
        rows = put (historical_series_key js row) row s.rows;
        row_bytes = put (historical_series_key js row) (row_bytes js row) s.row_bytes;
        bytes = s.bytes + comma + row_bytes js row;
      })

  -- `previousBytes === undefined ? rowBytes(merged) : mergedRowBytes(previousBytes, current, merged)`;
  -- a row and its bytes have the same keys, so that the second case is no call.
  abbrev pub next_bytes : Option ℕ → Option (Row Number) → Row Number → ℕ
  next_bytes none current merged = row_bytes js merged
  next_bytes (some previous) none merged = row_bytes js merged
  next_bytes (some previous) (some current) merged = merged_row_bytes js previous current merged

  -- What one row that was merged with the row so far makes of an update, if there is one; `previous`
  -- are the bytes so far.
  unfoldable pub extend :
      Option ℕ → ℕ → String → Option (Row Number) → Row Number → Update Number → Update Number
  extend previous base_rows key current merged u = record {
    rows = put key merged u.rows;
    row_bytes = put key (next_bytes previous current merged) u.row_bytes;
    projected_bytes =
        grown previous u.projected_bytes (next_bytes previous current merged) (base_rows + u.added);
    added = elim previous [ none ↦ u.added + 1 | some _ ↦ u.added ];
  }

  unfoldable pub add_row :
      State Number → String → Option (Row Number) → Row Number → Update Number → Update Number
  add_row base key current merged u =
      extend (or_else (find key u.row_bytes) (find key base.row_bytes)) (length base.rows) key
        current merged u

  unfoldable pub merge_with : Buffer → Option (Row Number) → Row Number → Result (Row Number)
  merge_with buffer none row = ok row
  merge_with buffer (some current) row = merge_historical_row js buffer current row

  -- The loop over the rows of a frame.
  unfoldable pub update_rows :
      Buffer → ℕ → List (Json Number) → State Number → Update Number → Result (Update Number)
  update_rows buffer index [] base u = ok u
  update_rows buffer index (input ∷ inputs) base u = do
    row ←
        normalize_historical_row js buffer input
          (append "history bucket.rows[" (append (js.show (of_nat index)) "]"))
    let key = historical_series_key js row
    let current = or_else (find key u.rows) (find key base.rows)
    merged ← merge_with buffer current row
    update_rows buffer (index + 1) inputs base (add_row base key current merged u)

  unfoldable pub new_update : State Number → Update Number
  new_update base = record { rows = []; row_bytes = []; projected_bytes = base.bytes; added = 0 }
