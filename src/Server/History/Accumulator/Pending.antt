-- ===== src/Server/History/Accumulator/Pending.antt =====
-- What packages/server/src/aggregation/history/HistoryAccumulator.js still has to hand to the store, and
-- how much that will be. `locale_before` is `localeCompare` as in the buckets.
use wardx.Prelude.{ltb, leb, if◌then◌else◌, length, ℕ, ◌+◌, String, Bool, none, some, List, [], ◌∷◌}
use wardx.Prelude.Entries.{find}
use wardx.Prelude.Numbered.{find_at, put_at}
use wardx.Server.History.Rows.{Row}
use wardx.Server.History.Buckets.{minute, Bucket}
use wardx.Server.History.Minutes.{State, Update}
use wardx.Server.History.Accumulator.{Accumulator}

abbrev sum_of : List (ℕ × ℕ) → ℕ
sum_of [] = 0
sum_of ((_, bytes) ∷ pending) = bytes + sum_of pending

module _ {N : Type 0} where
  -- The bytes of the minutes that are not updated, and then those of the updates.
  pub pending_bytes : List (ℕ × State N) → List ℕ → List (ℕ × ℕ) → List (ℕ × ℕ)
  pending_bytes states [] pending = pending
  pending_bytes states (start ∷ dirty) pending = elim (find_at start states) [
    | none ↦ pending_bytes states dirty pending
    | some s ↦ pending_bytes states dirty (put_at start s.bytes pending)
  ]

  pub updated_bytes : List (ℕ × Update N) → List (ℕ × ℕ) → List (ℕ × ℕ)
  updated_bytes [] pending = pending
  updated_bytes ((start, u) ∷ updates) pending =
      updated_bytes updates (put_at start u.projected_bytes pending)

  -- `{ batches, bytes }`
  pub projected_pending : Accumulator N → List (ℕ × Update N) → ℕ × ℕ
  projected_pending a updates =
      let pending = updated_bytes updates (pending_bytes a.states a.dirty []) in
      (length pending, sum_of pending)

-- `sort` by `left - right`
pub insert_number : ℕ → List ℕ → List ℕ
insert_number n [] = n ∷ []
insert_number n (k ∷ numbers) =
    let rest = insert_number n numbers in if ltb k n then k ∷ rest else n ∷ k ∷ numbers

pub sort_numbers : List ℕ → List ℕ
sort_numbers [] = []
sort_numbers (n ∷ numbers) = insert_number n (sort_numbers numbers)

pub insert_key : (String → String → Bool) → String → List String → List String
insert_key locale_before key [] = key ∷ []
insert_key locale_before key (k ∷ keys) =
    let rest = insert_key locale_before key keys in
    if locale_before k key then k ∷ rest else key ∷ k ∷ keys

module _ {N : Type 0} (locale_before : String → String → Bool) where
  pub sort_keys : List (String × Row N) → List String
  sort_keys [] = []
  sort_keys ((key, _) ∷ rows) = insert_key locale_before key (sort_keys rows)

  -- `_sortedKeys`, which fills the cache.
  pub sorted_keys : State N → List String
  sorted_keys s = elim s.sorted_keys [ some keys ↦ keys | none ↦ sort_keys s.rows ]

  -- Every key is that of a row, so that the first case is no call.
  pub rows_at : List String → List (String × Row N) → List (Row N)
  rows_at [] rows = []
  rows_at (key ∷ keys) rows =
      let rest = rows_at keys rows in elim (find key rows) [ none ↦ rest | some row ↦ row ∷ rest ]

  pub minute_bucket : ℕ → Accumulator N → ℕ → State N → Bucket (Row N)
  minute_bucket now a start s = record {
    project = a.project;
    tier = minute;
    from = start;
    to = start + 60000;
    finalized = leb (start + 60000 + a.clock_skew_allowance) now;
    drop_count = 0;
    rows = rows_at (sorted_keys s) s.rows;
  }

  -- The loop of `pending` over the sorted starts; each of them has a state.
  pub pending_from : ℕ → List ℕ → Accumulator N → List (Bucket (Row N)) × Accumulator N
  pending_from now [] a = ([], a)
  pending_from now (start ∷ starts) a = elim (find_at start a.states) [
    | none ↦ pending_from now starts a
    | some s ↦
        let (buckets, after) = pending_from now starts (record a {
          states = put_at start (record s { sorted_keys = some (sorted_keys s) }) a.states;
        }) in
        (minute_bucket now a start s ∷ buckets, after)
  ]

  pub pending : ℕ → Accumulator N → List (Bucket (Row N)) × Accumulator N
  pending now a = pending_from now (sort_numbers a.dirty) a
