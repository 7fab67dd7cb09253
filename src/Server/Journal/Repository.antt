-- ===== src/Server/Journal/Repository.antt =====
-- packages/server/src/storage/SqliteMutationRepository.js over commitProjectMutation of
-- packages/server/src/storage/SqliteStateStore.js, for one project that is there. A `Snapshot` stands
-- for its row of `project_state` and its rows of `mutation_journal` in the order of their ids. `fault`
-- is what is thrown within the transaction, if anything is, by the database or since the transaction
-- took too long; SQLite then rolls back, so that the tables are as before. The two shapes of a state,
-- normalize and denormalize, are not told apart.
use Prim.Native.String.{◌++◌ as append}
use wardx.Prelude.{
  ltb, leb, eqb, length, drop, Result, ok, err, ◌>>=◌, ◌>>◌, guard, ℕ, ◌-◌, String, Option, none,
  some, List, [], ◌∷◌, ◌++◌,
}
use wardx.Prelude.Json.{Json}
use wardx.Server.Journal.{Library, Outcome, done, conflict, failed, thrown, Entry, Snapshot}

-- `ORDER BY id DESC LIMIT ?`, then `reverse`.
unfoldable pub newest {ℓ} : {A : Type ℓ} → ℕ → List A → List A
newest n rows = drop (length rows - n) rows

-- `at(-1)`
unfoldable pub last_entry {ℓ} : {A : Type ℓ} → List A → Option A
last_entry [] = none
last_entry (row ∷ []) = some row
last_entry (row ∷ second ∷ rows) = last_entry (second ∷ rows)

abbrev no_fault : Option String → Result (Unit {0})
no_fault none = ok tt
no_fault (some e) = err e

module _ (js : Library) {N : Type 0} (capacity : ℕ) where
  unfoldable pub read : Snapshot N → Snapshot N
  read table = record table { changes = newest capacity table.changes }

  module _ (fault : Option String) where
    -- `commitProjectMutation`: the new state and the new row are written, and the rows that are not
    -- among the newest are deleted.
    unfoldable pub commit_project_mutation :
        ℕ → ℕ → Json N → Entry N → Snapshot N → Result (Snapshot N)
    commit_project_mutation previous_version new_version state entry table = do
      guard (ltb previous_version new_version)
          "mutation versions must be integers with newVersion > previousVersion"
      guard (eqb table.version previous_version)
          (append "project version conflict: current version is " (js.show table.version))
      guard (leb 1 capacity) "journalCapacity must be an integer >= 1"
      no_fault fault
      ok (record {
        version = new_version;
        state = state;
        changes = newest capacity (table.changes ++ entry ∷ []);
      })

    -- What follows `work` in `transact`: only the last of the changes is stored.
    unfoldable pub store_output :
        {R : Type 0} → Snapshot N → R → Option (Entry N) → Snapshot N → Outcome (Snapshot N × R)
    store_output next result none table =
        failed "Cannot read properties of undefined (reading 'timestamp')"
    store_output next result (some appended) table = thrown (do
      stored ← commit_project_mutation (read table).version next.version next.state appended table
      ok (stored, result))

    unfoldable pub transact_stored :
        {R : Type 0}
        → (Snapshot N → Outcome (Snapshot N × R))
        → Snapshot N
        → Outcome (Snapshot N × R)
    transact_stored work table = elim (work (read table)) [
      | done (next, result) ↦ store_output next result (last_entry next.changes) table
      | conflict version ↦ conflict version
      | failed e ↦ failed e
    ]
