-- ===== src/Server/Journal/Calls.antt =====
-- `commit`, `rollback` and `list` of packages/server/src/control/MutationJournal.js. `apply_change`
-- is the function that the journal is built with; `id` and `now` are what its factory and its clock
-- return during the call, and `fault` what the database throws, if it does.
pub mod Chain
pub mod Steps
pub mod Stored
pub mod Whole
mod Tests
use Prim.Native.String.{◌++◌ as append}
use wardx.Prelude.{
  ltb, eqb, if◌then◌else◌, length, drop, Result, ok, err, ◌>>=◌, ◌>>◌, guard, ℕ, ◌+◌, ◌-◌, String,
  Bool, false, not, ◌||◌, Option, none, some, List, [], ◌∷◌, ◌++◌, ◌==◌,
}
use wardx.Prelude.Json.{Json}
use wardx.Server.Journal.Repository.{read, transact_stored}
use wardx.Server.Journal.{
  Library, Outcome, done, conflict, failed, thrown, Entry, Snapshot, Mutation, Rollback,
  ClientIdentity, assert_non_empty_string, assert_audit_safe, normalize_affected_names,
  normalize_client_identity,
}

module _ {N : Type 0} where
  -- `retainedChanges`; `splice(0, n)` drops the first n.
  pub retained_changes : List (Entry N) → Entry N → ℕ → List (Entry N)
  retained_changes changes entry capacity =
      let next = changes ++ entry ∷ [] in
      if ltb capacity (length next) then drop (length next - capacity) next else next

  pub has_id : List (Entry N) → String → Bool
  has_id [] id = false
  has_id (e ∷ es) id = (e.id == id) || has_id es id

  -- `changes.find((entry) => entry.id === changeId)`
  pub find_entry : List (Entry N) → String → Option (Entry N)
  find_entry [] id = none
  find_entry (e ∷ es) id = if e.id == id then some e else find_entry es id

-- What a call returns.
pub record Receipt : Type 0 where
  pub version : ℕ
  pub change_id : String
  pub rolled_back_change_id : Option String

pub record Listing (N : Type 0) : Type 0 where
  pub current_version : ℕ
  pub oldest_available_version : ℕ
  pub changes : List (Entry N)

module _ (js : Library) {N : Type 0} where
  entry_identity : String → List (Entry N) → Result String
  entry_identity id changes = do
    assert_non_empty_string js id "change id"
    guard (not (has_id changes id)) (append "duplicate change id: " id)
    ok id

  validate_retained_change : Entry N → String → Result (Unit {0})
  validate_retained_change entry project = do
    assert_non_empty_string js entry.id "retained config change id"
    guard (entry.project == project) "retained config change project mismatch"
    guard (eqb entry.new_version (entry.previous_version + 1))
        "retained config change versions must be consecutive"
    names ← normalize_affected_names js entry.affected_names
    assert_audit_safe js entry.forward "retained forward"
    assert_audit_safe js entry.inverse "retained inverse"

  -- The result of `prepareMutation`, but for its client identity.
  pub prepare_mutation : Mutation N → Result (Mutation N × ClientIdentity)
  prepare_mutation input = do
    assert_non_empty_string js input.project "project"
    assert_non_empty_string js input.reason "reason"
    assert_non_empty_string js input.operation "operation"
    names ← normalize_affected_names js input.affected_names
    assert_audit_safe js input.forward "forward"
    assert_audit_safe js input.inverse "inverse"
    identity ← normalize_client_identity js input.client_identity
    ok (record input { reason = js.trim input.reason; affected_names = names }, identity)

  module _ (capacity : ℕ) (apply_change : Json N → Json N → ℕ → Result (Json N)) (id : String)
      (now : ℕ) where
    -- The `entry` of `commit`.
    pub commit_entry : Mutation N → ClientIdentity → Snapshot N → String → Entry N
    commit_entry mutation identity current entry_id = record {
      id = entry_id;
      timestamp = now;
      project = mutation.project;
      previous_version = current.version;
      new_version = current.version + 1;
      operation = mutation.operation;
      affected_names = mutation.affected_names;
      reason = mutation.reason;
      client_identity = identity;
      rolled_back_change_id = none;
      forward = mutation.forward;
      inverse = mutation.inverse;
    }

    -- The `entry` of `rollback`.
    rollback_entry : Rollback → ClientIdentity → Snapshot N → Entry N → String → Entry N
    rollback_entry input identity current target entry_id = record {
      id = entry_id;
      timestamp = now;
      project = input.project;
      previous_version = current.version;
      new_version = current.version + 1;
      operation = "rollback_config_change";
      affected_names = target.affected_names;
      reason = js.trim input.reason;
      client_identity = identity;
      rolled_back_change_id = some target.id;
      forward = target.inverse;
      inverse = target.forward;
    }

    -- The `next` and the `result` that both calls return.
    pub record_change : Snapshot N → Json N → Entry N → Snapshot N × Receipt
    record_change current next_state entry = (
      record {
        version = current.version + 1;
        state = next_state;
        changes = retained_changes current.changes entry capacity;
      },
      record {
        version = current.version + 1;
        change_id = entry.id;
        rolled_back_change_id = entry.rolled_back_change_id;
      },
    )

    -- The work of `commit` on the snapshot that the repository read.
    pub commit_work : Mutation N → ClientIdentity → Snapshot N → Outcome (Snapshot N × Receipt)
    commit_work mutation identity current =
        if not (eqb current.version mutation.expected_version)
        then conflict current.version
        else thrown (do
          next_state ← apply_change current.state mutation.forward (current.version + 1)
          entry_id ← entry_identity id current.changes
          ok (record_change current next_state (commit_entry mutation identity current entry_id)))

    -- The work of `rollback` once its target is found.
    pub rollback_target :
        Rollback → ClientIdentity → Snapshot N → Entry N → Result (Snapshot N × Receipt)
    rollback_target input identity current target = do
      validate_retained_change target input.project
      next_state ← apply_change current.state target.inverse (current.version + 1)
      entry_id ← entry_identity id current.changes
      ok (record_change current next_state (rollback_entry input identity current target entry_id))

    pub rollback_work : Rollback → ClientIdentity → Snapshot N → Outcome (Snapshot N × Receipt)
    rollback_work input identity current =
        if not (eqb current.version input.expected_version)
        then conflict current.version
        else elim (find_entry current.changes input.change_id) [
          | none ↦ failed (append "retained config change not found: " input.change_id)
          | some target ↦ thrown (rollback_target input identity current target)
        ]

    prepare_rollback : Rollback → Result ClientIdentity
    prepare_rollback input = do
      assert_non_empty_string js input.project "project"
      assert_non_empty_string js input.change_id "changeId"
      assert_non_empty_string js input.reason "reason"
      normalize_client_identity js input.client_identity

    module _ (fault : Option String) where
      -- `_transact`, on the tables of the project. An error that is no conflict becomes one if the
      -- version is no longer the one expected.
      pub transact :
          ℕ
          → (Snapshot N → Outcome (Snapshot N × Receipt))
          → Snapshot N
          → Outcome Receipt × Snapshot N
      transact expected_version work table = elim (transact_stored js capacity fault work table) [
        | done (stored, receipt) ↦ (done receipt, stored)
        | conflict version ↦ (conflict version, table)
        | failed e ↦ (
          if not (eqb (read js capacity table).version expected_version)
              then conflict (read js capacity table).version
              else failed e,
          table,
        )
      ]

      pub commit : Mutation N → Snapshot N → Outcome Receipt × Snapshot N
      commit input table = elim (prepare_mutation input) [
        | err e ↦ (failed e, table)
        | ok (mutation, identity) ↦
            transact mutation.expected_version (commit_work mutation identity) table
      ]

      pub rollback : Rollback → Snapshot N → Outcome Receipt × Snapshot N
      rollback input table = elim (prepare_rollback input) [
        | err e ↦ (failed e, table)
        | ok identity ↦ transact input.expected_version (rollback_work input identity) table
      ]

  -- The loop of `list` over the changes.
  validate_changes : List (Entry N) → String → Result (Unit {0})
  validate_changes [] project = ok tt
  validate_changes (e ∷ es) project = do
    validate_retained_change e project
    validate_changes es project

  oldest_version : List (Entry N) → ℕ → ℕ
  oldest_version [] version = version
  oldest_version (e ∷ es) version = e.previous_version

  -- `list`; the public form of an entry is the entry less what is reversible.
  pub list : String → Snapshot N → Result (Listing N)
  list project snapshot = do
    assert_non_empty_string js project "project"
    validate_changes snapshot.changes project
    ok (record {
      current_version = snapshot.version;
      oldest_available_version = oldest_version snapshot.changes snapshot.version;
      changes = snapshot.changes;
    })
