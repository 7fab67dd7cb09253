-- ===== src/Server/Journal/Calls/Tests.antt =====
-- The journal on a configuration that a change replaces whole.
use wardx.Prelude.{length, Result, ok, ℕ, ◌+◌, ◌≡◌, refl, false, none, some, [], ◌∷◌, arith}
use wardx.Prelude.Json.{Json, str, obj, field, end}
use wardx.Server.Journal.{
  Library, done, conflict, failed, Entry, Snapshot, Mutation, Rollback, ClientIdentity, includes,
  unsafe_audit_fields, assert_non_empty_string, assert_audit_safe, assert_fields_safe,
  normalize_names, normalize_affected_names, normalize_client_identity,
}
use wardx.Server.Journal.Repository.{
  newest, last_entry, read, commit_project_mutation, store_output, transact_stored,
}
use wardx.Server.Journal.Calls.{
  Receipt, retained_changes, has_id, find_entry, entry_identity, validate_retained_change,
  prepare_mutation, commit_work, commit_entry, rollback_entry, record_change, rollback_target,
  rollback_work, transact, commit, prepare_rollback, rollback, oldest_version, validate_changes,
  list,
}
use wardx.Server.Journal.Calls.Chain.{IsChain}
use wardx.Server.Journal.Calls.Stored.{Advances}
use wardx.Server.Journal.Calls.Whole.{commit-Advances, rollback-Advances, list-oldest}

abbrev js : Library
js = record { trim = λ s. s; to_lower_case = λ s. s; show = λ n. "0" }

abbrev replace_state : Json ℕ → Json ℕ → ℕ → Result (Json ℕ)
replace_state state change version = ok change

abbrev nobody : ClientIdentity
nobody = record { available = false; verified = false; name = none; version = none }

abbrev mutation : Mutation ℕ
mutation = record {
  project = "p";
  expected_version = 3;
  reason = "r";
  operation = "set";
  affected_names = "a" ∷ [];
  client_identity = none;
  forward = obj (field "a" (str "new") end);
  inverse = str "old";
}

abbrev before : Snapshot ℕ
before = record { version = 3; state = str "old"; changes = [] }

abbrev first : Entry ℕ
first = record {
  id = "c1";
  timestamp = 50;
  project = "p";
  previous_version = 3;
  new_version = 4;
  operation = "set";
  affected_names = "a" ∷ [];
  reason = "r";
  client_identity = nobody;
  rolled_back_change_id = none;
  forward = obj (field "a" (str "new") end);
  inverse = str "old";
}

abbrev after : Snapshot ℕ
after = record { version = 4; state = obj (field "a" (str "new") end); changes = first ∷ [] }

abbrev receipt : Receipt
receipt = record { version = 4; change_id = "c1"; rolled_back_change_id = none }

abbrev undo : Rollback
undo = record {
  project = "p";
  change_id = "c1";
  expected_version = 4;
  reason = "oops";
  client_identity = none;
}

abbrev second : Entry ℕ
second = record {
  id = "c2";
  timestamp = 60;
  project = "p";
  previous_version = 4;
  new_version = 5;
  operation = "rollback_config_change";
  affected_names = "a" ∷ [];
  reason = "oops";
  client_identity = nobody;
  rolled_back_change_id = some "c1";
  forward = str "old";
  inverse = obj (field "a" (str "new") end);
}

-- a capacity of one: the first change is no longer retained
abbrev undone : Snapshot ℕ
undone = record { version = 5; state = str "old"; changes = second ∷ [] }

before-IsChain : IsChain 1 before
before-IsChain = record { oldest = 3; runs = refl; within = omega arith; distinct = tt }

after-IsChain : IsChain 1 after
after-IsChain = record {
  oldest = 3;
  runs = (refl, refl, refl);
  within = omega arith;
  distinct = (unfold has_id in refl, tt);
}

-- The database is busy.
commit_busy :
    commit js 1 replace_state "c1" 50 (some "SQLITE_BUSY") mutation before
    ≡ (failed "SQLITE_BUSY", before)
unfolding commit transact transact_stored read newest last_entry store_output
    commit_project_mutation commit_work prepare_mutation assert_non_empty_string
    normalize_affected_names normalize_names includes assert_audit_safe assert_fields_safe
    unsafe_audit_fields normalize_client_identity entry_identity has_id record_change commit_entry
    retained_changes
commit_busy = refl

commit_first : commit js 1 replace_state "c1" 50 none mutation before ≡ (done receipt, after)
unfolding commit transact transact_stored read newest last_entry store_output
    commit_project_mutation commit_work prepare_mutation assert_non_empty_string
    normalize_affected_names normalize_names includes assert_audit_safe assert_fields_safe
    unsafe_audit_fields normalize_client_identity entry_identity has_id record_change commit_entry
    retained_changes
commit_first = refl

commit_stale : commit js 1 replace_state "c2" 60 none mutation after ≡ (conflict 4, after)
unfolding commit transact transact_stored read newest last_entry store_output
    commit_project_mutation commit_work prepare_mutation assert_non_empty_string
    normalize_affected_names normalize_names includes assert_audit_safe assert_fields_safe
    unsafe_audit_fields normalize_client_identity
commit_stale = refl

rollback_first :
    rollback js 1 replace_state "c2" 60 none undo after
    ≡ (done (record { version = 5; change_id = "c2"; rolled_back_change_id = some "c1" }), undone)
unfolding rollback transact transact_stored read newest last_entry store_output
    commit_project_mutation rollback_work rollback_target prepare_rollback assert_non_empty_string
    normalize_affected_names normalize_names includes assert_audit_safe assert_fields_safe
    unsafe_audit_fields normalize_client_identity entry_identity has_id record_change rollback_entry
    retained_changes find_entry validate_retained_change
rollback_first = refl

after_listing :
    list js "p" after
    ≡ ok (record { current_version = 4; oldest_available_version = 3; changes = first ∷ [] })
unfolding list validate_changes oldest_version assert_non_empty_string normalize_affected_names
    normalize_names includes assert_audit_safe assert_fields_safe unsafe_audit_fields
    validate_retained_change
after_listing = refl

commit-Advances_example :
    (3 ≡ mutation.expected_version)
    × Advances js 1 replace_state "c1" 50 "p" mutation.forward mutation.inverse none before after
        receipt
commit-Advances_example =
    commit-Advances js 1 replace_state "c1" 50 none mutation before after receipt before-IsChain
      commit_first

rollback-Advances_example :
    (4 ≡ undo.expected_version)
    × ((target : Entry ℕ) × (find_entry after.changes "c1" ≡ some target)
        × Advances js 1 replace_state "c2" 60 "p" target.inverse target.forward
            (some target.id)
            after
            undone
            (record { version = 5; change_id = "c2"; rolled_back_change_id = some "c1" }))
rollback-Advances_example =
    rollback-Advances js 1 replace_state "c2" 60 none undo after undone
      (record { version = 5; change_id = "c2"; rolled_back_change_id = some "c1" }) after-IsChain
      rollback_first

list-oldest_example : 3 + length after.changes ≡ 4
list-oldest_example =
    list-oldest js 1 "p" after
      (record { current_version = 4; oldest_available_version = 3; changes = first ∷ [] })
      after-IsChain after_listing
