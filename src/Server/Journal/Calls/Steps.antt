-- ===== src/Server/Journal/Calls/Steps.antt =====
-- What the work of a call on the journal makes.
use wardx.Prelude.{
  eqb, tests, Bool-cases, Option-cases, Result, ok, err, Result-cases, bind-ok, then-ok,
  ok-injective, ℕ, ◌+◌, String, ◌≡◌, refl, subst, ◌==◌, inl, inr, false, Option, none, some, List,
  arith,
}
use wardx.Prelude.Json.{Json}
use wardx.Server.Journal.{
  Library, done, thrown, Entry, Snapshot, Mutation, Rollback, ClientIdentity,
  assert_non_empty_string,
}
use wardx.Server.Journal.Calls.{
  Receipt, has_id, entry_identity, validate_retained_change, prepare_mutation, commit_work,
  commit_entry, rollback_entry, record_change, find_entry, rollback_target, rollback_work,
  retained_changes,
}

pub done-injective {ℓ} : {A : Type ℓ} {a b : A} → done a ≡ done b → a ≡ b
done-injective h = cc

thrown-done {ℓ} : {A : Type ℓ} (r : Result A) {a : A} → thrown r ≡ done a → r ≡ ok a
thrown-done (ok b) h = cc h
thrown-done (err e) h = absurd (cc h)

module _ (js : Library) {N : Type 0} where
  entry_identity-fresh :
      (id : String) (changes : List (Entry N)) (x : String)
      → entry_identity js id changes ≡ ok x
      → has_id changes x ≡ false
  unfolding entry_identity assert_non_empty_string
  entry_identity-fresh id changes x h = ground (arith, h)

  module _ (capacity : ℕ) (apply_change : Json N → Json N → ℕ → Result (Json N)) (id : String)
      (now : ℕ) where
    -- The entry of a call that applies `forward`, on the snapshot `s`.
    pub record IsChange (project : String) (forward inverse : Json N) (rolled_back : Option String)
        (s : Snapshot N) (receipt : Receipt) (e : Entry N) : Type 0 where
      pub same_id : e.id ≡ receipt.change_id
      pub fresh : has_id s.changes e.id ≡ false
      pub time : e.timestamp ≡ now
      pub of_project : e.project ≡ project
      pub from_version : e.previous_version ≡ s.version
      pub to_version : e.new_version ≡ s.version + 1
      pub applies : e.forward ≡ forward
      pub undoes : e.inverse ≡ inverse
      pub of_rollback : e.rolled_back_change_id ≡ rolled_back
      pub receipt_rolled_back : receipt.rolled_back_change_id ≡ rolled_back
      pub receipt_version : receipt.version ≡ s.version + 1

    -- What the work returns.
    pub record Made (project : String) (forward inverse : Json N) (rolled_back : Option String)
        (s made : Snapshot N) (receipt : Receipt) : Type 0 where
      pub entry : Entry N
      pub change : IsChange project forward inverse rolled_back s receipt entry
      pub changes : made.changes ≡ retained_changes s.changes entry capacity
      pub version : made.version ≡ s.version + 1
      pub applied : apply_change s.state forward (s.version + 1) ≡ ok made.state

    pub commit_work-Made :
        (m : Mutation N) (identity : ClientIdentity) (s made : Snapshot N) (receipt : Receipt)
        → commit_work js capacity apply_change id now m identity s ≡ done (made, receipt)
        → (s.version ≡ m.expected_version) × Made m.project m.forward m.inverse none s made receipt
    unfolding commit_work commit_entry record_change
    commit_work-Made m identity s made receipt h =
        elim (Bool-cases (eqb s.version m.expected_version)) [
          | inr stale ↦ absurd (cc (rw stale at h))
          | inl current ↦ elim (Result-cases (apply_change s.state m.forward (s.version + 1))) [
            | inr (e, broken) ↦ absurd (cc (rw (current, broken) at h))
            | inl (state, applied) ↦ elim (Result-cases (entry_identity js id s.changes)) [
              | inr (e, taken) ↦ absurd (cc (rw (current, applied, taken) at h))
              | inl (x, valid) ↦ (
                omega (tests, current),
                subst
                    (λ (o : Snapshot N × Receipt).
                      Made m.project m.forward m.inverse none s o.0 o.1)
                    (done-injective (rw (current, applied, valid) at h))
                    (record {
                      entry = commit_entry js capacity apply_change id now m identity s x;
                      change = record {
                        same_id = refl;
                        fresh = entry_identity-fresh id s.changes x valid;
                        time = refl;
                        of_project = refl;
                        from_version = refl;
                        to_version = refl;
                        applies = refl;
                        undoes = refl;
                        of_rollback = refl;
                        receipt_rolled_back = refl;
                        receipt_version = refl;
                      };
                      changes = refl;
                      version = refl;
                      applied = applied;
                    }),
              )
            ]
          ]
        ]

    pub commit_work_returns :
        (m : Mutation N) (identity : ClientIdentity) (s : Snapshot N) (state : Json N)
        → s.version ≡ m.expected_version
        → apply_change s.state m.forward (s.version + 1) ≡ ok state
        → (js.trim id == "") ≡ false
        → has_id s.changes id ≡ false
        → commit_work js capacity apply_change id now m identity s
          ≡ done (
              record_change js capacity apply_change id now s state
                (commit_entry js capacity apply_change id now m identity s id))
    unfolding commit_work entry_identity assert_non_empty_string
    commit_work_returns m identity s state current applied named fresh =
        ground (arith, current, applied, named, fresh)

    pub rollback_target-Made :
        (input : Rollback) (identity : ClientIdentity) (s made : Snapshot N) (target : Entry N)
        (receipt : Receipt)
        → rollback_target js capacity apply_change id now input identity s target
          ≡ ok (made, receipt)
        → Made input.project target.inverse target.forward (some target.id) s made receipt
    unfolding rollback_target rollback_entry record_change
    rollback_target-Made input identity s made target receipt h =
        let (valid, h) = then-ok (validate_retained_change js target input.project) _ h in
        let (state, applied, h) =
          bind-ok (apply_change s.state target.inverse (s.version + 1)) _ h in
        let (x, identified, h) = bind-ok (entry_identity js id s.changes) _ h in
        subst
          (λ (o : Snapshot N × Receipt).
            Made input.project target.inverse target.forward (some target.id) s o.0 o.1)
          (ok-injective h)
          (record {
            entry = rollback_entry js capacity apply_change id now input identity s target x;
            change = record {
              same_id = refl;
              fresh = entry_identity-fresh id s.changes x identified;
              time = refl;
              of_project = refl;
              from_version = refl;
              to_version = refl;
              applies = refl;
              undoes = refl;
              of_rollback = refl;
              receipt_rolled_back = refl;
              receipt_version = refl;
            };
            changes = refl;
            version = refl;
            applied = applied;
          })

    pub rollback_work-Made :
        (input : Rollback) (identity : ClientIdentity) (s made : Snapshot N) (receipt : Receipt)
        → rollback_work js capacity apply_change id now input identity s ≡ done (made, receipt)
        → (s.version ≡ input.expected_version)
          × (target : Entry N) × (find_entry s.changes input.change_id ≡ some target)
          × Made input.project target.inverse target.forward (some target.id) s made receipt
    unfolding rollback_work
    rollback_work-Made input identity s made receipt work =
        elim (Bool-cases (eqb s.version input.expected_version)) [
          | inr stale ↦ absurd (cc (rw stale at work))
          | inl current ↦ elim (Option-cases (find_entry s.changes input.change_id)) [
            | inl none_such ↦ absurd (cc (rw (current, none_such, rollback_work) at work))
            | inr (target, found) ↦ (
              omega (tests, current),
              target,
              found,
              rollback_target-Made input identity s made target receipt
                  (thrown-done _ (rw (current, found, rollback_work) at work)),
            )
          ]
        ]

    pub prepare_mutation-keeps :
        (input m : Mutation N) (identity : ClientIdentity)
        → prepare_mutation js input ≡ ok (m, identity)
        → (input.expected_version ≡ m.expected_version)
          × (input.project ≡ m.project)
          × (input.forward ≡ m.forward)
          × (input.inverse ≡ m.inverse)
    unfolding prepare_mutation
    prepare_mutation-keeps input m identity h = ground (arith, h)
