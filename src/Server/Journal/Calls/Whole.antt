-- ===== src/Server/Journal/Calls/Whole.antt =====
-- `commit` and `rollback` as a whole.
use wardx.Prelude.{
  length, Result, ok, Result-cases, ℕ, ◌+◌, String, ◌≡◌, sym, ◌∙◌, inl, inr, Option, none, some,
  List, [], ◌∷◌, arith,
}
use wardx.Prelude.Json.{Json}
use wardx.Server.Journal.{Library, done, Entry, Snapshot, Mutation, Rollback}
use wardx.Server.Journal.Calls.{
  Receipt, find_entry, prepare_mutation, commit_work, rollback_work, commit, prepare_rollback,
  rollback, oldest_version, Listing, list,
}
use wardx.Server.Journal.Calls.Chain.{IsChain, Runs}
use wardx.Server.Journal.Calls.Steps.{commit_work-Made, rollback_work-Made, prepare_mutation-keeps}
use wardx.Server.Journal.Calls.Stored.{Advances, stored-Advances, transact-done}

module _ (js : Library) {N : Type 0} (capacity : ℕ)
    (apply_change : Json N → Json N → ℕ → Result (Json N)) (id : String) (now : ℕ) where
  module _ (fault : Option String) where
    -- A commit that succeeds on a snapshot with an unbroken run of changes was given the current
    -- version and applied its own change, with which it raised the version by one. What is stored
    -- then has the changes of before with one more behind them, less the oldest, as many as
    -- `capacity` allows: the new one has the id of the receipt, which no other has, the time, the
    -- project, both versions, the change and its inverse. The run is still unbroken.
    pub commit-Advances :
        (input : Mutation N) (s next : Snapshot N) (receipt : Receipt)
        → IsChain capacity s
        → commit js capacity apply_change id now fault input s ≡ (done receipt, next)
        → (s.version ≡ input.expected_version)
          × Advances js capacity apply_change id now input.project input.forward input.inverse none
              s next receipt
    unfolding commit
    commit-Advances input s next receipt c h = elim (Result-cases (prepare_mutation js input)) [
      | inr (e, refused) ↦ absurd (cc (rw (refused, commit) at h))
      | inl ((m, identity), prepared) ↦
          let kept =
            prepare_mutation-keeps js capacity apply_change id now input m identity prepared in
          let (made, work, stored) =
            transact-done js capacity apply_change id now fault m.expected_version
              (commit_work js capacity apply_change id now m identity) s next receipt c
              (rw (prepared, commit) at h) in
          let (version, makes) =
            commit_work-Made js capacity apply_change id now m identity s made receipt work in
          (
            version ∙ sym kept.0,
            rw (kept.1, kept.2, kept.3)
                (stored-Advances js capacity apply_change id now fault m.project m.forward m.inverse
                  none s made next receipt c makes stored),
          )
    ]

    -- A rollback that succeeds on a snapshot with an unbroken run of changes was given the current
    -- version and the id of a retained change, and applied the inverse of that change, with which it
    -- raised the version by one. What is stored then has the changes of before with one more behind
    -- them, less the oldest, as many as `capacity` allows: the new one has the id of the receipt,
    -- which no other has, the time, the project, both versions, names the change that was undone, and
    -- has its inverse as the change and the change as the inverse. The run is still unbroken.
    pub rollback-Advances :
        (input : Rollback) (s next : Snapshot N) (receipt : Receipt)
        → IsChain capacity s
        → rollback js capacity apply_change id now fault input s ≡ (done receipt, next)
        → (s.version ≡ input.expected_version)
          × ((target : Entry N) × (find_entry s.changes input.change_id ≡ some target)
              × Advances js capacity apply_change id now input.project target.inverse target.forward
                  (some target.id)
                  s
                  next
                  receipt)
    unfolding rollback
    rollback-Advances input s next receipt c h =
        elim (Result-cases (prepare_rollback js capacity apply_change id now input)) [
          | inr (e, refused) ↦ absurd (cc (rw (refused, rollback) at h))
          | inl (identity, prepared) ↦
              let (made, work, stored) =
                transact-done js capacity apply_change id now fault input.expected_version
                  (rollback_work js capacity apply_change id now input identity) s next receipt c
                  (rw (prepared, rollback) at h) in
              let (current, target, found, makes) =
                rollback_work-Made js capacity apply_change id now input identity s made receipt
                  work in
              (
                current,
                (
                  target,
                  found,
                  stored-Advances js capacity apply_change id now fault input.project target.inverse
                      target.forward (some target.id) s made next receipt c makes stored,
                ),
              )
        ]

oldest_version-Runs :
    (js : Library) {N : Type 0} (a b : ℕ) (es : List (Entry N))
    → Runs a es b
    → (oldest_version js es b ≡ a) × (a + length es ≡ b)
unfolding oldest_version
oldest_version-Runs js a b [] r = (sym r, omega (arith, r))
oldest_version-Runs js a b (e ∷ es) r =
    (r.0, omega (arith, (oldest_version-Runs js (a + 1) b es r.2).1))

-- Where `list` succeeds on a snapshot with an unbroken run of changes, the oldest version that it
-- reports as available lies as many versions back as there are changes in the list.
pub list-oldest :
    (js : Library) {N : Type 0} (capacity : ℕ) (project : String) (s : Snapshot N) (l : Listing N)
    → IsChain capacity s
    → list js project s ≡ ok l
    → l.oldest_available_version + length l.changes ≡ l.current_version
unfolding list
list-oldest js capacity project s l c h =
    ground (arith, oldest_version-Runs js c.oldest s.version s.changes c.runs)
