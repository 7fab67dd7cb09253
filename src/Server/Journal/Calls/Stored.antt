-- ===== src/Server/Journal/Calls/Stored.antt =====
-- What is stored of a snapshot that the work of a call on the journal made.
use wardx.Prelude.{
  eqb, Option-cases, some-injective, Result, ok, then-ok, guard, leb, ltb, ℕ, ◌+◌, ◌≤◌, String, ◌≡◌,
  refl, sym, ap, ◌∙◌, subst, ◌⊎◌, inl, inr, Option, none, some, List, [], ◌∷◌, ◌++◌, arith,
}
use wardx.Prelude.Json.{Json}
use wardx.Server.Journal.{Library, Outcome, done, conflict, failed, Entry, Snapshot}
use wardx.Server.Journal.Repository.{
  newest, last_entry, read, commit_project_mutation, store_output, transact_stored,
}
use wardx.Server.Journal.Calls.{Receipt, transact}
use wardx.Server.Journal.Calls.Chain.{
  IsChain, newest-IsChain, Records, newest-Records, newest_all, last_entry-retained_changes,
}
use wardx.Server.Journal.Calls.Steps.{IsChange, Made}

Outcome-cases {ℓ} :
    {A : Type ℓ} (o : Outcome A)
    → ((a : A) × (o ≡ done a)) ⊎ (((v : ℕ) × (o ≡ conflict v)) ⊎ ((m : String) × (o ≡ failed m)))
Outcome-cases (done a) = inl (a, refl)
Outcome-cases (conflict v) = inr (inl (v, refl))
Outcome-cases (failed m) = inr (inr (m, refl))

pub read_same :
    (js : Library) {N : Type 0} (capacity : ℕ) (s : Snapshot N)
    → IsChain capacity s
    → read js capacity s ≡ s
unfolding read
read_same js capacity s c =
    ap (λ rows. record s { changes = rows }) (newest_all capacity s.changes c.within)

module _ (js : Library) {N : Type 0} (capacity : ℕ)
    (apply_change : Json N → Json N → ℕ → Result (Json N)) (id : String) (now : ℕ) where
  -- A call that applied `forward` to the state of `s`, and recorded its change.
  pub record Advances (project : String) (forward inverse : Json N) (rolled_back : Option String)
      (s next : Snapshot N) (receipt : Receipt) : Type 0 where
    pub chain : IsChain capacity next
    pub version : next.version ≡ s.version + 1
    pub applied : apply_change s.state forward (s.version + 1) ≡ ok next.state
    pub entry : Entry N
    pub change :
        IsChange js capacity apply_change id now project forward inverse rolled_back s receipt entry
    pub recorded : Records capacity s.changes entry next.changes

  module _ (fault : Option String) where
    commit_project_mutation-ok :
        (previous new : ℕ) (state : Json N) (e : Entry N) (table stored : Snapshot N)
        → commit_project_mutation js capacity fault previous new state e table ≡ ok stored
        → (1 ≤ capacity)
          × (record {
            version = new;
            state = state;
            changes = newest capacity (table.changes ++ e ∷ []);
          }
              ≡ stored)
    unfolding commit_project_mutation
    commit_project_mutation-ok previous new state e table stored h =
        let (_, h) = then-ok (guard (ltb previous new) _) _ h in
        let (_, h) = then-ok (guard (eqb table.version previous) _) _ h in
        let (room, h) = then-ok (guard (leb 1 capacity) _) _ h in
        (ground (arith, room), ground (arith, h))

    store_output-done :
        (made : Snapshot N) (receipt : Receipt) (table next : Snapshot N)
        → store_output js capacity fault made receipt (last_entry made.changes) table
          ≡ done (next, receipt)
        → (e : Entry N) × (last_entry made.changes ≡ some e)
          × (commit_project_mutation js capacity fault
                (read js capacity table).version
                made.version
                made.state
                e
                table
              ≡ ok next)
    unfolding store_output
    store_output-done made receipt table next h = elim (Option-cases (last_entry made.changes)) [
      | inl empty ↦ absurd (cc (rw empty at h))
      | inr (e, last) ↦ (e, last, ground (arith, rw last at h))
    ]

    store_output-receipt :
        (made : Snapshot N) (r receipt : Receipt) (table next : Snapshot N)
        (last : Option (Entry N))
        → store_output js capacity fault made r last table ≡ done (next, receipt)
        → r ≡ receipt
    unfolding store_output
    store_output-receipt made r receipt table next none h = absurd (cc h)
    store_output-receipt made r receipt table next (some e) h = ground (arith, h)

    -- What is stored of a snapshot that the work made.
    pub stored-Advances :
        (project : String) (forward inverse : Json N) (rolled_back : Option String)
        (s made next : Snapshot N) (receipt : Receipt)
        → IsChain capacity s
        → Made js capacity apply_change id now project forward inverse rolled_back s made receipt
        → store_output js capacity fault made receipt (last_entry made.changes) s
          ≡ done (next, receipt)
        → Advances project forward inverse rolled_back s next receipt
    stored-Advances project forward inverse rolled_back s made next receipt c m h =
        let (e, last, stored) = store_output-done made receipt s next h in
        let (room, is_next) =
          commit_project_mutation-ok _ made.version made.state e s next stored in
        let same : m.entry ≡ e = some-injective (
          sym (
            ap (λ (rows : List (Entry N)). last_entry rows) m.changes
            ∙ last_entry-retained_changes capacity s.changes m.entry room)
          ∙ last) in
        let written : record {
          version = s.version + 1;
          state = made.state;
          changes = newest capacity (s.changes ++ m.entry ∷ []);
        }
            ≡ next =
          ground (arith, same, is_next, m.version) in
        subst (λ t. Advances project forward inverse rolled_back s t receipt) written
          (record {
            chain =
                newest-IsChain capacity s made.state m.entry c m.change.from_version
                  m.change.to_version m.change.fresh;
            version = refl;
            applied = m.applied;
            entry = m.entry;
            change = m.change;
            recorded = newest-Records capacity s.changes m.entry;
          })

    transact-stored :
        (expected : ℕ) (work : Snapshot N → Outcome (Snapshot N × Receipt)) (s next : Snapshot N)
        (receipt : Receipt)
        → transact js capacity apply_change id now fault expected work s ≡ (done receipt, next)
        → transact_stored js capacity fault work s ≡ done (next, receipt)
    unfolding transact
    transact-stored expected work s next receipt h = ground (arith, h)

    -- A call that succeeds has stored what its work made.
    pub transact-done :
        (expected : ℕ) (work : Snapshot N → Outcome (Snapshot N × Receipt)) (s next : Snapshot N)
        (receipt : Receipt)
        → IsChain capacity s
        → transact js capacity apply_change id now fault expected work s ≡ (done receipt, next)
        → (made : Snapshot N) × (work s ≡ done (made, receipt))
          × (store_output js capacity fault made receipt (last_entry made.changes) s
              ≡ done (next, receipt))
    unfolding transact_stored
    transact-done expected work s next receipt c h =
        let read_back : work (read js capacity s) ≡ work s = ap work (read_same js capacity s c) in
        let stored = transact-stored expected work s next receipt h in
        elim (Outcome-cases (work s)) [
          | inl ((made, r), e) ↦
              let kept = rw (read_back ∙ e, transact_stored) at stored in
              let same =
                store_output-receipt made r receipt s next (last_entry made.changes) kept in
              (
                made,
                subst (λ (o : Receipt). work s ≡ done (made, o)) same e,
                subst
                    (λ (o : Receipt).
                      store_output js capacity fault made o (last_entry made.changes) s
                      ≡ done (next, receipt))
                    same kept,
              )
          | inr (inl (v, e)) ↦ absurd (cc (rw (read_back ∙ e, transact_stored) at stored))
          | inr (inr (m, e)) ↦ absurd (cc (rw (read_back ∙ e, transact_stored) at stored))
        ]

  commit_project_mutation_lem :
      (state : Json N) (s : Snapshot N) (e : Entry N) (version : ℕ)
      → 1 ≤ capacity
      → version ≡ s.version + 1
      → commit_project_mutation js capacity none (read js capacity s).version version state e s
        ≡ ok (record {
          version = version;
          state = state;
          changes = newest capacity (s.changes ++ e ∷ []);
        })
  unfolding commit_project_mutation read
  commit_project_mutation_lem state s e version room v = ground arith

  -- Where the database throws nothing, a snapshot that the work made is stored.
  pub transact_returns :
      (expected : ℕ) (work : Snapshot N → Outcome (Snapshot N × Receipt)) (s made : Snapshot N)
      (receipt : Receipt) (project : String) (forward inverse : Json N)
      (rolled_back : Option String)
      → 1 ≤ capacity
      → IsChain capacity s
      → work s ≡ done (made, receipt)
      → Made js capacity apply_change id now project forward inverse rolled_back s made receipt
      → (next : Snapshot N) × (transact js capacity apply_change id now none expected work s
          ≡ (done receipt, next))
  unfolding transact transact_stored store_output
  transact_returns expected work s made receipt project forward inverse rolled_back room c e m =
      let read_back : work (read js capacity s) ≡ done (made, receipt) =
        ap work (read_same js capacity s c) ∙ e in
      let last : last_entry made.changes ≡ some m.entry =
        ap (λ (rows : List (Entry N)). last_entry rows) m.changes
        ∙ last_entry-retained_changes capacity s.changes m.entry room in
      let written = commit_project_mutation_lem made.state s m.entry made.version room m.version in
      (
        record {
          version = made.version;
          state = made.state;
          changes = newest capacity (s.changes ++ m.entry ∷ []);
        },
        ground (arith, read_back, last, written),
      )
