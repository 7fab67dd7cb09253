-- ===== src/Server/Persistence/Schedule/Due.antt =====
-- When packages/server/src/control/PersistenceCoordinator.js compacts.
use wardx.Prelude.{
  ltb, eqb, ltb→le, Bool-cases, Option-cases, some-injective, ok, Result-cases, ℕ, ◌+◌, ◌≤◌, ◌<◌,
  max, String, ◌≡◌, refl, sym, ap, ◌∙◌, subst, inl, inr, Bool, false, Option, none, some, List, [],
  ◌∷◌, arith, eq_refl,
}
use wardx.Prelude.Entries.{find, put, find-put}
use wardx.Prelude.Numbered.{find_at, put_at, find_at-put_at}
use wardx.Prelude.Js.{Js}
use wardx.Prelude.Json.{Json}
use wardx.Server.History.Sketch.{Buffer}
use wardx.Server.History.Buckets.{Tier, minute, hour, day, Bucket, expected_width}
use wardx.Server.History.Compactor.{Store, utc_bucket_start, compact}
use wardx.Server.History.Compactor.Closed.{Compacts, compact-Compacts, utc_bucket_start_bounds}
use wardx.Server.Persistence.Schedule.{
  Candidate, Times, Table, Work, table_key, found_or_initial, source_allowance, postponed,
  rescheduled, open_until, candidates_of, schedule_compaction, after_compaction, request_of,
  scan_due, scan_candidate, destination_width,
}

-- A destination waits for its latest source; one that waits already is not due earlier, and one that was
-- compacted is not compacted again before the interval is over.
pub record IsRescheduled (interval closes_at : ℕ) (before : Option Candidate) (c : Candidate)
    : Type 0 where
  pub closed : closes_at ≤ c.due_at
  pub is_open : c.compacted_at ≡ none
  pub not_earlier : (b : Candidate) → before ≡ some b → b.compacted_at ≡ none → b.due_at ≤ c.due_at
  pub not_sooner :
      (b : Candidate) (t : ℕ) → before ≡ some b → b.compacted_at ≡ some t → t + interval ≤ c.due_at

postponed-IsRescheduled :
    (interval closes_at due_at : ℕ) (compacted_at : Option ℕ)
    → IsRescheduled interval closes_at
        (some (record { due_at = due_at; compacted_at = compacted_at }))
        (postponed interval closes_at due_at compacted_at)
unfolding postponed
postponed-IsRescheduled interval closes_at due_at none = record {
  closed = omega arith;
  is_open = refl;
  not_earlier =
      λ b e n. subst (λ x. x.due_at ≤ max due_at closes_at) (some-injective e) (omega arith);
  not_sooner = λ b t e n. absurd (cc (ap (λ x. x.compacted_at) (some-injective e) ∙ n));
}
postponed-IsRescheduled interval closes_at due_at (some before) = record {
  closed = omega arith;
  is_open = refl;
  not_earlier = λ b e n. absurd (cc (ap (λ x. x.compacted_at) (some-injective e) ∙ n));
  not_sooner = λ b t e n.
      let same : before ≡ t = some-injective (ap (λ x. x.compacted_at) (some-injective e) ∙ n) in
      omega (arith, same);
}

rescheduled-IsRescheduled :
    (interval closes_at : ℕ) (before : Option Candidate)
    → IsRescheduled interval closes_at before (rescheduled interval closes_at before)
unfolding rescheduled
rescheduled-IsRescheduled interval closes_at none = record {
  closed = omega arith;
  is_open = refl;
  not_earlier = λ b e n. absurd (cc e);
  not_sooner = λ b t e n. absurd (cc e);
}
rescheduled-IsRescheduled interval closes_at (some c) =
    postponed-IsRescheduled interval closes_at c.due_at c.compacted_at

module _ {World : Type 0} (compaction_starts : World → String → Tier → Tier → List ℕ)
    (times : Times) where
  -- What scheduling a source from `from` to `to` does to the candidates.
  pub record Reschedules (project : String) (source_tier destination_tier : Tier) (from to : ℕ)
      (world : World) (table : Table) : Type 0 where
    pub c : Candidate
    pub found :
        find_at (utc_bucket_start from destination_tier) (
          candidates_of compaction_starts times project source_tier destination_tier world (
            schedule_compaction compaction_starts times project source_tier destination_tier from to
              world table))
        ≡ some c
    pub is_rescheduled :
        IsRescheduled times.compaction_interval
          (to + source_allowance times source_tier)
          (find_at (utc_bucket_start from destination_tier) (
            candidates_of compaction_starts times project source_tier destination_tier world table))
          c
    pub holds :
        (utc_bucket_start from destination_tier ≤ from)
        × (from < utc_bucket_start from destination_tier + expected_width destination_tier)
    pub others :
        (start : ℕ)
        → eqb (utc_bucket_start from destination_tier) start ≡ false
        → find_at start (
            candidates_of compaction_starts times project source_tier destination_tier world (
              schedule_compaction compaction_starts times project source_tier destination_tier from
                to world table))
          ≡ find_at start (
              candidates_of compaction_starts times project source_tier destination_tier world
                table)

  -- The destination that holds the start of a source is due when the source closes or later: not earlier than before if it
  -- waits already, and not before the interval is over if it was compacted. No other changes.
  pub schedule_compaction-Reschedules :
      (project : String) (source_tier destination_tier : Tier) (from to : ℕ) (world : World)
      → (table : Table) → Reschedules project source_tier destination_tier from to world table
  unfolding schedule_compaction candidates_of
  schedule_compaction-Reschedules project source_tier destination_tier from to world table =
      let key = table_key project source_tier in
      let starts = compaction_starts world project source_tier destination_tier in
      let candidates =
        candidates_of compaction_starts times project source_tier destination_tier world table in
      let first = utc_bucket_start from destination_tier in
      let c =
        rescheduled times.compaction_interval (to + source_allowance times source_tier)
          (find_at first candidates) in
      let there : find key (put key (put_at first c candidates) table)
          ≡ some (put_at first c candidates) =
        find-put key key (put_at first c candidates) table ∙ rw (eq_refl key) refl in
      let same : found_or_initial (find key (put key (put_at first c candidates) table)) starts
          ≡ put_at first c candidates =
        ap (λ o. found_or_initial o starts) there in
      let here : find_at first (put_at first c candidates) ≡ some c =
        find_at-put_at first first c candidates ∙ ground arith in
      record {
        c = c;
        found = ap (λ l. find_at first l) same ∙ here;
        is_rescheduled =
            rescheduled-IsRescheduled times.compaction_interval
              (to + source_allowance times source_tier) (find_at first candidates);
        holds = (
          (utc_bucket_start_bounds from destination_tier).1,
          (utc_bucket_start_bounds from destination_tier).2,
        );
        others = λ start other.
            ap (λ l. find_at start l) same
            ∙ (find_at-put_at first start c candidates ∙ rw other refl);
      }

  module _ (js : Js) (buffer : Buffer) (locale_before : String → String → Bool)
      (store : World → Store js.Number World) where
    same_count :
        (w after v : Work World) (error e : Option String)
        → v.compactions ≡ w.compactions
        → ◌≡◌ {A = Option String × Work World} (e, v) (error, after)
        → w.compactions < after.compactions
        → {A : Type 0} → A
    same_count w after v error e same h more =
        absurd (omega (arith, same, more, ap (λ p. p.1.compactions) h))

    after_compaction-world :
        (project : String) (source_tier destination_tier : Tier) (now start : ℕ) (w : Work World)
        → (after_compaction compaction_starts times js buffer locale_before store project
            source_tier destination_tier now start w).world
          ≡ w.world
    unfolding after_compaction
    after_compaction-world project source_tier minute now start w = refl
    after_compaction-world project source_tier hour now start w = refl
    after_compaction-world project source_tier day now start w = refl

    scan_due-Compacts :
        (project : String) (source_tier destination_tier : Tier) (now start : ℕ)
        → (sources : List (Bucket (Json js.Number))) (w after : Work World) (error : Option String)
        → scan_due compaction_starts times js buffer locale_before store project source_tier
            destination_tier now start sources w
          ≡ (error, after)
        → w.compactions < after.compactions
        → (open_until (source_allowance times source_tier) sources ≡ none)
          × Compacts js buffer locale_before
              (store w.world)
              (request_of compaction_starts times js buffer locale_before store project source_tier
                destination_tier now start sources)
              after.world
    unfolding scan_due
    scan_due-Compacts project source_tier destination_tier now start [] w after error h more =
        same_count w after _ error none refl h more
    scan_due-Compacts project source_tier destination_tier now start (source ∷ sources) w after
          error h more =
        let request =
          request_of compaction_starts times js buffer locale_before store project source_tier
            destination_tier now start (source ∷ sources) in
        elim (Option-cases (open_until (source_allowance times source_tier) (source ∷ sources))) [
          | inr (until, is_open) ↦
              same_count w after _ error none refl (rw (is_open, scan_due) at h) more
          | inl closed ↦
              elim (Result-cases ((compact js buffer locale_before (store w.world) request []).0)) [
                | inr (e, thrown) ↦
                    same_count w after w error (some e) refl (rw (closed, thrown, scan_due) at h)
                      more
                | inl (world, stored) ↦
                    let done = rw (closed, stored, scan_due) at h in
                    let there : world ≡ after.world =
                      sym (
                        after_compaction-world project source_tier destination_tier now start
                          (record w { world = world }))
                      ∙ ap (λ p. p.1.world) done in
                    (
                      closed,
                      subst (Compacts js buffer locale_before (store w.world) request) there (
                          (compact-Compacts js buffer locale_before (store w.world) request []).0
                            world stored),
                    )
              ]
        ]

    -- A compaction of a candidate that leaves the store as `world`.
    pub record CompactsDue (project : String) (source_tier destination_tier : Tier) (now start : ℕ)
        (c : Candidate) (before world : World) : Type 0 where
      pub due : c.due_at ≤ now
      pub sources : List (Bucket (Json js.Number))
      pub read :
          (store before).read_buckets project source_tier start
            (start + destination_width destination_tier)
          ≡ ok sources
      pub closed : open_until (source_allowance times source_tier) sources ≡ none
      pub compacts :
          Compacts js buffer locale_before
            (store before)
            (request_of compaction_starts times js buffer locale_before store project source_tier
              destination_tier now start sources)
            world

    -- If a scan of a candidate counts a compaction, then the candidate is due, its sources are all
    -- final, and the store holds what a compaction of them has stored.
    pub scan_candidate-CompactsDue :
        (project : String) (source_tier destination_tier : Tier) (now start : ℕ) (c : Candidate)
        → (w after : Work World) (error : Option String)
        → scan_candidate compaction_starts times js buffer locale_before store project source_tier
            destination_tier now start c w
          ≡ (error, after)
        → w.compactions < after.compactions
        → CompactsDue project source_tier destination_tier now start c w.world after.world
    unfolding scan_candidate
    scan_candidate-CompactsDue project source_tier destination_tier now start c w after error h
          more =
        elim (Bool-cases (ltb now c.due_at)) [
          | inl early ↦ same_count w after w error none refl (rw (early, scan_candidate) at h) more
          | inr due ↦
              elim (Result-cases (
                (store w.world).read_buckets project source_tier start
                  (start + destination_width destination_tier))) [
                    | inr (e, thrown) ↦
                        same_count w after w error (some e) refl
                          (rw (due, thrown, scan_candidate) at h) more
                    | inl (sources, read) ↦
                        let (closed, compacts) =
                          scan_due-Compacts project source_tier destination_tier now start sources w
                            after error (rw (due, read, scan_candidate) at h) more in
                        record {
                          due = ltb→le now c.due_at due;
                          sources = sources;
                          read = read;
                          closed = closed;
                          compacts = compacts;
                        }
                  ]
        ]
