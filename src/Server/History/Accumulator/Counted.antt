-- ===== src/Server/History/Accumulator/Counted.antt =====
-- Whatever is sent to packages/server/src/aggregation/history/HistoryAccumulator.js, it knows the bytes
-- of what it keeps.
use wardx.Prelude.{
  ltb, leb, eqb, if◌then◌else◌, eqb→eq, Bool-cases, Option-cases, some-injective, ok, err, guard,
  bind-ok, then-ok, ok-injective, ℕ, ◌+◌, String, ◌≡◌, refl, sym, ap, ◌∙◌, subst, inl, inr, Bool,
  false, not, ◌&&◌, none, some, List, [], ◌∷◌, ◌++◌, arith, ◌==◌,
}
use wardx.Prelude.Numbered.{find_at, put_at, find_at-put_at}
use wardx.Prelude.Js.{Js}
use wardx.Server.History.Sketch.{Buffer}
use wardx.Server.History.Buckets.{minute}
use wardx.Server.History.Compactor.{utc_bucket_start}
use wardx.Server.History.Input.{Client, Frame, Envelope, history_rows}
use wardx.Server.History.Minutes.{State, Update, empty_state, update_rows}
use wardx.Server.History.Minutes.Counted.{
  IsCounted, IsProjected, KeepsPlain, update_rows-IsProjected, empty_state-IsCounted,
  new_update-IsProjected, committed-IsCounted,
}
use wardx.Server.History.Accumulator.{
  Accumulator, create, remember_version, exceeds_versions, clear_if_new, commit_update, acknowledge,
  without_at, contains_at, kept_states, prune_persisted, state_or_empty, commit_updates, commit,
  update_frames, found_or_new, prepare, ingest,
}

module _ (js : Js) (buffer : Buffer) where
  open js use {Number}

  -- One call on an accumulator.
  pub data Step (a : Accumulator Number) : Accumulator Number → Type 0 where
    ingested :
        {b : Accumulator Number} (envelope : Envelope Number) (persist_logs : List String)
        (answer : Bool)
        → ingest js buffer envelope persist_logs a ≡ ok (answer, b)
        → Step a b
    acknowledged : (starts : List ℕ) → Step a (acknowledge starts a)
    pruned : (through : ℕ) → Step a (prune_persisted through a)

  pub data Reach (a : Accumulator Number) : Accumulator Number → Type 0 where
    here : Reach a a
    next : {b c : Accumulator Number} → Reach a b → Step b c → Reach a c

  -- The rows that the loop of `prepare` over the frames keeps.
  abbrev pub FramesKeepPlain :
      Accumulator Number
      → Client
      → List String
      → List (Frame Number)
      → List (ℕ × Update Number)
      → Type 0
  FramesKeepPlain a client persist_logs [] updates = Unit {0}
  FramesKeepPlain a client persist_logs (frame ∷ frames) updates =
      let start = utc_bucket_start frame.from minute in
      let base = state_or_empty js a start in
      let before = found_or_new js base (find_at start updates) in
      let rows = history_rows js client frame persist_logs in
      KeepsPlain js buffer 0 rows base before × elim (update_rows js buffer 0 rows base before) [
        | err e ↦ Unit {0}
        | ok u ↦ FramesKeepPlain a client persist_logs frames (put_at start u updates)
      ]

  abbrev StepKeepsPlain : {a b : Accumulator Number} → Step a b → Type 0
  StepKeepsPlain {a} (ingested envelope persist_logs answer h) =
      FramesKeepPlain a envelope.client persist_logs envelope.frames []
  StepKeepsPlain (acknowledged starts) = Unit {0}
  StepKeepsPlain (pruned through) = Unit {0}

  -- In no envelope a row is made with a number that is not finite, as by a sum that overflows, or with
  -- a sketch whose text needs an escape.
  abbrev pub NoOverflow : {a b : Accumulator Number} → Reach a b → Type 0
  NoOverflow here = Unit {0}
  NoOverflow (next r s) = NoOverflow r × StepKeepsPlain s

  abbrev pub AreCounted : String → List (ℕ × State Number) → Type 0
  AreCounted project [] = Unit {0}
  AreCounted project ((start, s) ∷ states) =
      IsCounted js project start s × AreCounted project states

  AreCounted-find_at :
      (project : String) (start : ℕ) (s : State Number) (states : List (ℕ × State Number))
      → AreCounted project states
      → find_at start states ≡ some s
      → IsCounted js project start s
  unfolding find_at
  AreCounted-find_at project start s [] c h = absurd (cc h)
  AreCounted-find_at project start s ((k, t) ∷ states) c h = elim (Bool-cases (eqb k start)) [
    | inl same ↦
        subst (λ n. IsCounted js project n s) (eqb→eq k start same)
          (subst (IsCounted js project k) (some-injective (rw same at h)) c.0)
    | inr other ↦ AreCounted-find_at project start s states c.1 (rw other at h)
  ]

  AreCounted-put_at :
      (project : String) (start : ℕ) (s : State Number) (states : List (ℕ × State Number))
      → AreCounted project states
      → IsCounted js project start s
      → AreCounted project (put_at start s states)
  unfolding put_at
  AreCounted-put_at project start s [] c n = (n, tt)
  AreCounted-put_at project start s ((k, t) ∷ states) c n = elim (Bool-cases (eqb k start)) [
    | inl same ↦ rw same (subst (λ i. IsCounted js project i s) (sym (eqb→eq k start same)) n, c.1)
    | inr other ↦ rw other (c.0, AreCounted-put_at project start s states c.1 n)
  ]

  kept_states-AreCounted :
      (project : String) (through : ℕ) (dirty : List ℕ) (states : List (ℕ × State Number))
      → AreCounted project states
      → AreCounted project (kept_states through dirty states)
  unfolding kept_states
  kept_states-AreCounted project through dirty [] c = tt
  kept_states-AreCounted project through dirty ((start, s) ∷ states) c =
      elim (Bool-cases (leb (start + 60000) through && not (contains_at start dirty))) [
        | inl gone ↦ rw gone (kept_states-AreCounted project through dirty states c.1)
        | inr stays ↦ rw stays (c.0, kept_states-AreCounted project through dirty states c.1)
      ]

  state_or_empty-IsCounted :
      (a : Accumulator Number) (start : ℕ)
      → AreCounted a.project a.states
      → IsCounted js a.project start (state_or_empty js a start)
  state_or_empty-IsCounted a start c = elim (Option-cases (find_at start a.states)) [
    | inl missing ↦ rw (missing, state_or_empty) (empty_state-IsCounted js a.project start)
    | inr (s, there) ↦
        rw (there, state_or_empty) (AreCounted-find_at a.project start s a.states c there)
  ]

  -- The updates are of minutes of their own, and each projects its state rightly.
  abbrev AreReady : Accumulator Number → List (ℕ × Update Number) → Type 0
  AreReady a [] = Unit {0}
  AreReady a ((start, u) ∷ updates) =
      IsProjected js a.project start (state_or_empty js a start) u
      × (find_at start updates ≡ none)
      × AreReady a updates

  AreReady-find_at :
      (a : Accumulator Number) (start : ℕ) (u : Update Number) (updates : List (ℕ × Update Number))
      → AreReady a updates
      → find_at start updates ≡ some u
      → IsProjected js a.project start (state_or_empty js a start) u
  unfolding find_at
  AreReady-find_at a start u [] r h = absurd (cc h)
  AreReady-find_at a start u ((k, v) ∷ updates) r h = elim (Bool-cases (eqb k start)) [
    | inl same ↦
        subst (λ n. IsProjected js a.project n (state_or_empty js a n) u) (eqb→eq k start same)
          (subst (IsProjected js a.project k (state_or_empty js a k))
            (some-injective (rw same at h)) r.0)
    | inr other ↦ AreReady-find_at a start u updates r.2 (rw other at h)
  ]

  AreReady-put_at :
      (a : Accumulator Number) (start : ℕ) (u : Update Number) (updates : List (ℕ × Update Number))
      → AreReady a updates
      → IsProjected js a.project start (state_or_empty js a start) u
      → AreReady a (put_at start u updates)
  unfolding put_at find_at
  AreReady-put_at a start u [] r n = (n, refl, tt)
  AreReady-put_at a start u ((k, v) ∷ updates) r n = elim (Bool-cases (eqb k start)) [
    | inl same ↦ rw same (
      subst (λ i. IsProjected js a.project i (state_or_empty js a i) u) (sym (eqb→eq k start same))
          n,
      r.1,
      r.2,
    )
    | inr other ↦ rw other (
      r.0,
      ground (arith, find_at-put_at start k u updates, other, r.1),
      AreReady-put_at a start u updates r.2 n,
    )
  ]

  update_frames-AreReady :
      (a : Accumulator Number) (client : Client)
      → (persist_logs : List String) (frames : List (Frame Number))
      → (updates after : List (ℕ × Update Number)) → AreCounted a.project a.states
      → AreReady a updates
      → FramesKeepPlain a client persist_logs frames updates
      → update_frames js buffer a client persist_logs frames updates ≡ ok after
      → AreReady a after
  unfolding update_frames
  update_frames-AreReady a client persist_logs [] updates after c r n h =
      subst (AreReady a) (ok-injective h) r
  update_frames-AreReady a client persist_logs (frame ∷ frames) updates after c r n h =
      let start = utc_bucket_start frame.from minute in
      let base = state_or_empty js a start in
      let counted = state_or_empty-IsCounted a start c in
      let before = found_or_new js base (find_at start updates) in
      let projected : IsProjected js a.project start base before =
        elim (Option-cases (find_at start updates)) [
          | inl missing ↦
              rw (missing, found_or_new) (new_update-IsProjected js a.project start base counted)
          | inr (u, there) ↦ rw (there, found_or_new) (AreReady-find_at a start u updates r there)
        ] in
      let (u, u_ok, h) =
        bind-ok (update_rows js buffer 0 (history_rows js client frame persist_logs) base before) _
          h in
      update_frames-AreReady a client persist_logs frames (put_at start u updates) after c
        (AreReady-put_at a start u updates r (
          update_rows-IsProjected js buffer a.project start 0
            (history_rows js client frame persist_logs) base before u counted projected n.0 u_ok))
        (rw u_ok at n.1) h

  -- The accumulator after the first update of `commit`.
  abbrev committed : ℕ → Update Number → Accumulator Number → Accumulator Number
  committed start u a = record a {
    states = put_at start (commit_update u (state_or_empty js a start)) a.states;
    dirty = if contains_at start a.dirty then a.dirty else a.dirty ++ start ∷ [];
  }

  state_or_empty-committed :
      (start k : ℕ) (u : Update Number) (a : Accumulator Number)
      → eqb start k ≡ false
      → state_or_empty js (committed start u a) k ≡ state_or_empty js a k
  state_or_empty-committed start k u a e =
      let same : find_at k (put_at start (commit_update u (state_or_empty js a start)) a.states)
          ≡ find_at k a.states =
        find_at-put_at start k (commit_update u (state_or_empty js a start)) a.states ∙ rw e refl in
      ap (λ o. elim o [ none ↦ empty_state js a.project k | some s ↦ s ]) same

  AreReady-committed :
      (start : ℕ) (u : Update Number) (a : Accumulator Number)
      → (updates : List (ℕ × Update Number)) → find_at start updates ≡ none
      → AreReady a updates
      → AreReady (committed start u a) updates
  unfolding find_at
  AreReady-committed start u a [] f r = tt
  AreReady-committed start u a ((k, v) ∷ updates) f r = elim (Bool-cases (eqb k start)) [
    | inl same ↦ absurd (cc (rw same at f))
    | inr other ↦ (
      subst (λ s. IsProjected js a.project k s v)
          (sym (state_or_empty-committed start k u a (ground (arith, other)))) r.0,
      r.1,
      AreReady-committed start u a updates (rw other at f) r.2,
    )
  ]

  commit_updates-AreCounted :
      (updates : List (ℕ × Update Number)) (a : Accumulator Number)
      → AreReady a updates
      → AreCounted a.project a.states
      → AreCounted a.project (commit_updates js updates a).states
        × ((commit_updates js updates a).project ≡ a.project)
  unfolding commit_updates commit_update
  commit_updates-AreCounted [] a r c = (c, refl)
  commit_updates-AreCounted ((start, u) ∷ updates) a r c =
      commit_updates-AreCounted updates (committed start u a)
        (AreReady-committed start u a updates r.1 r.2)
        (AreCounted-put_at a.project start _ a.states c (
          committed-IsCounted js a.project start (state_or_empty js a start) u
            (clear_if_new u.rows (state_or_empty js a start)) (state_or_empty-IsCounted a start c)
            r.0))

  -- All the minutes of an accumulator are counted.
  abbrev pub IsCountedAll : Accumulator Number → Type 0
  IsCountedAll a = AreCounted a.project a.states

  acknowledge_keeps :
      (starts : List ℕ) (a : Accumulator Number)
      → IsCountedAll a
      → IsCountedAll (acknowledge starts a)
  unfolding acknowledge
  acknowledge_keeps [] a c = c
  acknowledge_keeps (start ∷ starts) a c =
      acknowledge_keeps starts (record a { dirty = without_at start a.dirty }) c

  AreReady-remember_version :
      (role version : String) (a : Accumulator Number) (updates : List (ℕ × Update Number))
      → AreReady a updates
      → AreReady (remember_version minute role version a) updates
  unfolding remember_version
  AreReady-remember_version role version a [] r = tt
  AreReady-remember_version role version a ((start, u) ∷ updates) r =
      (r.0, r.1, AreReady-remember_version role version a updates r.2)

  commit_keeps :
      (role version : String) (updates : List (ℕ × Update Number)) (a : Accumulator Number)
      → AreReady a updates
      → IsCountedAll a
      → IsCountedAll
          (commit js (record { role = role; app_version = version; updates = updates }) a)
  unfolding commit remember_version
  commit_keeps role version updates a r c =
      let remembered = remember_version minute role version a in
      let (counted, same) =
        commit_updates-AreCounted updates remembered
          (AreReady-remember_version role version a updates r) c in
      subst (λ p. AreCounted p (commit_updates js updates remembered).states) (sym same) counted

  ingest_keeps :
      (envelope : Envelope Number) (persist_logs : List String) (answer : Bool)
      (a b : Accumulator Number)
      → IsCountedAll a
      → FramesKeepPlain a envelope.client persist_logs envelope.frames []
      → ingest js buffer envelope persist_logs a ≡ ok (answer, b)
      → IsCountedAll b
  unfolding ingest prepare
  ingest_keeps envelope persist_logs answer a b c n h =
      let (prepared, prepared_ok, h) = bind-ok (prepare js buffer a envelope persist_logs) _ h in
      let (_, ready) =
        then-ok
          (guard (not (exceeds_versions a envelope.client.role envelope.client.app_version)) _) _
          prepared_ok in
      let (updates, updates_ok, made) =
        bind-ok (update_frames js buffer a envelope.client persist_logs envelope.frames []) _
          ready in
      let ready_updates =
        update_frames-AreReady a envelope.client persist_logs envelope.frames [] updates c tt n
          updates_ok in
      let role = envelope.client.role in
      let version = envelope.client.app_version in
      subst IsCountedAll (ap (λ p. p.1) (ok-injective h)) (
        subst (λ p. IsCountedAll (commit js p a)) (ok-injective made)
          (commit_keeps role version updates a ready_updates c))

  Step-IsCountedAll :
      (a b : Accumulator Number) (s : Step a b) → StepKeepsPlain s → IsCountedAll a → IsCountedAll b
  unfolding prune_persisted
  Step-IsCountedAll a b (ingested envelope persist_logs answer h) n c =
      ingest_keeps envelope persist_logs answer a b c n h
  Step-IsCountedAll a b (acknowledged starts) n c = acknowledge_keeps starts a c
  Step-IsCountedAll a b (pruned through) n c =
      kept_states-AreCounted a.project through a.dirty a.states c

  -- Whatever envelopes a new accumulator takes in, and whatever is acknowledged and pruned meanwhile,
  -- the bytes that it keeps for a minute are those of the JSON of the minute's bucket, and of each row
  -- those of the row, if no envelope makes a row with a number that is not finite, as by a sum that
  -- overflows, or with a sketch whose text needs an escape.
  pub Reach-IsCountedAll :
      (project : String) (allowance max_versions : ℕ) (a b : Accumulator Number)
      → create project allowance max_versions ≡ ok a
      → (r : Reach a b) → NoOverflow r
      → IsCountedAll b
  unfolding create
  Reach-IsCountedAll project allowance max_versions a b h here n =
      let (_, h) = then-ok (guard (not (project == "")) _) _ h in
      let (_, h) = then-ok (guard (not (ltb allowance 1)) _) _ h in
      let (_, h) = then-ok (guard (not (ltb max_versions 1)) _) _ h in
      subst IsCountedAll (ok-injective h) tt
  Reach-IsCountedAll project allowance max_versions a b h (next r s) n =
      Step-IsCountedAll _ b s n.1 (Reach-IsCountedAll project allowance max_versions a _ h r n.0)
