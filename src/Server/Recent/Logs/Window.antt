-- ===== src/Server/Recent/Logs/Window.antt =====
-- What is kept of the logs that come in, and what a query finds in it.
use mathlib.Core.List.{reverse}
use wardx.Prelude.{
  leb, if◌then◌else◌, tests, Bool-cases, Option-cases, length, take, drop, ℕ, suc, ◌+◌, ◌-◌, ◌≤◌,
  ◌<◌, max, String, ◌≡◌, refl, sym, ap, ◌∙◌, inl, inr, Bool, Option, none, some, List, [], ◌∷◌,
  ◌++◌, append-nil, append_assoc, arith,
}
use wardx.Server.Recent.Shift.{shift_to, shift_to-short, shift_to-append, shift_to-eq_drop}
use wardx.Server.Recent.Logs.{
  Row, Log, RecentLogs, Filter, row_of, is_row, push, push_logs, ingest, matches, is_full,
  query_from, query,
}

module _ {V : Type 0} where
  -- The row of a log that passes the checks.
  abbrev pub kept : Log V → String → String → List (Row V)
  kept log instance_id role = if is_row log then row_of log instance_id role ∷ [] else []

  pub rows_of : List (Log V) → String → String → List (Row V)
  rows_of [] instance_id role = []
  rows_of (log ∷ logs) instance_id role = kept log instance_id role ++ rows_of logs instance_id role

  pub all_rows : List (List (Log V)) → String → String → List (Row V)
  all_rows [] instance_id role = []
  all_rows (logs ∷ frames) instance_id role =
      rows_of logs instance_id role ++ all_rows frames instance_id role

  push-buf :
      (log : Log V) (instance_id role : String) (s : RecentLogs V) (rows : List (Row V))
      → s.buf ≡ shift_to s.max rows
      → ((push log instance_id role s).buf ≡ shift_to s.max (rows ++ kept log instance_id role))
        × ((push log instance_id role s).max ≡ s.max)
  unfolding push
  push-buf log instance_id role s rows e = elim (Bool-cases (is_row log)) [
    | inr skipped ↦ rw skipped (e ∙ ap (shift_to s.max) (sym (append-nil rows)), refl)
    | inl kept ↦ rw kept (
      ap (λ l. shift_to s.max (l ++ row_of log instance_id role ∷ [])) e
          ∙ shift_to-append s.max rows (row_of log instance_id role ∷ []),
      refl,
    )
  ]

  push_logs-buf :
      (logs : List (Log V)) (instance_id role : String) (s : RecentLogs V) (rows : List (Row V))
      → s.buf ≡ shift_to s.max rows
      → ((push_logs logs instance_id role s).buf
          ≡ shift_to s.max (rows ++ rows_of logs instance_id role))
        × ((push_logs logs instance_id role s).max ≡ s.max)
  unfolding push_logs rows_of
  push_logs-buf [] instance_id role s rows e =
      (e ∙ ap (shift_to s.max) (sym (append-nil rows)), refl)
  push_logs-buf (log ∷ logs) instance_id role s rows e =
      let (b, m) = push-buf log instance_id role s rows e in
      let t = push log instance_id role s in
      let all = rows ++ kept log instance_id role in
      let (c, n) =
        push_logs-buf logs instance_id role t all (b ∙ ap (λ k. shift_to k all) (sym m)) in
      (
        c
            ∙ ap (λ k. shift_to k (all ++ rows_of logs instance_id role)) m
            ∙ ap (shift_to s.max)
                (append_assoc rows (kept log instance_id role) (rows_of logs instance_id role)),
        n ∙ m,
      )

  ingest-shift_to :
      (frames : List (List (Log V))) (instance_id role : String) (s : RecentLogs V)
      (rows : List (Row V))
      → s.buf ≡ shift_to s.max rows
      → (ingest frames instance_id role s).buf
        ≡ shift_to s.max (rows ++ all_rows frames instance_id role)
  unfolding ingest all_rows
  ingest-shift_to [] instance_id role s rows e = e ∙ ap (shift_to s.max) (sym (append-nil rows))
  ingest-shift_to (logs ∷ frames) instance_id role s rows e =
      let step = push_logs-buf logs instance_id role s rows e in
      let m = step.1 in
      ingest-shift_to frames instance_id role (push_logs logs instance_id role s)
        (rows ++ rows_of logs instance_id role)
        (step.0 ∙ ap (λ k. shift_to k (rows ++ rows_of logs instance_id role)) (sym m))
      ∙ ap
          (λ k.
            shift_to k
              ((rows ++ rows_of logs instance_id role) ++ all_rows frames instance_id role))
          m
      ∙ ap (shift_to s.max)
          (append_assoc rows (rows_of logs instance_id role) (all_rows frames instance_id role))

  -- From a window within its limit, an envelope leaves the last `max` of the rows of before and of its
  -- own rows that pass the checks, in their order over all frames.
  pub ingest-window :
      (frames : List (List (Log V))) (instance_id role : String) (s : RecentLogs V)
      → length s.buf ≤ s.max
      → (ingest frames instance_id role s).buf
        ≡ drop
            (length (s.buf ++ all_rows frames instance_id role) - s.max)
            (s.buf ++ all_rows frames instance_id role)
  ingest-window frames instance_id role s h =
      ingest-shift_to frames instance_id role s s.buf (sym (shift_to-short s.max s.buf h))
      ∙ shift_to-eq_drop s.max (s.buf ++ all_rows frames instance_id role)

  module _ (same : V → V → Bool) where
    pub select : Filter V → List (Row V) → List (Row V)
    select filter [] = []
    select filter (row ∷ rows) =
        if matches same filter row then row ∷ select filter rows else select filter rows

    -- At most the limit, but one row where the limit is 0.
    abbrev pub limited : Option ℕ → List (Row V) → List (Row V)
    limited none rows = rows
    limited (some limit) rows = take (max limit 1) rows

    query_from-all :
        (filter : Filter V) (found : ℕ) (rows : List (Row V))
        → filter.limit ≡ none
        → query_from same filter found rows ≡ select filter rows
    unfolding query_from select
    query_from-all filter found [] e = refl
    query_from-all filter found (row ∷ rows) e = elim (Bool-cases (matches same filter row)) [
      | inr other ↦ rw (other, query_from) (query_from-all filter found rows e)
      | inl hit ↦
          rw (hit, query_from)
            (rw (ap (λ l. is_full same l (found + 1)) e)
              (ap (λ l. row ∷ l) (query_from-all filter (found + 1) rows e)))
    ]

    query_from-limit :
        (filter : Filter V) (limit found k : ℕ) (rows : List (Row V))
        → filter.limit ≡ some limit
        → max limit 1 ≡ found + suc k
        → found < max limit 1
        → query_from same filter found rows ≡ take (suc k) (select filter rows)
    unfolding query_from select
    query_from-limit filter limit found k [] e h l = refl
    query_from-limit filter limit found k (row ∷ rows) e h l =
        elim (Bool-cases (matches same filter row)) [
          | inr other ↦ rw (other, query_from) (query_from-limit filter limit found k rows e h l)
          | inl hit ↦
              rw (hit, query_from)
                (elim (Bool-cases (leb limit (found + 1))) [
                  | inl full ↦ rw (ap (λ m. is_full same m (found + 1)) e ∙ full) (
                      ap (λ n. row ∷ take n (select filter rows)) {x = 0} {y = k}
                        (omega (tests, full, h)))
                  | inr more ↦ rw (ap (λ m. is_full same m (found + 1)) e ∙ more) (
                      ap (λ rs. row ∷ rs)
                        (query_from-limit filter limit (found + 1) (k - 1) rows e
                            (omega (tests, more, h)) (omega (tests, more))
                          ∙ ap (λ n. take n (select filter rows)) {x = suc (k - 1)} {y = k}
                              (omega (tests, more, h))))
                ])
        ]

    -- A query without a limit gives the rows that match, the newest first; with a limit, the first of
    -- these, as many as the limit says, and one where it says none.
    pub query-limited :
        (filter : Filter V) (s : RecentLogs V)
        → query same filter s ≡ limited filter.limit (select filter (reverse s.buf))
    unfolding query
    query-limited filter s = elim (Option-cases filter.limit) [
      | inl none_such ↦
          query_from-all filter 0 (reverse s.buf) none_such
          ∙ ap (λ l. limited l (select filter (reverse s.buf))) (sym none_such)
      | inr (limit, e) ↦
          query_from-limit filter limit 0 (max limit 1 - 1) (reverse s.buf) e (omega arith)
            (omega arith)
          ∙ ap (λ n. take n (select filter (reverse s.buf))) {x = suc (max limit 1 - 1)}
              {y = max limit 1} (omega arith)
          ∙ ap (λ l. limited l (select filter (reverse s.buf))) (sym e)
    ]
