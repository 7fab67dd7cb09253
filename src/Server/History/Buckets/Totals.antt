-- ===== src/Server/History/Buckets/Totals.antt =====
-- The totals of what `mergeHistoryBuckets` of
-- packages/server/src/aggregation/history/HistoryBucket.js gives.
use Prim.Native.String.{◌++◌ as append}
use wardx.Prelude.{
  leb, Option-cases, ok, err, guard, bind-ok, then-ok, ok-injective, ℕ, ◌+◌, String, ◌≡◌, refl, sym,
  ap, ◌∙◌, subst, inl, inr, Bool, not, ◌&&◌, none, some, List, [], ◌∷◌, arith, ◌==◌,
}
use wardx.Prelude.Entries.{find, put}
use wardx.Prelude.Js.{Js}
use wardx.Prelude.Json.{Json}
use wardx.Server.History.Sketch.{Buffer, body_of, merge_hll_bodies, estimate_hll_body}
use wardx.Server.History.Rows.{
  Body, counter, event, drop_row, log_row, gauge, histogram, distinct, Row,
}
use wardx.Server.History.Series.{
  historical_series_key, compatible_bounds, merge_gauge, merge_histogram, merge_sketch, merge_row,
  merge_historical_row,
}
use wardx.Server.History.Buckets.{
  Bucket, assert_history_boundary, normalize_rows, normalize_history_bucket, insert_row, sort_rows,
  values_of, merge_rows, merge_sources, merge_history_buckets,
}

module _ {N : Type 0} where
  -- How many events, logs, drops, samples or observations a row stands for.
  abbrev pub count_of : Body N → ℕ
  count_of (counter _) = 0
  count_of (event count) = count
  count_of (drop_row count) = count
  count_of (log_row _ count) = count
  count_of (gauge g) = g.sample_count
  count_of (histogram h) = h.count
  count_of (distinct _ _) = 0

  abbrev pub counts_of : List (Row N) → ℕ
  counts_of [] = 0
  counts_of (row ∷ rows) = count_of row.body + counts_of rows

abbrev pub drops_of : {R : Type 0} → List (Bucket R) → ℕ
drops_of [] = 0
drops_of (bucket ∷ buckets) = bucket.drop_count + drops_of buckets

module _ (js : Js) (buffer : Buffer) where
  open js use {Number, of_nat, show}

  merge_row-count_of :
      (name : String) (existing incoming merged : Body Number)
      → merge_row js buffer name existing incoming ≡ ok merged
      → count_of merged ≡ count_of existing + count_of incoming
  unfolding merge_row merge_gauge merge_histogram merge_sketch
  merge_row-count_of name (counter a) (counter b) merged h =
      subst (λ m. count_of m ≡ 0 + 0) (ok-injective h) (omega arith)
  merge_row-count_of name (event a) (event b) merged h =
      subst (λ m. count_of m ≡ a + b) (ok-injective h) refl
  merge_row-count_of name (log_row l a) (log_row k b) merged h =
      subst (λ m. count_of m ≡ a + b) (ok-injective h) refl
  merge_row-count_of name (drop_row a) (drop_row b) merged h =
      subst (λ m. count_of m ≡ a + b) (ok-injective h) refl
  merge_row-count_of name (gauge a) (gauge b) merged h =
      subst (λ m. count_of m ≡ a.sample_count + b.sample_count) (ok-injective h) refl
  merge_row-count_of name (histogram a) (histogram b) merged h =
      let (body, body_ok, h) = bind-ok (merge_histogram js name a b) _ h in
      let (_, made) = then-ok (guard (compatible_bounds js a.buckets b.buckets) _) _ body_ok in
      subst (λ m. count_of m ≡ a.count + b.count) (ok-injective h)
        (sym (ap (λ x. x.count) (ok-injective made)))
  merge_row-count_of name (distinct a x) (distinct b y) merged h =
      let (body, _, h) = bind-ok (merge_hll_bodies js buffer (body_of a) (body_of b)) _ h in
      let (estimate, _, h) = bind-ok (estimate_hll_body js buffer (body_of body)) _ h in
      subst (λ m. count_of m ≡ 0 + 0) (ok-injective h) (omega arith)
  merge_row-count_of name existing incoming merged h = absurd (cc h)

  merge_historical_row-count_of :
      (existing incoming merged : Row Number)
      → merge_historical_row js buffer existing incoming ≡ ok merged
      → count_of merged.body ≡ count_of existing.body + count_of incoming.body
  unfolding merge_historical_row
  merge_historical_row-count_of existing incoming merged h =
      let (body, body_ok, h) =
        bind-ok (merge_row js buffer incoming.common.name existing.body incoming.body) _ h in
      merge_row-count_of incoming.common.name existing.body incoming.body merged.body
        (body_ok ∙ ap (λ r. ok r.body) (ok-injective h))

  module _ (locale_before : String → String → Bool) where
    counts_of-insert_row :
        (row : Row Number) (rows : List (Row Number))
        → counts_of (insert_row js buffer locale_before row rows)
          ≡ count_of row.body + counts_of rows
    unfolding insert_row
    counts_of-insert_row row [] = refl
    counts_of-insert_row row (r ∷ rows) = ground (arith, counts_of-insert_row row rows)

    counts_of-sort_rows :
        (rows : List (Row Number))
        → counts_of (sort_rows js buffer locale_before rows) ≡ counts_of rows
    unfolding sort_rows
    counts_of-sort_rows [] = refl
    counts_of-sort_rows (row ∷ rows) =
        counts_of-insert_row row (sort_rows js buffer locale_before rows)
        ∙ ap (λ n. count_of row.body + n) (counts_of-sort_rows rows)

  abbrev held : List (String × Row Number) → ℕ
  held [] = 0
  held ((_, row) ∷ entries) = count_of row.body + held entries

  counts_of-values_of :
      (entries : List (String × Row Number)) → counts_of (values_of entries) ≡ held entries
  counts_of-values_of [] = refl
  counts_of-values_of ((_, row) ∷ entries) =
      ap (λ n. count_of row.body + n) (counts_of-values_of entries)

  held-put_new :
      (key : String) (row : Row Number) (entries : List (String × Row Number))
      → find key entries ≡ none
      → held (put key row entries) ≡ held entries + count_of row.body
  unfolding find put
  held-put_new key row [] h = omega arith
  held-put_new key row ((k, r) ∷ entries) h = ground (arith, held-put_new key row entries)

  held-put_old :
      (key : String) (row existing : Row Number) (entries : List (String × Row Number))
      → find key entries ≡ some existing
      → held (put key row entries) + count_of existing.body ≡ held entries + count_of row.body
  unfolding find put
  held-put_old key row existing [] h = absurd (cc h)
  held-put_old key row existing ((k, r) ∷ entries) h =
      ground (arith, held-put_old key row existing entries)

  merge_rows-held :
      (rows : List (Row Number)) (entries after : List (String × Row Number))
      → merge_rows js buffer rows entries ≡ ok after
      → held after ≡ held entries + counts_of rows
  unfolding merge_rows
  merge_rows-held [] entries after h =
      subst (λ a. held a ≡ held entries + 0) (ok-injective h) (omega arith)
  merge_rows-held (row ∷ rows) entries after h =
      let key = historical_series_key js row in
      elim (Option-cases (find key entries)) [
        | inl unknown ↦
            let rest =
              merge_rows-held rows (put key row entries) after (rw (unknown, merge_rows) at h) in
            omega (arith, rest, held-put_new key row entries unknown)
        | inr (existing, known) ↦
            let (merged, merged_ok, more) =
              bind-ok (merge_historical_row js buffer existing row) _
                (rw (known, merge_rows) at h) in
            let rest = merge_rows-held rows (put key merged entries) after more in
            omega (
              arith,
              rest,
              held-put_old key merged existing entries known,
              merge_historical_row-count_of existing row merged merged_ok,
            )
      ]

  module _ (locale_before : String → String → Bool) where
    -- What the sources hold once they are checked.
    abbrev pub sources_held : ℕ → List (Bucket (Json Number)) → ℕ
    sources_held index [] = 0
    sources_held index (bucket ∷ buckets) =
        elim (normalize_history_bucket js buffer locale_before bucket
          (append "sourceBuckets[" (append (show (of_nat index)) "]"))) [
            | ok source ↦ counts_of source.rows + sources_held (index + 1) buckets
            | err _ ↦ sources_held (index + 1) buckets
          ]

    normalize_history_bucket-drops :
        (bucket : Bucket (Json Number)) (label : String) (source : Bucket (Row Number))
        → normalize_history_bucket js buffer locale_before bucket label ≡ ok source
        → source.drop_count ≡ bucket.drop_count
    unfolding normalize_history_bucket
    normalize_history_bucket-drops bucket label source h =
        let (_, h) =
          then-ok (assert_history_boundary bucket.tier bucket.from bucket.to label) _ h in
        let (rows, _, h) = bind-ok (normalize_rows js buffer 0 bucket.rows label) _ h in
        let (_, h) = then-ok (guard (not (bucket.project == "")) _) _ h in
        sym (ap (λ b. b.drop_count) (ok-injective h))

    merge_sources-held :
        (target : Bucket (Json Number)) (index : ℕ) (sources : List (Bucket (Json Number)))
        → (drops : ℕ) (entries : List (String × Row Number))
        → (all : ℕ) (after : List (String × Row Number))
        → merge_sources js buffer locale_before target index sources drops entries ≡ ok (all, after)
        → (all ≡ drops + drops_of sources)
          × (held after ≡ held entries + sources_held index sources)
    unfolding merge_sources
    merge_sources-held target index [] drops entries all after h =
        let same = ok-injective h in
        (sym (ap (λ p. p.0) same) ∙ omega arith, sym (ap (λ p. held p.1) same) ∙ omega arith)
    merge_sources-held target index (bucket ∷ sources) drops entries all after h =
        let label = append "sourceBuckets[" (append (show (of_nat index)) "]") in
        let (source, source_ok, h) =
          bind-ok (normalize_history_bucket js buffer locale_before bucket label) _ h in
        let (_, h) =
          then-ok
            (guard
              ((source.project == target.project)
                && leb target.from source.from
                && leb source.to target.to)
              _)
            _ h in
        let (rows, rows_ok, h) = bind-ok (merge_rows js buffer source.rows entries) _ h in
        let (drops_kept, rows_kept) =
          merge_sources-held target (index + 1) sources (drops + source.drop_count) rows all after
            h in
        let same_drops = normalize_history_bucket-drops bucket label source source_ok in
        let added = merge_rows-held source.rows entries rows rows_ok in
        (
          omega (arith, drops_kept, same_drops),
          rw (source_ok, sources_held) (omega (arith, rows_kept, added)),
        )

    -- The merged bucket has the drops of all sources, and its rows count as many events, logs, drops,
    -- samples and observations as those of the checked sources together.
    pub merge_history_buckets-totals :
        (target : Bucket (Json Number)) (sources : List (Bucket (Json Number)))
        → (bucket : Bucket (Row Number))
        → merge_history_buckets js buffer locale_before target sources ≡ ok bucket
        → (bucket.drop_count ≡ drops_of sources) × (counts_of bucket.rows ≡ sources_held 0 sources)
    unfolding merge_history_buckets
    merge_history_buckets-totals target sources bucket h =
        let (expected, _, h) =
          bind-ok (normalize_history_bucket js buffer locale_before target "history bucket") _ h in
        let ((drops, merged), merged_ok, h) =
          bind-ok (merge_sources js buffer locale_before target 0 sources 0 []) _ h in
        let (all_drops, all_rows) =
          merge_sources-held target 0 sources 0 [] drops merged merged_ok in
        let same = ok-injective h in
        (
          sym (ap (λ b. b.drop_count) same) ∙ (all_drops ∙ omega arith),
          sym (ap (λ b. counts_of b.rows) same)
              ∙ (counts_of-sort_rows locale_before (values_of merged)
                  ∙ (counts_of-values_of merged ∙ (all_rows ∙ omega arith))),
        )
