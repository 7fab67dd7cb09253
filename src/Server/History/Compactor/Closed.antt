-- ===== src/Server/History/Compactor/Closed.antt =====
-- What a compaction of packages/server/src/aggregation/history/HistoricalCompactor.js has done.
use wardx.Prelude.{
  ok, err, guard, Result-cases, bind-ok, then-ok, ℕ, ◌+◌, ◌%◌, ◌≤◌, ◌<◌, String, ◌≡◌, refl, sym, ap,
  ◌∙◌, inl, inr, Bool, true, false, List, [], ◌∷◌, arith, eq_refl,
}
use wardx.Prelude.Entries.{contains}
use wardx.Prelude.Js.{Js}
use wardx.Prelude.Json.{Json}
use wardx.Server.History.Sketch.{Buffer}
use wardx.Server.History.Rows.{Row}
use wardx.Server.History.Buckets.{
  Tier, minute, hour, day, Bucket, expected_width, merge_history_buckets,
}
use wardx.Server.History.Compactor.{
  utc_bucket_start, is_next, without, Store, Request, key_of, destination_to, assert_compactable,
  sources_of, all_finalized, target_of, compact_work, compact,
}

-- The start of a bucket is aligned, and the time lies in the bucket.
pub utc_bucket_start_bounds :
    (t : ℕ) (tier : Tier)
    → (utc_bucket_start t tier % expected_width tier ≡ 0)
      × (utc_bucket_start t tier ≤ t)
      × (t < utc_bucket_start t tier + expected_width tier)
unfolding utc_bucket_start expected_width
utc_bucket_start_bounds t minute = (omega arith, omega arith, omega arith)
utc_bucket_start_bounds t hour = (omega arith, omega arith, omega arith)
utc_bucket_start_bounds t day = (omega arith, omega arith, omega arith)

without_missing :
    (key : String) (keys : List String) → contains keys key ≡ false → without key keys ≡ keys
without_missing key [] h = refl
without_missing key (k ∷ keys) h = ground (arith, without_missing key keys)

module _ (js : Js) (buffer : Buffer) (locale_before : String → String → Bool)
    {Stored : Type 0} where
  open js use {Number}

  -- A compaction that stored `stored`, of the checked sources.
  pub record Compacts (store : Store Number Stored) (r : Request Number) (stored : Stored)
      : Type 0 where
    pub next_tier : is_next r.source_tier r.destination_tier ≡ true
    pub aligned : utc_bucket_start r.destination_from r.destination_tier ≡ r.destination_from
    pub sources : List (Bucket (Json Number))
    pub read : sources_of store r ≡ ok sources
    pub closed : all_finalized sources ≡ true
    pub bucket : Bucket (Row Number)
    pub merged : merge_history_buckets js buffer locale_before (target_of r) sources ≡ ok bucket
    pub replaced :
        store.replace_compacted_bucket r.source_tier r.destination_tier bucket (destination_to r)
        ≡ ok stored

  compact-run :
      (store : Store Number Stored) (r : Request Number) (in_flight : List String)
      → assert_compactable r in_flight ≡ ok tt
      → compact js buffer locale_before store r in_flight
        ≡ (compact_work js buffer locale_before store r, in_flight)
  unfolding compact assert_compactable
  compact-run store r in_flight may =
      let fresh : contains in_flight (key_of r) ≡ false = ground (arith, may) in
      rw (may, compact)
        (ap (λ keys. (compact_work js buffer locale_before store r, keys))
          (ground (arith, eq_refl (key_of r), without_missing (key_of r) in_flight fresh)))

  compact-refused :
      (store : Store Number Stored) (r : Request Number) (in_flight : List String) (e : String)
      → assert_compactable r in_flight ≡ err e
      → compact js buffer locale_before store r in_flight ≡ (err e, in_flight)
  unfolding compact
  compact-refused store r in_flight e refused = rw (refused, compact) refl

  compact_work-Compacts :
      (store : Store Number Stored) (r : Request Number) (in_flight : List String) (stored : Stored)
      → assert_compactable r in_flight ≡ ok tt
      → compact_work js buffer locale_before store r ≡ ok stored
      → Compacts store r stored
  unfolding compact_work assert_compactable
  compact_work-Compacts store r in_flight stored may h =
      let (sources, sources_ok, h) = bind-ok (sources_of store r) _ h in
      let (closed, h) = then-ok (guard (all_finalized sources) _) _ h in
      let (bucket, merged, replaced) =
        bind-ok (merge_history_buckets js buffer locale_before (target_of r) sources) _ h in
      record {
        next_tier = ground (arith, may);
        aligned = ground (arith, may);
        sources = sources;
        read = sources_ok;
        closed = ground (arith, closed);
        bucket = bucket;
        merged = merged;
        replaced = replaced;
      }

  -- A compaction that returns was of a tier into the next one, from an aligned start, and stored the
  -- merge of sources that were all final. Whether it returns or throws, the keys in flight after it are
  -- those before it.
  pub compact-Compacts :
      (store : Store Number Stored) (r : Request Number) (in_flight : List String)
      → ((stored : Stored)
          → (compact js buffer locale_before store r in_flight).0 ≡ ok stored
          → Compacts store r stored)
        × ((compact js buffer locale_before store r in_flight).1 ≡ in_flight)
  compact-Compacts store r in_flight = elim (Result-cases (assert_compactable r in_flight)) [
    | inl (tt, may) ↦
        let run = compact-run store r in_flight may in
        (
          λ stored h.
              compact_work-Compacts store r in_flight stored may (sym (ap (λ p. p.0) run) ∙ h),
          ap (λ p. p.1) run,
        )
    | inr (e, refused) ↦
        let run = compact-refused store r in_flight e refused in
        (λ stored h. absurd (cc (sym (ap (λ p. p.0) run) ∙ h)), ap (λ p. p.1) run)
  ]
