-- ===== src/Server/History/Minutes/Counted.antt =====
-- The count of bytes that packages/server/src/aggregation/history/HistoryAccumulator.js keeps of a
-- minute is that of its JSON.
use Prim.Native.String.{◌++◌ as append}
use wardx.Prelude.{
  Bool-cases, Option-cases, length, ok, err, bind-ok, ok-injective, ℕ, ◌+◌, ◌-◌, ◌≤◌, String, ◌≡◌,
  refl, sym, ap, ◌∙◌, subst, ◌↔◌, inl, inr, Option, none, some, List, [], ◌∷◌, arith, ◌==◌,
}
use wardx.Prelude.Entries.{
  find, put, find-put, put-Distinct, length-put_new, length-put_old, Distinct, AllValues,
  AllValues-put, AllValues-find,
}
use wardx.Prelude.Updates.{or_else, put_all, put_all-put, find-put_all}
use wardx.Prelude.Js.{Js}
use wardx.Prelude.Json.{Json}
use wardx.Server.History.Sketch.{Buffer}
use wardx.Server.History.Rows.{Row}
use wardx.Server.History.Series.{normalize_historical_row, historical_series_key}
use wardx.Server.History.Bytes.{
  json_bytes, items_bytes, row_bytes, IsPlain, merged_row_bytes-row_bytes,
}
use wardx.Server.History.Minutes.{
  State, Update, row_items, minute_json, bucket_bytes, empty_state, next_bytes, grown, extend,
  add_row, merge_with, update_rows, new_update,
}

module _ (js : Js) where
  open js use {Number}

  abbrev pub Rows : Type 0
  Rows = List (String × Row Number)

  -- The bytes of the rows, each with a comma.
  abbrev weigh : Rows → ℕ
  weigh [] = 0
  weigh ((_, row) ∷ rows) = 1 + row_bytes js row + weigh rows

  items_bytes-row_items : (rows : Rows) → items_bytes js (row_items js rows) ≡ weigh rows
  unfolding json_bytes row_items row_bytes
  items_bytes-row_items [] = refl
  items_bytes-row_items ((_, row) ∷ rows) = omega (arith, items_bytes-row_items rows)

  bucket_bytes-weigh :
      (project : String) (start : ℕ) (rows : Rows)
      → bucket_bytes js project start rows ≡ bucket_bytes js project start [] + (weigh rows - 1)
  unfolding bucket_bytes minute_json json_bytes row_items row_bytes
  bucket_bytes-weigh project start [] = omega arith
  bucket_bytes-weigh project start ((_, row) ∷ rows) = omega (arith, items_bytes-row_items rows)

  weigh-put_new :
      (key : String) (row : Row Number) (rows : Rows)
      → find key rows ≡ none
      → weigh (put key row rows) ≡ weigh rows + 1 + row_bytes js row
  unfolding find put
  weigh-put_new key row [] h = omega arith
  weigh-put_new key row ((k, r) ∷ rows) h = ground (arith, weigh-put_new key row rows)

  weigh-put_old :
      (key : String) (row current : Row Number) (rows : Rows)
      → find key rows ≡ some current
      → weigh (put key row rows) + row_bytes js current ≡ weigh rows + row_bytes js row
  unfolding find put
  weigh-put_old key row current [] h = absurd (cc h)
  weigh-put_old key row current ((k, r) ∷ rows) h =
      ground (arith, weigh-put_old key row current rows)

  weigh-find :
      (key : String) (current : Row Number) (rows : Rows)
      → find key rows ≡ some current
      → 1 + row_bytes js current ≤ weigh rows
  unfolding find
  weigh-find key current [] h = absurd (cc h)
  weigh-find key current ((k, r) ∷ rows) h = ground (arith, weigh-find key current rows)

  -- There is no weight exactly if there is no row.
  weigh-length : (rows : Rows) → (weigh rows ≤ 0) ↔ (length rows ≤ 0)
  weigh-length [] = (λ h. h, λ h. h)
  weigh-length ((_, row) ∷ rows) = (λ h. absurd (omega (arith, h)), λ h. absurd (omega (arith, h)))

  abbrev size_of : Option (Row Number) → Option ℕ
  size_of none = none
  size_of (some row) = some (row_bytes js row)

  abbrev pub IsSized : Rows → List (String × ℕ) → Type 0
  IsSized rows sizes = (key : String) → find key sizes ≡ size_of (find key rows)

  abbrev pub ArePlain : Rows → Type 0
  ArePlain rows = AllValues (λ row. IsPlain js row.body) rows

  -- The rows have their bytes noted, and `bytes` are those of the whole bucket.
  pub record IsCounted (project : String) (start : ℕ) (s : State Number) : Type 0 where
    pub sized : IsSized s.rows s.row_bytes
    pub plain : ArePlain s.rows
    pub bytes : s.bytes ≡ bucket_bytes js project start s.rows

  -- So have those of an update, and `projected_bytes` are those of the bucket once it is committed.
  pub record IsProjected (project : String) (start : ℕ) (base : State Number) (u : Update Number)
      : Type 0 where
    pub sized : IsSized u.rows u.row_bytes
    pub plain : ArePlain u.rows
    pub own_rows : Distinct u.rows
    pub own_sizes : Distinct u.row_bytes
    pub added : length base.rows + u.added ≡ length (put_all u.rows base.rows)
    pub projected : u.projected_bytes ≡ bucket_bytes js project start (put_all u.rows base.rows)

  or_else-size_of :
      (a b : Option (Row Number)) → or_else (size_of a) (size_of b) ≡ size_of (or_else a b)
  or_else-size_of none b = refl
  or_else-size_of (some a) b = refl

  IsSized-put :
      (key : String) (row : Row Number) (size : ℕ) (rows : Rows) (sizes : List (String × ℕ))
      → size ≡ row_bytes js row
      → IsSized rows sizes
      → IsSized (put key row rows) (put key size sizes)
  IsSized-put key row size rows sizes same h j = elim (Bool-cases (key == j)) [
    | inl here ↦ rw (find-put key j size sizes, find-put key j row rows, here) (ap some same)
    | inr other ↦ rw (find-put key j size sizes, find-put key j row rows, other) (h j)
  ]

  grown-projected :
      (project : String) (start : ℕ) (key : String) (current : Option (Row Number))
      → (merged : Row Number) (after : Rows) (bytes count : ℕ) → find key after ≡ current
      → count ≡ length after
      → bytes ≡ bucket_bytes js project start after
      → grown (size_of current) bytes (row_bytes js merged) count
        ≡ bucket_bytes js project start (put key merged after)
  grown-projected project start key none merged after bytes count h c b =
      let w = bucket_bytes-weigh project start after in
      let v = bucket_bytes-weigh project start (put key merged after) in
      let n = weigh-put_new key merged after h in
      let z = weigh-length after in ground (arith, w, v, n, z, b, c)
  grown-projected project start key (some current) merged after bytes count h c b =
      let w = bucket_bytes-weigh project start after in
      let v = bucket_bytes-weigh project start (put key merged after) in
      let n = weigh-put_old key merged current after h in
      let l = weigh-find key current after h in omega (arith, w, v, n, l, b)

  -- Each row that the loop of `prepare` keeps has finite numbers, and a sketch whose text needs no
  -- escape in JSON.
  abbrev pub KeepsPlain : Buffer → ℕ → List (Json Number) → State Number → Update Number → Type 0
  KeepsPlain buffer index [] base u = Unit {0}
  KeepsPlain buffer index (input ∷ inputs) base u =
      elim (normalize_historical_row js buffer input
        (append "history bucket.rows[" (append (js.show (js.of_nat index)) "]"))) [
          | err e ↦ Unit {0}
          | ok row ↦
              let key = historical_series_key js row in
              let current = or_else (find key u.rows) (find key base.rows) in
              elim (merge_with js buffer current row) [
                | err e ↦ Unit {0}
                | ok merged ↦
                    IsPlain js merged.body
                    × KeepsPlain buffer (index + 1) inputs base
                        (add_row js base key current merged u)
              ]
        ]

  module _ (buffer : Buffer) where
    merge_with-next_bytes :
        (current : Option (Row Number)) (row merged : Row Number)
        → merge_with js buffer current row ≡ ok merged
        → ((c : Row Number) → current ≡ some c → IsPlain js c.body)
        → IsPlain js merged.body
        → next_bytes js (size_of current) current merged ≡ row_bytes js merged
    unfolding merge_with
    merge_with-next_bytes none row merged h c p = refl
    merge_with-next_bytes (some current) row merged h c p =
        merged_row_bytes-row_bytes js buffer current row merged h (c current refl) p

    more_added :
        (key : String) (current : Option (Row Number)) (merged : Row Number) (after : Rows)
        → (base added : ℕ) → find key after ≡ current
        → base + added ≡ length after
        → base + elim (size_of current) [ none ↦ added + 1 | some _ ↦ added ]
          ≡ length (put key merged after)
    more_added key none merged after base added h e =
        omega (arith, length-put_new key merged after h, e)
    more_added key (some current) merged after base added h e =
        omega (arith, length-put_old key merged current after h, e)

    extend-IsProjected :
        (project : String) (start : ℕ) (key : String) (base : State Number) (u : Update Number)
        → (current : Option (Row Number)) (merged : Row Number) → IsProjected project start base u
        → find key (put_all u.rows base.rows) ≡ current
        → IsPlain js merged.body
        → next_bytes js (size_of current) current merged ≡ row_bytes js merged
        → IsProjected project start base
            (extend js (size_of current) (length base.rows) key current merged u)
    unfolding extend
    extend-IsProjected project start key base u current merged i found plain next =
        let after = put_all u.rows base.rows in
        let same : put_all (put key merged u.rows) base.rows ≡ put key merged after =
          put_all-put key merged u.rows base.rows i.own_rows in
        record {
          sized = IsSized-put key merged _ u.rows u.row_bytes next i.sized;
          plain = AllValues-put (λ r. IsPlain js r.body) key merged u.rows plain i.plain;
          own_rows = put-Distinct key merged u.rows i.own_rows;
          own_sizes = put-Distinct key _ u.row_bytes i.own_sizes;
          added =
              more_added key current merged after (length base.rows) u.added found i.added
              ∙ ap (λ rows. length rows) (sym same);
          projected =
              ap (λ n. grown (size_of current) u.projected_bytes n (length base.rows + u.added))
                next
              ∙ (grown-projected project start key current merged after u.projected_bytes
                    (length base.rows + u.added) found i.added i.projected
                  ∙ ap (λ rows. bucket_bytes js project start rows) (sym same));
        }

    or_else-IsPlain :
        (key : String) (rows base : Rows) (c : Row Number)
        → ArePlain rows
        → ArePlain base
        → or_else (find key rows) (find key base) ≡ some c
        → IsPlain js c.body
    or_else-IsPlain key rows base c p b h = elim (Option-cases (find key rows)) [
      | inl missing ↦ AllValues-find (λ r. IsPlain js r.body) key c base (rw missing at h) b
      | inr (r, there) ↦
          AllValues-find (λ r. IsPlain js r.body) key c rows (there ∙ (rw there at h)) p
    ]

    add_row-IsProjected :
        (project : String) (start : ℕ) (key : String) (base : State Number) (u : Update Number)
        → (row merged : Row Number) → IsCounted project start base
        → IsProjected project start base u
        → IsPlain js merged.body
        → merge_with js buffer (or_else (find key u.rows) (find key base.rows)) row ≡ ok merged
        → IsProjected project start base
            (add_row js base key (or_else (find key u.rows) (find key base.rows)) merged u)
    unfolding add_row
    add_row-IsProjected project start key base u row merged b i p h =
        let current = or_else (find key u.rows) (find key base.rows) in
        let previous : or_else (find key u.row_bytes) (find key base.row_bytes) ≡ size_of current =
          rw (i.sized key, b.sized key) (or_else-size_of (find key u.rows) (find key base.rows)) in
        let next =
          merge_with-next_bytes current row merged h
            (λ c e. or_else-IsPlain key u.rows base.rows c i.plain b.plain e) p in
        subst
          (λ o.
            IsProjected project start base (extend js o (length base.rows) key current merged u))
          (sym previous)
          (extend-IsProjected project start key base u current merged i
            (find-put_all key u.rows base.rows i.own_rows) p next)

    -- The rows of a frame keep the projection right.
    pub update_rows-IsProjected :
        (project : String) (start index : ℕ) (inputs : List (Json Number)) (base : State Number)
        → (u after : Update Number) → IsCounted project start base
        → IsProjected project start base u
        → KeepsPlain buffer index inputs base u
        → update_rows js buffer index inputs base u ≡ ok after
        → IsProjected project start base after
    unfolding update_rows
    update_rows-IsProjected project start index [] base u after b i n h =
        subst (IsProjected project start base) (ok-injective h) i
    update_rows-IsProjected project start index (input ∷ inputs) base u after b i n h =
        let (row, row_ok, h) = bind-ok (normalize_historical_row js buffer input _) _ h in
        let key = historical_series_key js row in
        let (merged, merged_ok, h) =
          bind-ok (merge_with js buffer (or_else (find key u.rows) (find key base.rows)) row) _ h in
        let (plain, n) = rw merged_ok at (rw (row_ok, KeepsPlain) at n) in
        update_rows-IsProjected project start (index + 1) inputs base _ after b
          (add_row-IsProjected project start key base u row merged b i plain merged_ok) n h

  pub empty_state-IsCounted :
      (project : String) (start : ℕ) → IsCounted project start (empty_state js project start)
  unfolding empty_state find
  empty_state-IsCounted project start = record { sized = λ key. refl; plain = tt; bytes = refl }

  pub new_update-IsProjected :
      (project : String) (start : ℕ) (base : State Number)
      → IsCounted project start base
      → IsProjected project start base (new_update js base)
  unfolding new_update find put_all
  new_update-IsProjected project start base b = record {
    sized = λ key. refl;
    plain = tt;
    own_rows = tt;
    own_sizes = tt;
    added = omega arith;
    projected = b.bytes;
  }

  AllValues-put_all :
      (updates rows : Rows) → ArePlain updates → ArePlain rows → ArePlain (put_all updates rows)
  unfolding put_all
  AllValues-put_all [] rows u r = r
  AllValues-put_all ((key, row) ∷ updates) rows u r =
      AllValues-put_all updates (put key row rows) u.1
        (AllValues-put (λ x. IsPlain js x.body) key row rows u.0 r)

  -- The state that an update leaves, whatever is in its cache.
  pub committed-IsCounted :
      (project : String) (start : ℕ) (base : State Number) (u : Update Number)
      → (cache : Option (List String)) → IsCounted project start base
      → IsProjected project start base u
      → IsCounted project start (record {
        rows = put_all u.rows base.rows;
        row_bytes = put_all u.row_bytes base.row_bytes;
        sorted_keys = cache;
        bytes = u.projected_bytes;
      })
  committed-IsCounted project start base u cache b i = record {
    sized = λ key.
        find-put_all key u.row_bytes base.row_bytes i.own_sizes
        ∙ (rw (i.sized key, b.sized key) (or_else-size_of (find key u.rows) (find key base.rows))
            ∙ ap size_of (sym (find-put_all key u.rows base.rows i.own_rows)));
    plain = AllValues-put_all u.rows base.rows i.plain b.plain;
    bytes = i.projected;
  }
