-- ===== src/Server/History/Bytes.antt =====
-- The bytes of a row's JSON in packages/server/src/aggregation/history/HistoryBucket.js, and their
-- count after a merge without writing the row again.
mod Tests
use wardx.Prelude.{
  if◌then◌else◌, ok, guard, bind-ok, then-ok, ok-injective, ℕ, ◌+◌, ◌-◌, min, max, String, ◌≡◌,
  refl, ap, ◌∙◌, subst, true, false, Option, none, some, List, [], ◌∷◌, arith,
}
use wardx.Prelude.Js.{Js}
use wardx.Prelude.Json.{Json, Items, Fields, null, bool, num, str, arr, obj, nil, cons, end, field}
use wardx.Server.History.Sketch.{Buffer, body_of, merge_hll_bodies, estimate_hll_body}
use wardx.Server.History.Rows.{
  Common, Histogram, Body, counter, event, drop_row, log_row, gauge, histogram, distinct, Row,
}
use wardx.Server.History.Series.{
  kind_name, dimensions_json, compatible_bounds, add_counts, merge_gauge, merge_histogram,
  merge_sketch, merge_row, merge_historical_row,
}

abbrev append_fields : {N : Type 0} → Fields N → Fields N → Fields N
append_fields end more = more
append_fields (field key value fields) more = field key value (append_fields fields more)

module _ (js : Js) where
  open js use {Number, is_finite, of_nat, show, text_length, quoted_bytes}

  pub number_bytes : Number → ℕ
  number_bytes value = text_length (show value)

  abbrev count_bytes : ℕ → ℕ
  count_bytes count = number_bytes (of_nat count)

  -- The bytes of `JSON.stringify`: a number that is not finite becomes `null`.
  unfoldable mutual
    pub json_bytes : Json Number → ℕ
    json_bytes null = 4
    json_bytes (bool true) = 4
    json_bytes (bool false) = 5
    json_bytes (num n) = if is_finite n then number_bytes n else 4
    json_bytes (str s) = quoted_bytes s
    json_bytes (arr nil) = 2
    json_bytes (arr (cons value items)) = 2 + json_bytes value + items_bytes items
    json_bytes (obj end) = 2
    json_bytes (obj (field key value fields)) =
        2 + (quoted_bytes key + 1 + json_bytes value) + fields_bytes fields

    -- With the comma before each.
    pub items_bytes : Items Number → ℕ
    items_bytes nil = 0
    items_bytes (cons value items) = 1 + json_bytes value + items_bytes items

    pub fields_bytes : Fields Number → ℕ
    fields_bytes end = 0
    fields_bytes (field key value fields) =
        1 + (quoted_bytes key + 1 + json_bytes value) + fields_bytes fields

  pub bucket_items : List (Number × ℕ) → Items Number
  bucket_items [] = nil
  bucket_items ((bound, count) ∷ buckets) =
      cons (arr (cons (num bound) (cons (num (of_nat count)) nil))) (bucket_items buckets)

  -- The properties of a row, in the order in which they are written.
  pub body_fields : Body Number → Fields Number
  body_fields (counter value) = field "value" (num value) end
  body_fields (event count) = field "count" (num (of_nat count)) end
  body_fields (drop_row count) = field "count" (num (of_nat count)) end
  body_fields (log_row level count) =
      field "level" (str level) (field "count" (num (of_nat count)) end)
  body_fields (gauge g) = field "lastValue" (num g.last_value) (
      field "lastTimestamp" (num g.last_timestamp) (
        field "min" (num g.min)
          (field "max" (num g.max) (field "sampleCount" (num (of_nat g.sample_count)) end))))
  body_fields (histogram h) = field "count" (num (of_nat h.count)) (
      field "sum" (num h.sum) (
        field "min" (num h.min)
          (field "max" (num h.max) (field "buckets" (arr (bucket_items h.buckets)) end))))
  body_fields (distinct body estimate) =
      field "precision" (num body.precision)
        (field "registers" (str body.registers) (field "estimate" (num estimate) end))

  pub os_fields : Option String → Fields Number
  os_fields none = end
  os_fields (some os) = field "os" (str os) end

  abbrev row_fields : Common Number → String → Fields Number → Fields Number
  row_fields common kind body = field "kind" (str kind) (
      field "name" (str common.name) (
        field "role" (str common.role) (
          field "environment" (str common.environment) (
            field "appVersion" (str common.app_version) (
              field "dimensions" (dimensions_json common.dimensions)
                (append_fields (os_fields common.os) body))))))

  pub row_json : Row Number → Json Number
  row_json row = obj (row_fields row.common (kind_name row.body) (body_fields row.body))

  unfoldable pub row_bytes : Row Number → ℕ
  row_bytes row = json_bytes (row_json row)

  pub counts_bytes : List (Number × ℕ) → ℕ
  counts_bytes [] = 0
  counts_bytes ((_, count) ∷ buckets) = count_bytes count + counts_bytes buckets

  pub mergeable_bytes : Body Number → ℕ
  mergeable_bytes (counter value) = number_bytes value
  mergeable_bytes (event count) = count_bytes count
  mergeable_bytes (log_row _ count) = count_bytes count
  mergeable_bytes (drop_row count) = count_bytes count
  mergeable_bytes (gauge g) =
      number_bytes g.last_value
      + number_bytes g.last_timestamp
      + number_bytes g.min
      + number_bytes g.max
      + count_bytes g.sample_count
  mergeable_bytes (histogram h) =
      count_bytes h.count
      + number_bytes h.sum
      + number_bytes h.min
      + number_bytes h.max
      + counts_bytes h.buckets
  mergeable_bytes (distinct body estimate) =
      number_bytes body.precision + text_length body.registers + number_bytes estimate

  pub merged_row_bytes : ℕ → Row Number → Row Number → ℕ
  merged_row_bytes existing_bytes existing merged =
      existing_bytes + mergeable_bytes merged.body - mergeable_bytes existing.body

-- The numbers of a row are finite, and the text of a sketch needs no escape in JSON.
module _ (js : Js) where
  open js use {Number, is_finite, of_nat, text_length, quoted_bytes}

  abbrev pub IsCount : ℕ → Type 0
  IsCount count = is_finite (of_nat count) ≡ true

  abbrev pub AreCounts : List (Number × ℕ) → Type 0
  AreCounts [] = Unit {0}
  AreCounts ((_, count) ∷ buckets) = IsCount count × AreCounts buckets

  abbrev pub IsPlain : Body Number → Type 0
  IsPlain (counter value) = is_finite value ≡ true
  IsPlain (event count) = IsCount count
  IsPlain (log_row _ count) = IsCount count
  IsPlain (drop_row count) = IsCount count
  IsPlain (gauge g) =
      (is_finite g.last_value ≡ true)
      × (is_finite g.last_timestamp ≡ true)
      × (is_finite g.min ≡ true)
      × (is_finite g.max ≡ true)
      × IsCount g.sample_count
  IsPlain (histogram h) =
      IsCount h.count
      × (is_finite h.sum ≡ true)
      × (is_finite h.min ≡ true)
      × (is_finite h.max ≡ true)
      × AreCounts h.buckets
  IsPlain (distinct body estimate) =
      (is_finite body.precision ≡ true)
      × (quoted_bytes body.registers ≡ text_length body.registers + 2)
      × (is_finite estimate ≡ true)

  -- What two bodies of a series share: all that a merge leaves as it is.
  abbrev Alike : Body Number → Body Number → Type 0
  Alike a b =
      (kind_name a ≡ kind_name b)
      × (fields_bytes js (body_fields js a) + mergeable_bytes js b
          ≡ fields_bytes js (body_fields js b) + mergeable_bytes js a)

  items_bytes-add_counts :
      (existing incoming : List (Number × ℕ))
      → AreCounts existing
      → AreCounts (add_counts js existing incoming)
      → items_bytes js (bucket_items js existing)
          + counts_bytes js (add_counts js existing incoming)
        ≡ items_bytes js (bucket_items js (add_counts js existing incoming))
          + counts_bytes js existing
  unfolding add_counts bucket_items items_bytes counts_bytes json_bytes number_bytes
  items_bytes-add_counts [] [] e m = refl
  items_bytes-add_counts [] (i ∷ incoming) e m = refl
  items_bytes-add_counts (b ∷ existing) [] e m = refl
  items_bytes-add_counts ((b, c) ∷ existing) ((_, i) ∷ incoming) e m =
      ground (arith, items_bytes-add_counts existing incoming e.1 m.1, e.0, m.0)

  array_bytes-add_counts :
      (existing incoming : List (Number × ℕ))
      → AreCounts existing
      → AreCounts (add_counts js existing incoming)
      → json_bytes js (arr (bucket_items js existing))
          + counts_bytes js (add_counts js existing incoming)
        ≡ json_bytes js (arr (bucket_items js (add_counts js existing incoming)))
          + counts_bytes js existing
  unfolding add_counts bucket_items counts_bytes json_bytes number_bytes
  array_bytes-add_counts [] [] e m = refl
  array_bytes-add_counts [] (i ∷ incoming) e m = refl
  array_bytes-add_counts (b ∷ existing) [] e m = refl
  array_bytes-add_counts ((b, c) ∷ existing) ((_, i) ∷ incoming) e m =
      ground (arith, items_bytes-add_counts existing incoming e.1 m.1, e.0, m.0)

  json_bytes-num : (n : Number) → is_finite n ≡ true → json_bytes js (num n) ≡ number_bytes js n
  unfolding json_bytes
  json_bytes-num n h = ground (arith, h)

  merge_histogram-Alike :
      (name : String) (existing incoming merged : Histogram Number)
      → merge_histogram js name existing incoming ≡ ok merged
      → IsPlain (histogram existing)
      → IsPlain (histogram merged)
      → fields_bytes js (body_fields js (histogram existing))
          + mergeable_bytes js (histogram merged)
        ≡ fields_bytes js (body_fields js (histogram merged))
          + mergeable_bytes js (histogram existing)
  unfolding merge_histogram mergeable_bytes body_fields fields_bytes
  merge_histogram-Alike name existing incoming merged h e m =
      let (_, h) = then-ok (guard (compatible_bounds js existing.buckets incoming.buckets) _) _ h in
      let buckets : add_counts js existing.buckets incoming.buckets ≡ merged.buckets =
        ap (λ x. x.buckets) (ok-injective h) in
      let arrays =
        subst
          (λ b.
            AreCounts b
            → json_bytes js (arr (bucket_items js existing.buckets)) + counts_bytes js b
              ≡ json_bytes js (arr (bucket_items js b)) + counts_bytes js existing.buckets)
          buckets (array_bytes-add_counts existing.buckets incoming.buckets e.4) m.4 in
      let e0 = json_bytes-num (of_nat existing.count) e.0 in
      let e1 = json_bytes-num existing.sum e.1 in
      let e2 = json_bytes-num existing.min e.2 in
      let e3 = json_bytes-num existing.max e.3 in
      let m0 = json_bytes-num (of_nat merged.count) m.0 in
      let m1 = json_bytes-num merged.sum m.1 in
      let m2 = json_bytes-num merged.min m.2 in
      let m3 = json_bytes-num merged.max m.3 in
      omega (arith, arrays, e0, e1, e2, e3, m0, m1, m2, m3)

  Alike-result :
      (existing body merged : Body Number)
      → (ok body ≡ ok merged)
      → (IsPlain body → Alike existing body)
      → IsPlain merged
      → Alike existing merged
  Alike-result existing body merged h =
      subst (λ b. (IsPlain body → Alike existing body) → IsPlain b → Alike existing b)
        (ok-injective h) (λ f. f)

  merge_row-Alike :
      (buffer : Buffer) (name : String) (existing incoming merged : Body Number)
      → merge_row js buffer name existing incoming ≡ ok merged
      → IsPlain existing
      → IsPlain merged
      → Alike existing merged
  unfolding merge_row merge_gauge merge_histogram merge_sketch mergeable_bytes body_fields
      fields_bytes json_bytes number_bytes
  merge_row-Alike buffer name (counter a) (counter b) merged h e =
      Alike-result (counter a) _ merged h (λ m. (refl, ground (arith, e, m)))
  merge_row-Alike buffer name (event a) (event b) merged h e =
      Alike-result (event a) _ merged h (λ m. (refl, ground (arith, e, m)))
  merge_row-Alike buffer name (log_row l a) (log_row k b) merged h e =
      Alike-result (log_row l a) _ merged h (λ m. (refl, ground (arith, e, m)))
  merge_row-Alike buffer name (drop_row a) (drop_row b) merged h e =
      Alike-result (drop_row a) _ merged h (λ m. (refl, ground (arith, e, m)))
  merge_row-Alike buffer name (gauge a) (gauge b) merged h e =
      Alike-result (gauge a) _ merged h (λ m. (refl, ground (arith, e, m)))
  merge_row-Alike buffer name (histogram a) (histogram b) merged h e =
      let (body, body_ok, h) = bind-ok (merge_histogram js name a b) _ h in
      Alike-result (histogram a) _ merged h
        (λ m. (refl, merge_histogram-Alike name a b body body_ok e m))
  merge_row-Alike buffer name (distinct a x) (distinct b y) merged h e =
      let (body, body_ok, h) = bind-ok (merge_hll_bodies js buffer (body_of a) (body_of b)) _ h in
      let (estimate, _, h) = bind-ok (estimate_hll_body js buffer (body_of body)) _ h in
      Alike-result (distinct a x) (distinct body estimate) merged h
        (λ m. (refl, ground (arith, e, m)))
  merge_row-Alike buffer name existing incoming merged h e = absurd (cc h)

  append_fields-bytes :
      (fields more : Fields Number)
      → fields_bytes js (append_fields fields more) ≡ fields_bytes js fields + fields_bytes js more
  unfolding fields_bytes
  append_fields-bytes end more = omega arith
  append_fields-bytes (field key value fields) more = omega (arith, append_fields-bytes fields more)

  -- The bytes of a row without the fields of its kind.
  abbrev base_bytes : Common Number → String → ℕ
  base_bytes common kind = json_bytes js (obj (row_fields js common kind end))

  row_bytes-base :
      (row : Row Number)
      → row_bytes js row
        ≡ base_bytes row.common (kind_name row.body) + fields_bytes js (body_fields js row.body)
  unfolding row_bytes row_json json_bytes fields_bytes
  row_bytes-base row = omega (
    arith,
    append_fields-bytes (os_fields js row.common.os) (body_fields js row.body),
    append_fields-bytes (os_fields js row.common.os) end,
  )

  -- A row that a merge gives has as many bytes of JSON as are counted from those of the row before and
  -- the fields that a merge can change, if the numbers of both rows are finite and the text of a sketch
  -- needs no escape.
  pub merged_row_bytes-row_bytes :
      (buffer : Buffer) (existing incoming merged : Row Number)
      → merge_historical_row js buffer existing incoming ≡ ok merged
      → IsPlain existing.body
      → IsPlain merged.body
      → merged_row_bytes js (row_bytes js existing) existing merged ≡ row_bytes js merged
  unfolding merged_row_bytes merge_historical_row
  merged_row_bytes-row_bytes buffer existing incoming merged h e m =
      let (body, body_ok, h) =
        bind-ok (merge_row js buffer incoming.common.name existing.body incoming.body) _ h in
      let same_common : existing.common ≡ merged.common = ap (λ x. x.common) (ok-injective h) in
      let same_body : body ≡ merged.body = ap (λ x. x.body) (ok-injective h) in
      let (same_kind, bytes) =
        merge_row-Alike buffer incoming.common.name existing.body incoming.body merged.body
          (body_ok ∙ ap ok same_body) e m in
      let base : base_bytes existing.common (kind_name existing.body)
          ≡ base_bytes merged.common (kind_name merged.body) =
        ap (λ c. base_bytes c (kind_name existing.body)) same_common
        ∙ ap (λ k. base_bytes merged.common k) same_kind in
      let old = row_bytes-base existing in
      let new = row_bytes-base merged in omega (arith, bytes, base, old, new)
