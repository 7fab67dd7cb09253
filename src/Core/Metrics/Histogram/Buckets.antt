-- ===== src/Core/Metrics/Histogram/Buckets.antt =====
-- A histogram counts each value in the first bucket that holds it.
use wardx.Prelude.{
  eqb, if◌then◌else◌, Bool-cases, length, get_elem?, Result, ok, err, ℕ, zero, suc, ◌+◌, ◌<◌,
  String, ◌≡◌, refl, ap, ◌∙◌, inl, inr, Option, some, List, [], ◌∷◌, arith,
}
use wardx.Prelude.Js.{Js}
use wardx.Core.Metrics.Dimensions.{Dims}
use wardx.Core.Metrics.Histogram.{
  Histogram, histogram, fill_zero, bump, count_value, count_bucket, observe, observe_max, Exemplar,
  reset_histogram,
}

module _ (js : Js) where
  open js use {Number, at_most}

  -- The first bound that is at least the value; the number of bounds, if there is none.
  pub bucket_of : Number → List Number → ℕ
  bucket_of value [] = 0
  bucket_of value (b ∷ bounds) = if at_most value b then 0 else suc (bucket_of value bounds)

  pub occurrences : ℕ → List Number → List Number → ℕ
  occurrences i bounds [] = 0
  occurrences i bounds (v ∷ values) =
      (if eqb (bucket_of v bounds) i then 1 else 0) + occurrences i bounds values

  length-bump :
      (v : Number) (bounds : List Number) (counts : List ℕ)
      → length counts ≡ length bounds
      → length (bump js v bounds counts) ≡ length counts
  unfolding bump
  length-bump v [] counts e = refl
  length-bump v (b ∷ bounds) [] e = refl
  length-bump v (b ∷ bounds) (c ∷ counts) e = ground (arith, length-bump v bounds counts)

  bump_lem :
      (v : Number) (bounds : List Number) (counts : List ℕ) (i n : ℕ)
      → get_elem? counts i ≡ some n
      → length counts ≡ length bounds
      → get_elem? (bump js v bounds counts) i
        ≡ some ((if eqb (bucket_of v bounds) i then 1 else 0) + n)
  unfolding bump bucket_of
  bump_lem v [] [] i n h e = absurd (cc h)
  bump_lem v [] (c ∷ counts) i n h e = absurd (omega (arith, e))
  bump_lem v (b ∷ bounds) [] i n h e = absurd (omega (arith, e))
  bump_lem v (b ∷ bounds) (c ∷ counts) zero n h e = ground arith
  bump_lem v (b ∷ bounds) (c ∷ counts) (suc i) n h e = ground (arith, bump_lem v bounds counts i n)

  -- A histogram over `bounds` that was given `finite` finite values and counted those of `values`.
  pub record Counted (bounds : List Number) (finite : ℕ) (values : List Number) (h : Histogram js)
      : Type 0 where
    pub same_bounds : h.bounds ≡ bounds
    pub whole : length h.counts ≡ length bounds
    pub counted : h.count ≡ finite
    pub bucketed :
        (i : ℕ) → i < length bounds → get_elem? h.counts i ≡ some (occurrences i bounds values)

  get_elem?-fill_zero :
      (bounds : List Number) (i : ℕ)
      → i < length bounds
      → get_elem? (fill_zero js bounds) i ≡ some 0
  unfolding fill_zero
  get_elem?-fill_zero [] i h = absurd (omega (arith, h))
  get_elem?-fill_zero (b ∷ bounds) zero h = refl
  get_elem?-fill_zero (b ∷ bounds) (suc i) h = get_elem?-fill_zero bounds i (omega (arith, h))

  length-fill_zero : (bounds : List Number) → length (fill_zero js bounds) ≡ length bounds
  unfolding fill_zero
  length-fill_zero [] = refl
  length-fill_zero (b ∷ bounds) = ap suc (length-fill_zero bounds)

  histogram-Counted :
      (name : String) (dims : Option (Dims Number)) (bounds : List Number) (limits : Option (ℕ × ℕ))
      → Counted bounds 0 [] (histogram js name dims bounds limits)
  unfolding histogram occurrences
  histogram-Counted name dims bounds limits = record {
    same_bounds = refl;
    whole = length-fill_zero bounds;
    counted = refl;
    bucketed = get_elem?-fill_zero bounds;
  }

  count_bucket-Counted :
      (bounds : List Number) (n : ℕ) (values : List Number) (v : Number) (h : Histogram js)
      → Counted bounds n values h
      → Counted bounds n (v ∷ values) (count_bucket js v h)
  unfolding count_bucket occurrences
  count_bucket-Counted bounds n values v h c = record {
    same_bounds = c.same_bounds;
    whole = rw c.same_bounds (length-bump v bounds h.counts c.whole ∙ c.whole);
    counted = c.counted;
    bucketed = λ i l.
        ap (λ bs. get_elem? (bump js v bs h.counts) i) c.same_bounds
        ∙ bump_lem v bounds h.counts i (occurrences i bounds values) (c.bucketed i l) c.whole;
  }

  -- The other fields do not matter.
  moved :
      (bounds : List Number) (n m : ℕ) (values : List Number) (h g : Histogram js)
      → Counted bounds n values h
      → g.bounds ≡ h.bounds
      → g.counts ≡ h.counts
      → g.count ≡ m
      → Counted bounds m values g
  moved bounds n m values h g c b k e = record {
    same_bounds = b ∙ c.same_bounds;
    whole = ap (λ (l : List ℕ). length l) k ∙ c.whole;
    counted = e;
    bucketed = λ i l. ap (λ (cs : List ℕ). get_elem? cs i) k ∙ c.bucketed i l;
  }

  -- `observe(value, attrs)` or `reset()`
  pub data Call : Type 0 where
    observed : Number → Option (Dims Number) → Call
    cleared : Call

  -- Calls, the last one first; what a call throws is caught.
  abbrev pub call_all : List Call → Histogram js → Histogram js
  call_all [] h = h
  call_all (observed v attrs ∷ calls) h = (observe js v attrs (call_all calls h)).1
  call_all (cleared ∷ calls) h = reset_histogram js (call_all calls h)

  abbrev pub when_ok : Result (Unit {0}) → Number → List Number → List Number
  when_ok (ok _) v values = v ∷ values
  when_ok (err e) v values = values

  -- The values of the calls that did not throw, since the last reset.
  abbrev pub accepted : List Call → Histogram js → List Number
  accepted [] h = []
  accepted (observed v attrs ∷ calls) h =
      when_ok (observe js v attrs (call_all calls h)).0 v (accepted calls h)
  accepted (cleared ∷ calls) h = []

  -- The calls with a finite value, since the last reset.
  abbrev pub finite_calls : List Call → ℕ
  finite_calls [] = 0
  finite_calls (observed v attrs ∷ calls) = (if js.is_finite v then 1 else 0) + finite_calls calls
  finite_calls (cleared ∷ calls) = 0

  observe_max-Counted :
      (bounds : List Number) (n : ℕ) (values : List Number) (v : Number)
      (r : Result (Option (Exemplar js))) (h : Histogram js)
      → Counted bounds n values h
      → Counted bounds n (when_ok (observe_max js v r h).0 v values) (observe_max js v r h).1
  unfolding observe_max
  observe_max-Counted bounds n values v (err e) h c =
      moved bounds n n values h (record h { max = v }) c refl refl c.counted
  observe_max-Counted bounds n values v (ok x) h c =
      count_bucket-Counted bounds n values v (record h { max = v; exemplar = x })
        (moved bounds n n values h (record h { max = v; exemplar = x }) c refl refl c.counted)

  count_value-Counted :
      (bounds : List Number) (n : ℕ) (values : List Number) (v : Number) (h : Histogram js)
      → Counted bounds n values h
      → Counted bounds (1 + n) values (count_value js v h)
  unfolding count_value
  count_value-Counted bounds n values v h c =
      moved bounds n (1 + n) values h _ c refl refl (omega (arith, c.counted))

  observe-Counted :
      (bounds : List Number) (n : ℕ) (values : List Number) (v : Number)
      (attrs : Option (Dims Number)) (h : Histogram js)
      → Counted bounds n values h
      → Counted bounds
          ((if js.is_finite v then 1 else 0) + n)
          (when_ok (observe js v attrs h).0 v values)
          (observe js v attrs h).1
  unfolding observe
  observe-Counted bounds n values v attrs h c = elim (Bool-cases (js.is_finite v)) [
    | inr strange ↦
        rw strange (moved bounds n (0 + n) values h h c refl refl (omega (arith, c.counted)))
    | inl finite ↦ elim (Bool-cases (at_most h.max v)) [
      | inl greatest ↦
          rw (finite, greatest)
            (observe_max-Counted bounds (1 + n) values v _ _
              (count_value-Counted bounds n values v h c))
      | inr lower ↦
          rw (finite, lower)
            (count_bucket-Counted bounds (1 + n) values v _
              (count_value-Counted bounds n values v h c))
    ]
  ]

  reset_histogram-Counted :
      (bounds : List Number) (n : ℕ) (values : List Number) (h : Histogram js)
      → Counted bounds n values h
      → Counted bounds 0 [] (reset_histogram js h)
  unfolding reset_histogram occurrences
  reset_histogram-Counted bounds n values h c = record {
    same_bounds = c.same_bounds;
    whole = rw c.same_bounds (length-fill_zero bounds);
    counted = refl;
    bucketed = rw c.same_bounds (get_elem?-fill_zero bounds);
  }

  -- Whatever values a new histogram is given, with attributes of any kind, and whenever it is reset
  -- meanwhile: its count is the number of calls of `observe` with a finite value since the last reset,
  -- also of those that threw for their attributes; and each bucket holds the number of the values, of
  -- the calls since then that did not throw, for which its bound is the first that is large enough.
  pub call_all-Counted :
      (name : String) (dims : Option (Dims Number)) (bounds : List Number) (limits : Option (ℕ × ℕ))
      (calls : List Call)
      → Counted bounds
          (finite_calls calls)
          (accepted calls (histogram js name dims bounds limits))
          (call_all calls (histogram js name dims bounds limits))
  call_all-Counted name dims bounds limits [] = histogram-Counted name dims bounds limits
  call_all-Counted name dims bounds limits (observed v attrs ∷ calls) =
      observe-Counted bounds _ _ v attrs _ (call_all-Counted name dims bounds limits calls)
  call_all-Counted name dims bounds limits (cleared ∷ calls) =
      reset_histogram-Counted bounds _ _ _ (call_all-Counted name dims bounds limits calls)
