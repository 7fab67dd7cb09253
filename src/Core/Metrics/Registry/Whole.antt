-- ===== src/Core/Metrics/Registry/Whole.antt =====
-- The registry as a whole: its limits, and what a snapshot leaves.
use wardx.Prelude.{
  Result, ok, ◌>>=◌, Result-cases, ok-injective, ℕ, String, ◌≡◌, refl, ap, subst, inl, inr, Bool,
  true, false, not, ◌&&◌, ◌||◌, Option, some,
}
use wardx.Prelude.Js.{Js}
use wardx.Core.Metrics.Dimensions.{Dims}
use wardx.Core.Metrics.Histogram.{Counter, Gauge, Histogram, histogram, reset_histogram}
use wardx.Core.Metrics.HyperLogLog.{reset as reset_sketch}
use wardx.Core.Metrics.Series.{State, series, has}
use wardx.Core.Metrics.Registry.Calls.{
  Step, asked_counter, asked_gauge, asked_distinct, asked_histogram, added, set_value, observed,
  counted, swept, Reach, here, next,
}
use wardx.Core.Metrics.Registry.Refusals.{refused_keys, Reach-refused}
use wardx.Core.Metrics.Series.Bounded.{IsBounded, series-IsBounded, update-IsBounded}
use wardx.Core.Metrics.Sweep.{
  any_dirty, sweep-clean, sweep-rows, sweep-Distinct, sweep-IsSmall, is_empty,
}
use wardx.Core.Metrics.Registry.{
  Arguments, Options, MetricsRegistry, Distinct, create, counter_state, gauge_state,
  histogram_state, distinct_state, set_counters, set_gauges, set_histograms, set_distincts, counter,
  gauge, distinct, histogram_of, histogram_with, parse_histogram_args, add_to_counter, set_on_gauge,
  observe_on_histogram, add_to_distinct, counter_dirty, gauge_dirty, histogram_dirty,
  distinct_dirty, sweep_all, is_dirty, counter_row, gauge_row, histogram_row, distinct_row,
  clear_counter, clear_gauge, clear_distinct,
}

all_not : (a b c d : Bool) → (not a && (not b && (not c && not d))) ≡ not (a || (b || (c || d)))
all_not true b c d = refl
all_not false true c d = refl
all_not false false true d = refl
all_not false false false d = refl

-- The refusals of one kind are those of all.
shared :
    {S T : Type 0} (m : ℕ) (s : State S) (t : State T)
    → IsBounded m s
    → IsBounded m t
    → IsBounded m (record s { rejections = t.rejections })
shared m s t v w = record { names = v.names; small = v.small; counted = w.counted; once = w.once }

module _ (js : Js) where
  open js use {Number}

  pub record IsWhole (m : ℕ) (r : MetricsRegistry js) : Type 0 where
    pub counters : IsBounded m (counter_state js r)
    pub gauges : IsBounded m (gauge_state js r)
    pub histograms : IsBounded m (histogram_state js r)
    pub distincts : IsBounded m (distinct_state js r)

  module _ (m : ℕ) (r : MetricsRegistry js) (v : IsWhole m r) where
    set_counters-IsWhole :
        (s : State (Counter js)) → IsBounded m s → IsWhole m (set_counters js r s)
    set_counters-IsWhole s w = record {
      counters = w;
      gauges = shared m _ s v.gauges w;
      histograms = shared m _ s v.histograms w;
      distincts = shared m _ s v.distincts w;
    }

    set_gauges-IsWhole : (s : State (Gauge js)) → IsBounded m s → IsWhole m (set_gauges js r s)
    set_gauges-IsWhole s w = record {
      counters = shared m _ s v.counters w;
      gauges = w;
      histograms = shared m _ s v.histograms w;
      distincts = shared m _ s v.distincts w;
    }

    set_histograms-IsWhole :
        (s : State (Histogram js)) → IsBounded m s → IsWhole m (set_histograms js r s)
    set_histograms-IsWhole s w = record {
      counters = shared m _ s v.counters w;
      gauges = shared m _ s v.gauges w;
      histograms = w;
      distincts = shared m _ s v.distincts w;
    }

    set_distincts-IsWhole :
        (s : State (Distinct js)) → IsBounded m s → IsWhole m (set_distincts js r s)
    set_distincts-IsWhole s w = record {
      counters = shared m _ s v.counters w;
      gauges = shared m _ s v.gauges w;
      histograms = shared m _ s v.histograms w;
      distincts = w;
    }

  -- What `series` and a setter make of a request.
  asked :
      {S : Type 0} (m keys len : ℕ) (kind_prefix name : String) (dims : Option (Dims Number))
      (new : Option (Dims Number) → S) (s : State S) (put_back : State S → MetricsRegistry js)
      (k : Option String) (r : MetricsRegistry js)
      → IsBounded m s
      → ((t : State S) → IsBounded m t → IsWhole m (put_back t))
      → ◌≡◌ {A = Result (Option String × MetricsRegistry js)}
          (do (key, t) ← series js m keys len kind_prefix name dims new s; ok (key, put_back t))
          (ok (k, r))
      → IsWhole m r
  asked m keys len kind_prefix name dims new s put_back k r b back h =
      elim (Result-cases (series js m keys len kind_prefix name dims new s)) [
        | inr (e, thrown) ↦ absurd (cc (rw thrown at h))
        | inl ((key, t), done) ↦
            subst (IsWhole m)
              (ap (λ (p : Option String × MetricsRegistry js). p.1) (ok-injective (rw done at h)))
              (back t (series-IsBounded js m keys len kind_prefix name dims new s t key b done))
      ]

  module _ (o : Options js) where
    histogram_of-IsWhole :
        (name : String) (a b : Option (Arguments js)) (r : MetricsRegistry js)
        → IsWhole o.max_series_per_metric r
        → IsWhole o.max_series_per_metric (histogram_of js o name a b r).1
    unfolding histogram_of histogram_with
    histogram_of-IsWhole name a b r v =
        elim (Result-cases (parse_histogram_args js a b o.default_histogram_buckets)) [
          | inr (e, thrown) ↦ rw (thrown, histogram_of) v
          | inl ((buckets, dims), parsed) ↦
              elim (Result-cases (
                series js o.max_series_per_metric o.max_dimension_keys o.max_dimension_value_length
                  "h" name dims
                  (λ checked.
                    histogram js name checked buckets
                      (some (o.max_dimension_keys, o.max_dimension_value_length)))
                  (histogram_state js r))) [
                    | inr (e, thrown) ↦ rw (parsed, histogram_of) (rw (thrown, histogram_with) v)
                    | inl ((key, s), done) ↦
                        rw (parsed, histogram_of)
                          (rw (done, histogram_with)
                            (set_histograms-IsWhole o.max_series_per_metric r v s
                              (series-IsBounded js _ _ _ _ name dims _ _ s key v.histograms done)))
                  ]
        ]

    sweep_all-IsWhole :
        (r : MetricsRegistry js)
        → IsWhole o.max_series_per_metric r
        → IsWhole o.max_series_per_metric (sweep_all js r).1
    unfolding sweep_all
    sweep_all-IsWhole r v = record {
      counters = record {
        names = sweep-Distinct _ _ _ r.counters_by_name v.counters.names;
        small = sweep-IsSmall _ _ _ _ r.counters_by_name v.counters.small;
        counted = v.counters.counted;
        once = v.counters.once;
      };
      gauges = record {
        names = sweep-Distinct _ _ _ r.gauges_by_name v.gauges.names;
        small = sweep-IsSmall _ _ _ _ r.gauges_by_name v.gauges.small;
        counted = v.gauges.counted;
        once = v.gauges.once;
      };
      histograms = record {
        names = sweep-Distinct _ _ _ r.histograms_by_name v.histograms.names;
        small = sweep-IsSmall _ _ _ _ r.histograms_by_name v.histograms.small;
        counted = v.histograms.counted;
        once = v.histograms.once;
      };
      distincts = record {
        names = sweep-Distinct _ _ _ r.distincts_by_name v.distincts.names;
        small = sweep-IsSmall _ _ _ _ r.distincts_by_name v.distincts.small;
        counted = v.distincts.counted;
        once = v.distincts.once;
      };
    }

    Step-IsWhole :
        {r s : MetricsRegistry js}
        → Step js o r s
        → IsWhole o.max_series_per_metric r
        → IsWhole o.max_series_per_metric s
    unfolding counter gauge distinct add_to_counter set_on_gauge observe_on_histogram
        add_to_distinct
    Step-IsWhole {r = r} (asked_counter name dims k h) v =
        asked _ _ _ _ name dims _ (counter_state js r) (set_counters js r) k _ v.counters
          (set_counters-IsWhole _ r v) h
    Step-IsWhole {r = r} (asked_gauge name dims k h) v =
        asked _ _ _ _ name dims _ (gauge_state js r) (set_gauges js r) k _ v.gauges
          (set_gauges-IsWhole _ r v) h
    Step-IsWhole {r = r} (asked_distinct name dims k h) v =
        asked _ _ _ _ name dims _ (distinct_state js r) (set_distincts js r) k _ v.distincts
          (set_distincts-IsWhole _ r v) h
    Step-IsWhole {r = r} (asked_histogram name a b) v = histogram_of-IsWhole name a b r v
    Step-IsWhole {r = r} (added name key n) v =
        set_counters-IsWhole _ r v _ (update-IsBounded _ name key _ _ v.counters)
    Step-IsWhole {r = r} (set_value name key now value) v =
        set_gauges-IsWhole _ r v _ (update-IsBounded _ name key _ _ v.gauges)
    Step-IsWhole {r = r} (observed name key value attrs) v =
        set_histograms-IsWhole _ r v _ (update-IsBounded _ name key _ _ v.histograms)
    Step-IsWhole {r = r} (counted name key digest) v =
        set_distincts-IsWhole _ r v _ (update-IsBounded _ name key _ _ v.distincts)
    Step-IsWhole {r = r} swept v = sweep_all-IsWhole r v

    create-IsWhole : IsWhole o.max_series_per_metric (create js)
    unfolding create
    create-IsWhole = record {
      counters = record { names = tt; small = tt; counted = refl; once = tt };
      gauges = record { names = tt; small = tt; counted = refl; once = tt };
      histograms = record { names = tt; small = tt; counted = refl; once = tt };
      distincts = record { names = tt; small = tt; counted = refl; once = tt };
    }

    every_IsWhole :
        {r : MetricsRegistry js} → Reach js o (create js) r → IsWhole o.max_series_per_metric r
    every_IsWhole here = create-IsWhole
    every_IsWhole (next reach step) = Step-IsWhole step (every_IsWhole reach)

    -- Whatever calls are made on a new registry and its series, snapshots included: of each kind, the
    -- series of one name have distinct keys and are at most `maxSeriesPerMetric`. The record of
    -- refusals has exactly the keys, of kind, name and dimensions, of the requests that were answered
    -- with no series, each once, and `onCardinalityDropped` was called as often as there are such keys.
    pub Reach-IsWhole :
        {r : MetricsRegistry js} (reach : Reach js o (create js) r)
        → IsWhole o.max_series_per_metric r
          × ((key : String) → has r.rejections.rejected key ≡ has (refused_keys js o reach) key)
    Reach-IsWhole reach = (every_IsWhole reach, λ key. Reach-refused js o reach key)

  clean_histogram : (h : Histogram js) → histogram_dirty js (reset_histogram js h) ≡ false
  unfolding reset_histogram
  clean_histogram h = refl

  clean_distinct :
      (d : Distinct js) → distinct_dirty js (record d { sketch = reset_sketch d.sketch }) ≡ false
  unfolding reset_sketch
  clean_distinct d = refl

  -- Where 0 is 0: a snapshot has a row exactly if the registry is dirty, and leaves one that is not.
  pub sweep_all-is_dirty :
      (r : MetricsRegistry js)
      → js.same js.zero js.zero ≡ true
      → (is_dirty js (sweep_all js r).1 ≡ false)
        × ((is_empty (sweep_all js r).0.counters
              && (is_empty (sweep_all js r).0.gauges
                  && (is_empty (sweep_all js r).0.histograms
                      && is_empty (sweep_all js r).0.distincts)))
            ≡ not (is_dirty js r))
  unfolding sweep_all is_dirty
  sweep_all-is_dirty r zero_same = (
    rw
        (sweep-clean (counter_dirty js) (counter_row js) (clear_counter js) (λ c. rw zero_same)
          r.counters_by_name)
        (rw
          (sweep-clean (gauge_dirty js) (gauge_row js) (clear_gauge js) (λ g. refl)
            r.gauges_by_name)
          (rw
            (sweep-clean (histogram_dirty js) (histogram_row js) (reset_histogram js)
              clean_histogram r.histograms_by_name)
            (sweep-clean (distinct_dirty js) (distinct_row js) (clear_distinct js) clean_distinct
              r.distincts_by_name))),
    rw (sweep-rows (counter_dirty js) (counter_row js) (clear_counter js) r.counters_by_name) (
        rw (sweep-rows (gauge_dirty js) (gauge_row js) (clear_gauge js) r.gauges_by_name) (
          rw
            (sweep-rows (histogram_dirty js) (histogram_row js) (reset_histogram js)
              r.histograms_by_name)
            (rw
              (sweep-rows (distinct_dirty js) (distinct_row js) (clear_distinct js)
                r.distincts_by_name)
              (all_not (any_dirty (counter_dirty js) r.counters_by_name)
                (any_dirty (gauge_dirty js) r.gauges_by_name)
                (any_dirty (histogram_dirty js) r.histograms_by_name)
                (any_dirty (distinct_dirty js) r.distincts_by_name))))),
  )
