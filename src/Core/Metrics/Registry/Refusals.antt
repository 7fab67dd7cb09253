-- ===== src/Core/Metrics/Registry/Refusals.antt =====
-- Which requests to a registry of packages/core/src/metrics/MetricsRegistry.js were refused.
use wardx.Prelude.{
  Result, ok, err, ◌>>=◌, ◌>>◌, Result-cases, bind-ok, ok-injective, ℕ, String, ◌≡◌, refl, sym, ap,
  ◌∙◌, subst, inl, inr, false, ◌||◌, Option, none, some, List, [], ◌++◌,
}
use wardx.Prelude.Js.{Js}
use wardx.Core.Metrics.Dimensions.{Dims}
use wardx.Core.Metrics.Histogram.{histogram}
use wardx.Core.Metrics.Series.{State, series, has}
use wardx.Core.Metrics.Series.Refused.{
  has-append_lists, Adds, none-Adds, refusal, series-Adds, update-rejections,
}
use wardx.Core.Metrics.Registry.{
  Arguments, Options, MetricsRegistry, create, counter_state, gauge_state, histogram_state,
  distinct_state, set_counters, set_gauges, set_histograms, set_distincts, counter, gauge, distinct,
  check_buckets, histogram_of, histogram_with, parse_histogram_args, add_to_counter, set_on_gauge,
  observe_on_histogram, add_to_distinct, sweep_all,
}
use wardx.Core.Metrics.Registry.Calls.{
  Step, asked_counter, asked_gauge, asked_distinct, asked_histogram, added, set_value, observed,
  counted, swept, Reach, here, next,
}

module _ (js : Js) where
  open js use {Number}

  -- What a request records.
  asked-Adds :
      {S : Type 0} (m keys len : ℕ) (kind_prefix name : String) (dims : Option (Dims Number))
      (new : Option (Dims Number) → S) (s : State S) (put_back : State S → MetricsRegistry js)
      (k : Option String) (r : MetricsRegistry js)
      → ((t : State S) → (put_back t).rejections ≡ t.rejections)
      → ◌≡◌ {A = Result (Option String × MetricsRegistry js)}
          (do (key, t) ← series js m keys len kind_prefix name dims new s; ok (key, put_back t))
          (ok (k, r))
      → Adds s.rejections (refusal js m keys len kind_prefix name dims k) r.rejections
  asked-Adds m keys len kind_prefix name dims new s put_back k r back h =
      let ((key, t), done, h) = bind-ok (series js m keys len kind_prefix name dims new s) _ h in
      subst
        (λ (out : Option String × MetricsRegistry js).
          Adds s.rejections (refusal js m keys len kind_prefix name dims out.0) out.1.rejections)
        (ok-injective h)
        (subst (Adds s.rejections (refusal js m keys len kind_prefix name dims key)) (sym (back t))
          (series-Adds js m keys len kind_prefix name dims new s t key done))

  module _ (o : Options js) where
    -- The keys that one request refuses.
    abbrev pub refusal_of : String → String → Option (Dims Number) → Option String → List String
    refusal_of kind_prefix name dims answer =
        refusal js o.max_series_per_metric o.max_dimension_keys o.max_dimension_value_length
          kind_prefix name dims answer

    abbrev histogram_refusal : String → Option (Dims Number) → Result (Option String) → List String
    histogram_refusal name dims (ok answer) = refusal_of "h" name dims answer
    histogram_refusal name dims (err e) = []

    abbrev refused_histogram :
        String → Result (List Number × Option (Dims Number)) → Result (Option String) → List String
    refused_histogram name (ok (buckets, dims)) answer = histogram_refusal name dims answer
    refused_histogram name (err e) answer = []

    abbrev refused_by : {r s : MetricsRegistry js} → Step js o r s → List String
    refused_by (asked_counter name dims k h) = refusal_of "c" name dims k
    refused_by (asked_gauge name dims k h) = refusal_of "g" name dims k
    refused_by (asked_distinct name dims k h) = refusal_of "d" name dims k
    refused_by {r} (asked_histogram name a b) =
        refused_histogram name (parse_histogram_args js a b o.default_histogram_buckets)
          (histogram_of js o name a b r).0
    refused_by _ = []

    -- The keys of kind, name and dimensions of all requests that were answered with no series.
    abbrev pub refused_keys : {r s : MetricsRegistry js} → Reach js o r s → List String
    refused_keys here = []
    refused_keys (next reach step) = refused_by step ++ refused_keys reach

    -- An error about the buckets comes only for a series that there is.
    after-refusal :
        (name key : String) (dims : Option (Dims Number)) (c : Result (Unit {0}))
        → histogram_refusal name dims (c >> ok (some key)) ≡ []
    after-refusal name key dims (ok _) = refl
    after-refusal name key dims (err e) = refl

    checked-refusal :
        (name : String) (buckets : List Number) (dims : Option (Dims Number)) (key : Option String)
        (r : MetricsRegistry js)
        → histogram_refusal name dims (do check_buckets js o name buckets key r; ok key)
          ≡ refusal_of "h" name dims key
    unfolding check_buckets
    checked-refusal name buckets dims none r = refl
    checked-refusal name buckets dims (some key) r =
        after-refusal name key dims (check_buckets js o name buckets (some key) r)

    histogram_with-Adds :
        (name : String) (buckets : List Number) (dims : Option (Dims Number))
        (r : MetricsRegistry js)
        → Adds r.rejections
            (histogram_refusal name dims (histogram_with js o name buckets dims r).0)
            (histogram_with js o name buckets dims r).1.rejections
    unfolding histogram_with
    histogram_with-Adds name buckets dims r =
        elim (Result-cases (
          series js o.max_series_per_metric o.max_dimension_keys o.max_dimension_value_length "h"
            name dims
            (λ checked.
              histogram js name checked buckets
                (some (o.max_dimension_keys, o.max_dimension_value_length)))
            (histogram_state js r))) [
              | inr (e, thrown) ↦
                  rw (thrown, histogram_with) (none-Adds r.rejections r.rejections refl)
              | inl ((key, s), done) ↦
                  rw (done, histogram_with)
                    (subst (λ keys. Adds r.rejections keys s.rejections)
                      (sym (checked-refusal name buckets dims key (set_histograms js r s)))
                      (series-Adds js _ _ _ _ name dims _ _ s key done))
            ]

    histogram_of-Adds :
        (name : String) (a b : Option (Arguments js)) (r : MetricsRegistry js)
        → Adds r.rejections
            (refused_histogram name
              (parse_histogram_args js a b o.default_histogram_buckets)
              (histogram_of js o name a b r).0)
            (histogram_of js o name a b r).1.rejections
    unfolding histogram_of
    histogram_of-Adds name a b r =
        elim (Result-cases (parse_histogram_args js a b o.default_histogram_buckets)) [
          | inr (e, thrown) ↦ rw (thrown, histogram_of) (none-Adds r.rejections r.rejections refl)
          | inl ((buckets, dims), parsed) ↦
              rw (parsed, histogram_of) (histogram_with-Adds name buckets dims r)
        ]

    Step-Adds :
        {r s : MetricsRegistry js} (step : Step js o r s)
        → Adds r.rejections (refused_by step) s.rejections
    unfolding counter gauge distinct add_to_counter set_on_gauge observe_on_histogram
        add_to_distinct sweep_all
    Step-Adds {r = r} (asked_counter name dims k h) =
        asked-Adds _ _ _ _ name dims _ (counter_state js r) (set_counters js r) k _ (λ t. refl) h
    Step-Adds {r = r} (asked_gauge name dims k h) =
        asked-Adds _ _ _ _ name dims _ (gauge_state js r) (set_gauges js r) k _ (λ t. refl) h
    Step-Adds {r = r} (asked_distinct name dims k h) =
        asked-Adds _ _ _ _ name dims _ (distinct_state js r) (set_distincts js r) k _ (λ t. refl) h
    Step-Adds {r = r} (asked_histogram name a b) = histogram_of-Adds name a b r
    Step-Adds {r = r} (added name key n) =
        none-Adds r.rejections _ (update-rejections name key _ (counter_state js r))
    Step-Adds {r = r} (set_value name key now value) =
        none-Adds r.rejections _ (update-rejections name key _ (gauge_state js r))
    Step-Adds {r = r} (observed name key value attrs) =
        none-Adds r.rejections _ (update-rejections name key _ (histogram_state js r))
    Step-Adds {r = r} (counted name key digest) =
        none-Adds r.rejections _ (update-rejections name key _ (distinct_state js r))
    Step-Adds {r = r} swept = none-Adds r.rejections r.rejections refl

    create-has : (key : String) → has (create js).rejections.rejected key ≡ false
    unfolding create has
    create-has key = refl

    pub Reach-refused :
        {r : MetricsRegistry js} (reach : Reach js o (create js) r) (key : String)
        → has r.rejections.rejected key ≡ has (refused_keys reach) key
    Reach-refused here key = create-has key ∙ sym (unfold has in refl)
    Reach-refused (next reach step) key =
        Step-Adds step key
        ∙ (ap (λ b. has (refused_by step) key || b) (Reach-refused reach key)
            ∙ sym (has-append_lists (refused_by step) (refused_keys reach) key))
