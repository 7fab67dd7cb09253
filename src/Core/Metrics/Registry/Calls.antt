-- ===== src/Core/Metrics/Registry/Calls.antt =====
-- The calls on a registry of packages/core/src/metrics/MetricsRegistry.js and on its series, in any
-- order.
use wardx.Prelude.{ok, ℕ, String, ◌≡◌, Option}
use wardx.Prelude.Js.{Js}
use wardx.Core.Metrics.Dimensions.{Dims}
use wardx.Core.Metrics.Registry.{
  Arguments, Options, MetricsRegistry, counter, gauge, distinct, histogram_of, add_to_counter,
  set_on_gauge, observe_on_histogram, add_to_distinct, sweep_all,
}

module _ (js : Js) where
  open js use {Number}

  module _ (o : Options js) where
    -- The calls on a registry and on the series that it returned.
    pub data Step (r : MetricsRegistry js) : MetricsRegistry js → Type 0 where
      asked_counter :
          {s : MetricsRegistry js} (name : String) (dims : Option (Dims Number)) (k : Option String)
          → counter js o name dims r ≡ ok (k, s)
          → Step r s
      asked_gauge :
          {s : MetricsRegistry js} (name : String) (dims : Option (Dims Number)) (k : Option String)
          → gauge js o name dims r ≡ ok (k, s)
          → Step r s
      asked_distinct :
          {s : MetricsRegistry js} (name : String) (dims : Option (Dims Number)) (k : Option String)
          → distinct js o name dims r ≡ ok (k, s)
          → Step r s
      asked_histogram :
          (name : String) (a b : Option (Arguments js)) → Step r (histogram_of js o name a b r).1
      added : (name key : String) (n : Number) → Step r (add_to_counter js name key n r)
      set_value :
          (name key : String) (now : ℕ) (value : Number)
          → Step r (set_on_gauge js name key now value r)
      observed :
          (name key : String) (value : Number) (attrs : Option (Dims Number))
          → Step r (observe_on_histogram js name key value attrs r)
      counted : (name key : String) (digest : ℕ) → Step r (add_to_distinct js name key digest r)
      swept : Step r (sweep_all js r).1

    pub data Reach (r : MetricsRegistry js) : MetricsRegistry js → Type 0 where
      here : Reach r r
      next : {s t : MetricsRegistry js} → Reach r s → Step s t → Reach r t
