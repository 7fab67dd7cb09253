-- ===== src/Core/Metrics/Sweep.antt =====
-- The loops of packages/core/src/metrics/MetricsRegistry.js over all series of one kind: each series
-- with something to report gives a row and is reset.
use wardx.Prelude.{
  if◌then◌else◌, length, ℕ, String, ◌≡◌, refl, Bool, true, false, not, ◌&&◌, ◌||◌, List, [], ◌∷◌,
  ◌++◌, arith,
}
use wardx.Core.Metrics.Series.{Table}
use wardx.Prelude.Entries.{Misses, Distinct, AllValues}
use wardx.Core.Metrics.Series.Bounded.{IsSmall}

module _ {S R : Type 0} (is_dirty : S → Bool) (row : S → R) (reset : S → S) where
  abbrev step : String → S → List R × List (String × S) → List R × List (String × S)
  step key s (rows, entries) =
      if is_dirty s then (row s ∷ rows, (key, reset s) ∷ entries) else (rows, (key, s) ∷ entries)

  pub sweep_series : List (String × S) → List R × List (String × S)
  sweep_series [] = ([], [])
  sweep_series ((key, s) ∷ entries) = step key s (sweep_series entries)

  abbrev join : String → List R × List (String × S) → List R × Table S → List R × Table S
  join name (rows, by_key) (more, table) = (rows ++ more, (name, by_key) ∷ table)

  pub sweep : Table S → List R × Table S
  sweep [] = ([], [])
  sweep ((name, by_key) ∷ table) = join name (sweep_series by_key) (sweep table)

module _ {S : Type 0} (is_dirty : S → Bool) where
  -- The loops of `isDirty`.
  pub any_series : List (String × S) → Bool
  any_series [] = false
  any_series ((key, s) ∷ entries) = is_dirty s || any_series entries

  pub any_dirty : Table S → Bool
  any_dirty [] = false
  any_dirty ((name, by_key) ∷ table) = any_series by_key || any_dirty table

pub is_empty {ℓ} : {A : Type ℓ} → List A → Bool
is_empty [] = true
is_empty (x ∷ xs) = false

is_empty-append {ℓ} :
    {A : Type ℓ} (xs ys : List A) → is_empty (xs ++ ys) ≡ (is_empty xs && is_empty ys)
unfolding is_empty
is_empty-append [] ys = refl
is_empty-append (x ∷ xs) ys = refl

module _ {S R : Type 0} (is_dirty : S → Bool) (row : S → R) (reset : S → S) where
  module _ (clean : (s : S) → is_dirty (reset s) ≡ false) where
    sweep_series-clean :
        (entries : List (String × S))
        → any_series is_dirty (sweep_series is_dirty row reset entries).1 ≡ false
    unfolding sweep_series any_series
    sweep_series-clean [] = refl
    sweep_series-clean ((key, s) ∷ entries) = ground (arith, clean s, sweep_series-clean entries)

    -- After a sweep nothing is left to report.
    pub sweep-clean :
        (table : Table S) → any_dirty is_dirty (sweep is_dirty row reset table).1 ≡ false
    unfolding sweep any_dirty
    sweep-clean [] = refl
    sweep-clean ((name, by_key) ∷ table) =
        ground (arith, sweep_series-clean by_key, sweep-clean table)

  sweep_series-rows :
      (entries : List (String × S))
      → is_empty (sweep_series is_dirty row reset entries).0 ≡ not (any_series is_dirty entries)
  unfolding sweep_series any_series is_empty
  sweep_series-rows [] = refl
  sweep_series-rows ((key, s) ∷ entries) = ground (arith, sweep_series-rows entries)

  -- A sweep gives rows exactly if there is something to report.
  pub sweep-rows :
      (table : Table S)
      → is_empty (sweep is_dirty row reset table).0 ≡ not (any_dirty is_dirty table)
  unfolding sweep any_dirty is_empty
  sweep-rows [] = refl
  sweep-rows ((name, by_key) ∷ table) = ground (
    arith,
    is_empty-append (sweep_series is_dirty row reset by_key).0 (sweep is_dirty row reset table).0,
    sweep_series-rows by_key,
    sweep-rows table,
  )

  sweep_series-Misses :
      (key : String) (entries : List (String × S))
      → Misses key entries
      → Misses key (sweep_series is_dirty row reset entries).1
  unfolding sweep_series
  sweep_series-Misses key [] m = tt
  sweep_series-Misses key ((k, s) ∷ entries) m = ground (arith, sweep_series-Misses key entries)

  sweep_series-Distinct :
      (entries : List (String × S))
      → Distinct entries
      → Distinct (sweep_series is_dirty row reset entries).1
  unfolding sweep_series
  sweep_series-Distinct [] d = tt
  sweep_series-Distinct ((k, s) ∷ entries) d =
      ground (arith, sweep_series-Misses k entries, sweep_series-Distinct entries)

  length-sweep_series :
      (entries : List (String × S))
      → length (sweep_series is_dirty row reset entries).1 ≡ length entries
  unfolding sweep_series
  length-sweep_series [] = refl
  length-sweep_series ((k, s) ∷ entries) = ground (arith, length-sweep_series entries)

  sweep-Misses :
      (name : String) (table : Table S)
      → Misses name table
      → Misses name (sweep is_dirty row reset table).1
  unfolding sweep
  sweep-Misses name [] m = tt
  sweep-Misses name ((k, by_key) ∷ table) m = (m.0, sweep-Misses name table m.1)

  pub sweep-Distinct :
      (table : Table S) → Distinct table → Distinct (sweep is_dirty row reset table).1
  unfolding sweep
  sweep-Distinct [] d = tt
  sweep-Distinct ((k, by_key) ∷ table) d = (sweep-Misses k table d.0, sweep-Distinct table d.1)

  pub sweep-IsSmall :
      (max_series : ℕ) (table : Table S)
      → AllValues (IsSmall max_series) table
      → AllValues (IsSmall max_series) (sweep is_dirty row reset table).1
  unfolding sweep
  sweep-IsSmall max_series [] h = tt
  sweep-IsSmall max_series ((k, by_key) ∷ table) h = (
    (omega (arith, length-sweep_series by_key, h.0.0), sweep_series-Distinct by_key h.0.1),
    sweep-IsSmall max_series table h.1,
  )
