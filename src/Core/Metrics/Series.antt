-- ===== src/Core/Metrics/Series.antt =====
-- `_series` of packages/core/src/metrics/MetricsRegistry.js, and the loops of the registry over all
-- series of one kind. A `Map` is the list of its entries in the order of insertion. A series is known
-- by its name and its key.
pub mod Bounded
pub mod Refused
pub mod Again
mod Tests
use Prim.Native.String.{◌++◌ as append}
use wardx.Prelude.{
  leb, if◌then◌else◌, length, Result, ok, ◌>>=◌, ◌>>◌, ℕ, ◌+◌, String, Bool, false, ◌||◌, Option,
  none, some, List, [], ◌∷◌, ◌++◌, ◌==◌,
}
use wardx.Prelude.Js.{Js}
use wardx.Core.Metrics.Dimensions.{
  Dims, Checked, valid, refused, dim_key, validate_dimensions, assert_metric_name,
}
use wardx.Prelude.Entries.{find, put}

-- `rejected` is the set, and `cardinality_dropped` the number of calls of `onCardinalityDropped`.
pub record Rejections : Type 0 where
  pub rejected : List String
  pub cardinality_dropped : ℕ

unfoldable pub has : List String → String → Bool
has [] key = false
has (k ∷ ks) key = (k == key) || has ks key

-- `this.rejected.add(rejectKey); this.onCardinalityDropped();`
unfoldable pub reject : String → Rejections → Rejections
reject key r = record r {
  rejected = r.rejected ++ key ∷ [];
  cardinality_dropped = r.cardinality_dropped + 1;
}

abbrev pub Table : Type 0 → Type 0
Table S = List (String × List (String × S))

abbrev pub or_no_entries {ℓ} : {A : Type ℓ} → Option (List A) → List A
or_no_entries none = []
or_no_entries (some entries) = entries

module _ (S : Type 0) where
  -- The state that `_series` changes.
  pub record State : Type 0 where
    pub table : Table S
    pub rejections : Rejections

module _ {S : Type 0} where
  -- What follows `byKey.get(key)`, when there is no such series: `by_key` are the entries of the name.
  unfoldable pub insert :
      ℕ → String → String → String → S → List (String × S) → State S → Option String × State S
  insert max_series reject_key name key new by_key s =
      if leb max_series (length by_key)
      then (none, record s { rejections = reject reject_key s.rejections })
      else (some key, record s { table = put name (put key new by_key) s.table })

  -- `if (!byKey) { byKey = new Map(); kindMap.set(name, byKey); }`
  unfoldable pub with_name : String → State S → State S
  with_name name s = elim (find name s.table) [
    | some by_key ↦ s
    | none ↦ record s { table = put name [] s.table }
  ]

  -- From `kindMap.get(name)` on. `none` is `null`, and `some key` the series of that key.
  unfoldable pub find_or_insert :
      ℕ → String → String → String → S → State S → Option String × State S
  find_or_insert max_series reject_key name key new s =
      let by_key = or_no_entries (find name s.table) in
      elim (find key by_key) [
        | some series ↦ (some key, with_name name s)
        | none ↦ insert max_series reject_key name key new by_key (with_name name s)
      ]

  -- A series is an object: whoever holds it changes it in its place.
  unfoldable pub update : String → String → (S → S) → State S → State S
  update name key change s = elim (find key (or_no_entries (find name s.table))) [
    | none ↦ s
    | some series ↦ record s {
      table = put name (put key (change series) (or_no_entries (find name s.table))) s.table;
    }
  ]

module _ (kind_prefix : String) where
  -- The character between `kindPrefix`, `name` and `key` is the one with the code 0.
  unfoldable pub reject_key_of : String → String → String
  reject_key_of name key = append kind_prefix (append "\0" (append name (append "\0" key)))

module _ {S : Type 0} (js : Js) (max_series max_keys max_value_length : ℕ)
    (kind_prefix : String) where
  open js use {Number}

  unfoldable pub after_check :
      String
      → Option (Dims Number)
      → Checked Number
      → (Option (Dims Number) → S)
      → State S
      → Option String × State S
  after_check name dims (refused reason) new s =
      let reject_key = reject_key_of kind_prefix name (dim_key js dims) in
      if has s.rejections.rejected reject_key
      then (none, s)
      else (none, record s { rejections = reject reject_key s.rejections })
  after_check name dims (valid checked) new s =
      let reject_key = reject_key_of kind_prefix name (dim_key js checked) in
      if has s.rejections.rejected reject_key
      then (none, s)
      else find_or_insert max_series reject_key name (dim_key js checked) (new checked) s

  -- `_series`; `new` makes the series.
  unfoldable pub series :
      String
      → Option (Dims Number)
      → (Option (Dims Number) → S)
      → State S
      → Result (Option String × State S)
  series name dims new s = do
    assert_metric_name name
    checked ← validate_dimensions js dims max_keys max_value_length
    ok (after_check name dims checked new s)
