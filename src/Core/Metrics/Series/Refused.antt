-- ===== src/Core/Metrics/Series/Refused.antt =====
-- Which refusals of packages/core/src/metrics/MetricsRegistry.js are recorded: those that `_series`
-- answered, and no others.
use wardx.Prelude.{
  leb, Bool-cases, Option-cases, length, ok, err, bind-ok, then-ok, ok-injective, ℕ, String, ◌≡◌,
  refl, ap, subst, inl, inr, true, ◌||◌, Option, none, some, List, [], ◌∷◌, ◌++◌, arith, ◌==◌,
  eq_iff,
}
use wardx.Prelude.Js.{Js}
use wardx.Prelude.Entries.{find}
use wardx.Core.Metrics.Dimensions.{
  Dims, Checked, valid, refused, dim_key, validate_dimensions, assert_metric_name,
}
use wardx.Core.Metrics.Series.{
  Rejections, has, reject, or_no_entries, State, insert, with_name, find_or_insert, update,
  after_check, series, reject_key_of,
}
use wardx.Core.Metrics.Series.Bounded.{with_name-rejections}

pub has-append_lists :
    (ks ls : List String) (key : String) → has (ks ++ ls) key ≡ (has ks key || has ls key)
unfolding has
has-append_lists [] ls key = refl
has-append_lists (k ∷ ks) ls key = ground (arith, has-append_lists ks ls key)

-- The keys that an answer `none` refuses.
abbrev pub refused_as : Option String → String → List String
refused_as none key = key ∷ []
refused_as (some _) key = []

pub update-rejections :
    {S : Type 0} (name key : String) (change : S → S) (s : State S)
    → (update name key change s).rejections ≡ s.rejections
unfolding update
update-rejections name key change s =
    elim (Option-cases (find key (or_no_entries (find name s.table)))) [
      | inl absent ↦ rw (absent, update)
      | inr (old, e) ↦ rw (e, update)
    ]

known_again :
    (k key : String) (ks : List String)
    → has ks k ≡ true
    → has ks key ≡ (has (k ∷ []) key || has ks key)
unfolding has
known_again k key ks h = elim (Bool-cases (k == key)) [
  | inl same ↦ rw same (subst (λ j. has ks j ≡ true) ((eq_iff k key).0 same) h)
  | inr other ↦ rw other
]

-- The record after a call is that of before with the keys that it refused.
abbrev pub Adds : Rejections → List String → Rejections → Type 0
Adds r keys after = (key : String) → has after.rejected key ≡ (has keys key || has r.rejected key)

pub none-Adds : (r after : Rejections) → after ≡ r → Adds r [] after
unfolding has
none-Adds r after e key = ap (λ (x : Rejections). has x.rejected key) e

reject-Adds : (k : String) (r : Rejections) → Adds r (k ∷ []) (reject k r)
unfolding reject has
reject-Adds k r key = ground (arith, has-append_lists r.rejected (k ∷ []) key)

module _ {S : Type 0} where
  insert-Adds :
      (max_series : ℕ) (k name key : String) (new : S) (by_key : List (String × S)) (s : State S)
      → Adds s.rejections
          (refused_as (insert max_series k name key new by_key s).0 k)
          (insert max_series k name key new by_key s).1.rejections
  unfolding insert
  insert-Adds max_series k name key new by_key s =
      elim (Bool-cases (leb max_series (length by_key))) [
        | inl full ↦ rw full (reject-Adds k s.rejections)
        | inr room ↦ rw room (none-Adds s.rejections s.rejections refl)
      ]

  find_or_insert-Adds :
      (max_series : ℕ) (k name key : String) (new : S) (s : State S)
      → Adds s.rejections
          (refused_as (find_or_insert max_series k name key new s).0 k)
          (find_or_insert max_series k name key new s).1.rejections
  unfolding find_or_insert
  find_or_insert-Adds max_series k name key new s =
      elim (Option-cases (find key (or_no_entries (find name s.table)))) [
        | inr (old, e) ↦
            rw (e, find_or_insert)
              (none-Adds s.rejections _ (with_name-rejections max_series name s))
        | inl absent ↦
            rw (absent, find_or_insert)
              (subst
                (λ r.
                  Adds r
                    (refused_as
                      (insert max_series k name key new (or_no_entries (find name s.table))
                        (with_name name s)).0
                      k)
                    (insert max_series k name key new (or_no_entries (find name s.table))
                      (with_name name s)).1.rejections)
                (with_name-rejections max_series name s)
                (insert-Adds max_series k name key new (or_no_entries (find name s.table))
                  (with_name name s)))
      ]

module _ (js : Js) (kind_prefix : String) where
  open js use {Number}

  abbrev pub checked_key : String → Option (Dims Number) → Checked Number → String
  checked_key name dims (refused reason) = reject_key_of kind_prefix name (dim_key js dims)
  checked_key name dims (valid checked) = reject_key_of kind_prefix name (dim_key js checked)

module _ (js : Js) (max_series max_keys max_value_length : ℕ) (kind_prefix : String) where
  open js use {Number}

  -- The keys that are refused to a request for a series, by its answer.
  abbrev pub refusal : String → Option (Dims Number) → Option String → List String
  refusal name dims (some key) = []
  refusal name dims none = elim (validate_dimensions js dims max_keys max_value_length) [
    | err e ↦ []
    | ok c ↦ checked_key js kind_prefix name dims c ∷ []
  ]

  refusal-refused_as :
      (name : String) (dims : Option (Dims Number)) (c : Checked Number) (o : Option String)
      → validate_dimensions js dims max_keys max_value_length ≡ ok c
      → refused_as o (checked_key js kind_prefix name dims c) ≡ refusal name dims o
  refusal-refused_as name dims c none checked = rw (checked, refusal)
  refusal-refused_as name dims c (some key) checked = refl

  module _ {S : Type 0} where
    after_check-Adds :
        (name : String) (dims : Option (Dims Number)) (c : Checked Number)
        (new : Option (Dims Number) → S) (s : State S)
        → let out =
            after_check js max_series max_keys max_value_length kind_prefix name dims c new s in
          Adds s.rejections
            (refused_as out.0 (checked_key js kind_prefix name dims c))
            out.1.rejections
    unfolding after_check
    after_check-Adds name dims (refused reason) new s =
        let k = reject_key_of kind_prefix name (dim_key js dims) in
        elim (Bool-cases (has s.rejections.rejected k)) [
          | inl known ↦ rw known (λ key. known_again k key s.rejections.rejected known)
          | inr fresh ↦ rw fresh (reject-Adds k s.rejections)
        ]
    after_check-Adds name dims (valid checked) new s =
        let k = reject_key_of kind_prefix name (dim_key js checked) in
        elim (Bool-cases (has s.rejections.rejected k)) [
          | inl known ↦ rw known (λ key. known_again k key s.rejections.rejected known)
          | inr fresh ↦
              rw fresh (find_or_insert-Adds max_series k name (dim_key js checked) (new checked) s)
        ]

    pub series-Adds :
        (name : String) (dims : Option (Dims Number)) (new : Option (Dims Number) → S)
        (s s' : State S) (o : Option String)
        → series js max_series max_keys max_value_length kind_prefix name dims new s ≡ ok (o, s')
        → Adds s.rejections (refusal name dims o) s'.rejections
    unfolding series
    series-Adds name dims new s s' o h =
        let (_, h) = then-ok (assert_metric_name name) _ h in
        let (c, checked, h) = bind-ok (validate_dimensions js dims max_keys max_value_length) _ h in
        subst
          (λ (out : Option String × State S).
            Adds s.rejections (refusal name dims out.0) out.1.rejections)
          (ok-injective h)
          (subst
            (λ keys.
              Adds s.rejections keys
                (after_check js max_series max_keys max_value_length kind_prefix name dims c new
                  s).1.rejections)
            (refusal-refused_as name dims c _ checked) (after_check-Adds name dims c new s))
