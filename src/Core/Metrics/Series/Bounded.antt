-- ===== src/Core/Metrics/Series/Bounded.antt =====
-- The number of series of one name stays within its limit, and each series that is turned away is
-- counted once.
use wardx.Prelude.{
  leb, tests, Bool-cases, Option-cases, length, length-append, ok, Result-cases, ok-injective, ℕ,
  ◌≤◌, String, ◌≡◌, refl, ap, ◌∙◌, subst, inl, inr, false, Option, none, List, [], ◌∷◌, ◌++◌, arith,
  ◌==◌, eq_iff,
}
use wardx.Prelude.Js.{Js}
use wardx.Core.Metrics.Dimensions.{
  Dims, Checked, valid, refused, dim_key, validate_dimensions, assert_metric_name,
}
use wardx.Prelude.Entries.{
  find, put, Distinct, put-Distinct, length-put_new, length-put_old, AllValues, AllValues-put,
  AllValues-find,
}
use wardx.Core.Metrics.Series.{
  Rejections, has, reject, or_no_entries, State, insert, with_name, find_or_insert, update,
  after_check, series, reject_key_of,
}

-- No key occurs twice.
abbrev pub AllOnce : List String → Type 0
AllOnce [] = Unit {0}
AllOnce (k ∷ ks) = (has ks k ≡ false) × AllOnce ks

has-append :
    (ks : List String) (j key : String)
    → has ks j ≡ false
    → (key == j) ≡ false
    → has (ks ++ key ∷ []) j ≡ false
unfolding has
has-append [] j key h e = ground arith
has-append (k ∷ ks) j key h e = ground (arith, has-append ks j key)

AllOnce-append :
    (ks : List String) (key : String) → has ks key ≡ false → AllOnce ks → AllOnce (ks ++ key ∷ [])
unfolding has
AllOnce-append [] key h o = (refl, tt)
AllOnce-append (k ∷ ks) key h o = (
  has-append ks k key o.0 (ground (arith, eq_iff k key, eq_iff key k)),
  AllOnce-append ks key (ground arith) o.1,
)

module _ {S : Type 0} where
  abbrev pub IsSmall : ℕ → List (String × S) → Type 0
  IsSmall max_series by_key = (length by_key ≤ max_series) × Distinct by_key

  pub record IsBounded (max_series : ℕ) (s : State S) : Type 0 where
    pub names : Distinct s.table
    pub small : AllValues (IsSmall max_series) s.table
    pub counted : s.rejections.cardinality_dropped ≡ length s.rejections.rejected
    pub once : AllOnce s.rejections.rejected

  module _ (max_series : ℕ) where
    entries-IsSmall :
        (name : String) (s : State S)
        → IsBounded max_series s
        → IsSmall max_series (or_no_entries (find name s.table))
    entries-IsSmall name s v = elim (Option-cases (find name s.table)) [
      | inl none_such ↦ rw none_such (omega arith, tt)
      | inr (by_key, e) ↦ rw e (AllValues-find (IsSmall max_series) name by_key s.table e v.small)
    ]

    put-IsBounded :
        (name : String) (by_key : List (String × S)) (s : State S)
        → IsSmall max_series by_key
        → IsBounded max_series s
        → IsBounded max_series (record s { table = put name by_key s.table })
    put-IsBounded name by_key s p v = record {
      names = put-Distinct name by_key s.table v.names;
      small = AllValues-put (IsSmall max_series) name by_key s.table p v.small;
      counted = v.counted;
      once = v.once;
    }

    reject-IsBounded :
        (key : String) (s : State S)
        → has s.rejections.rejected key ≡ false
        → IsBounded max_series s
        → IsBounded max_series (record s { rejections = reject key s.rejections })
    unfolding reject
    reject-IsBounded key s h v = record {
      names = v.names;
      small = v.small;
      counted = omega (arith, v.counted, length-append s.rejections.rejected (key ∷ []));
      once = AllOnce-append s.rejections.rejected key h v.once;
    }

    with_name-IsBounded :
        (name : String) (s : State S)
        → IsBounded max_series s
        → IsBounded max_series (with_name name s)
    unfolding with_name
    with_name-IsBounded name s v = elim (Option-cases (find name s.table)) [
      | inl none_such ↦ rw (none_such, with_name) (put-IsBounded name [] s (omega arith, tt) v)
      | inr (by_key, e) ↦ rw (e, with_name) v
    ]

    insert-IsBounded :
        (reject_key name key : String) (new : S) (by_key : List (String × S)) (s : State S)
        → has s.rejections.rejected reject_key ≡ false
        → find key by_key ≡ none
        → IsSmall max_series by_key
        → IsBounded max_series s
        → IsBounded max_series (insert max_series reject_key name key new by_key s).1
    unfolding insert
    insert-IsBounded reject_key name key new by_key s h absent p v =
        elim (Bool-cases (leb max_series (length by_key))) [
          | inl full ↦ rw full (reject-IsBounded reject_key s h v)
          | inr room ↦ rw room (
              put-IsBounded name (put key new by_key) s
                (
                  omega (tests, room, length-put_new key new by_key absent),
                  put-Distinct key new by_key p.1,
                )
                v)
        ]

    pub with_name-rejections :
        (name : String) (s : State S) → (with_name name s).rejections ≡ s.rejections
    unfolding with_name
    with_name-rejections name s = elim (Option-cases (find name s.table)) [
      | inl none_such ↦ rw (none_such, with_name)
      | inr (by_key, e) ↦ rw (e, with_name)
    ]

    find_or_insert-IsBounded :
        (reject_key name key : String) (new : S) (s : State S)
        → has s.rejections.rejected reject_key ≡ false
        → IsBounded max_series s
        → IsBounded max_series (find_or_insert max_series reject_key name key new s).1
    unfolding find_or_insert
    find_or_insert-IsBounded reject_key name key new s h v =
        elim (Option-cases (find key (or_no_entries (find name s.table)))) [
          | inl absent ↦
              rw (absent, find_or_insert)
                (insert-IsBounded reject_key name key new _ (with_name name s)
                  (ap (λ (r : Rejections). has r.rejected reject_key) (with_name-rejections name s)
                    ∙ h)
                  absent (entries-IsSmall name s v) (with_name-IsBounded name s v))
          | inr (old, e) ↦ rw (e, find_or_insert) (with_name-IsBounded name s v)
        ]

    pub update-IsBounded :
        (name key : String) (change : S → S) (s : State S)
        → IsBounded max_series s
        → IsBounded max_series (update name key change s)
    unfolding update
    update-IsBounded name key change s v =
        elim (Option-cases (find key (or_no_entries (find name s.table)))) [
          | inl absent ↦ rw (absent, update) v
          | inr (old, e) ↦
              rw (e, update)
                (put-IsBounded name _ s
                  (
                    omega (
                      arith,
                      length-put_old key (change old) old _ e,
                      (entries-IsSmall name s v).0,
                    ),
                    put-Distinct key (change old) _ (entries-IsSmall name s v).1,
                  )
                  v)
        ]

module _ {S : Type 0} (js : Js) (max_series max_keys max_value_length : ℕ)
    (kind_prefix : String) where
  open js use {Number}

  after_check-IsBounded :
      (name : String) (dims : Option (Dims Number)) (c : Checked Number)
      (new : Option (Dims Number) → S) (s : State S)
      → IsBounded max_series s
      → IsBounded max_series
          (after_check js max_series max_keys max_value_length kind_prefix name dims c new s).1
  unfolding after_check
  after_check-IsBounded name dims (refused reason) new s v =
      elim (Bool-cases
        (has s.rejections.rejected (reject_key_of kind_prefix name (dim_key js dims)))) [
          | inl known ↦ rw known v
          | inr fresh ↦ rw fresh (reject-IsBounded max_series _ s fresh v)
        ]
  after_check-IsBounded name dims (valid checked) new s v =
      elim (Bool-cases
        (has s.rejections.rejected (reject_key_of kind_prefix name (dim_key js checked)))) [
          | inl known ↦ rw known v
          | inr fresh ↦
              rw fresh (find_or_insert-IsBounded max_series _ name _ (new checked) s fresh v)
        ]

  pub series-IsBounded :
      (name : String) (dims : Option (Dims Number)) (new : Option (Dims Number) → S)
      (s s' : State S) (o : Option String)
      → IsBounded max_series s
      → series js max_series max_keys max_value_length kind_prefix name dims new s ≡ ok (o, s')
      → IsBounded max_series s'
  unfolding series assert_metric_name
  series-IsBounded name dims new s s' o v h = elim (Bool-cases (name == "")) [
    | inl empty ↦ absurd (cc (rw (empty, series) at h))
    | inr named ↦ elim (Result-cases (validate_dimensions js dims max_keys max_value_length)) [
      | inr (e, thrown) ↦ absurd (cc (rw (named, thrown, series) at h))
      | inl (c, checked) ↦
          subst (IsBounded max_series)
            (ap (λ (p : Option String × State S). p.1)
              (ok-injective (rw (named, checked, series) at h)))
            (after_check-IsBounded name dims c new s v)
    ]
  ]
