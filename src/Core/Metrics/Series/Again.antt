-- ===== src/Core/Metrics/Series/Again.antt =====
-- A second request for a series gives what the first one gave.
use wardx.Prelude.{
  leb, if◌then◌else◌, Bool-cases, Option-cases, length, ok, Result-cases, ok-injective, ℕ, String,
  ◌≡◌, refl, sym, ap, ◌∙◌, subst, ◌⊎◌, inl, inr, true, false, Option, none, some, List, [], ◌∷◌,
  ◌++◌, arith, ◌==◌, eq_refl,
}
use wardx.Prelude.Js.{Js}
use wardx.Core.Metrics.Dimensions.{
  Dims, Checked, valid, refused, dim_key, validate_dimensions, assert_metric_name,
}
use wardx.Prelude.Entries.{find, put, find-put}
use wardx.Core.Metrics.Series.{
  Rejections, has, reject, or_no_entries, State, insert, with_name, find_or_insert, after_check,
  series, reject_key_of,
}

has-append_self : (ks : List String) (key : String) → has (ks ++ key ∷ []) key ≡ true
unfolding has
has-append_self [] key = ground (arith, eq_refl key)
has-append_self (k ∷ ks) key = ground (arith, has-append_self ks key)

module _ {S : Type 0} where
  -- The series of a name and a key is there.
  pub record IsThere (name key : String) (s : State S) : Type 0 where
    pub by_key : List (String × S)
    pub held : S
    pub named : find name s.table ≡ some by_key
    pub keyed : find key by_key ≡ some held

  -- What a request answers: the series is turned away for good, or it is there.
  abbrev pub Answered : String → String → String → Rejections → Option String × State S → Type 0
  Answered reject_key name key r (o, s) =
      (o ≡ none) × (has s.rejections.rejected reject_key ≡ true)
      ⊎ (o ≡ some key) × (s.rejections ≡ r) × IsThere name key s

  IsThere-found :
      (name key : String) (s : State S) (a : S)
      → find key (or_no_entries (find name s.table)) ≡ some a
      → (by_key : List (String × S)) → find name s.table ≡ some by_key
      → IsThere name key s
  IsThere-found name key s a h by_key e = record {
    by_key = by_key;
    held = a;
    named = e;
    keyed = rw e at h;
  }

  with_name-there :
      (name : String) (s : State S) (by_key : List (String × S))
      → find name s.table ≡ some by_key
      → with_name name s ≡ s
  unfolding with_name
  with_name-there name s by_key e = rw (e, with_name)

  find_or_insert-there :
      (max_series : ℕ) (reject_key name key : String) (new : S) (s : State S)
      → IsThere name key s
      → find_or_insert max_series reject_key name key new s ≡ (some key, s)
  unfolding find_or_insert
  find_or_insert-there max_series reject_key name key new s t =
      let e : find key (or_no_entries (find name s.table)) ≡ some t.held = rw t.named t.keyed in
      rw (e, find_or_insert)
        (ap (λ (u : State S). (some key, u)) (with_name-there name s t.by_key t.named))

  with_name-rejections :
      (name : String) (s : State S) → (with_name name s).rejections ≡ s.rejections
  unfolding with_name
  with_name-rejections name s = elim (Option-cases (find name s.table)) [
    | inl none_such ↦ rw (none_such, with_name)
    | inr (by_key, e) ↦ rw (e, with_name)
  ]

  insert-Answered :
      (max_series : ℕ) (reject_key name key : String) (new : S) (by_key : List (String × S))
      (s : State S)
      → Answered reject_key name key s.rejections
          (insert max_series reject_key name key new by_key s)
  unfolding insert reject
  insert-Answered max_series reject_key name key new by_key s =
      elim (Bool-cases (leb max_series (length by_key))) [
        | inl full ↦ rw full (inl (refl, has-append_self s.rejections.rejected reject_key))
        | inr room ↦ rw room (
            inr (
              refl,
              refl,
              record {
                by_key = put key new by_key;
                held = new;
                named = find-put name name (put key new by_key) s.table ∙ rw (eq_refl name);
                keyed = find-put key key new by_key ∙ rw (eq_refl key);
              },
            ))
      ]

  find_or_insert-Answered :
      (max_series : ℕ) (reject_key name key : String) (new : S) (s : State S)
      → Answered reject_key name key s.rejections
          (find_or_insert max_series reject_key name key new s)
  unfolding find_or_insert find
  find_or_insert-Answered max_series reject_key name key new s =
      elim (Option-cases (find key (or_no_entries (find name s.table)))) [
        | inl absent ↦
            rw (absent, find_or_insert)
              (subst
                (λ r. Answered reject_key name key r (
                  insert max_series reject_key name key new (or_no_entries (find name s.table))
                    (with_name name s)))
                (with_name-rejections name s)
                (insert-Answered max_series reject_key name key new _ (with_name name s)))
        | inr (a, e) ↦ elim (Option-cases (find name s.table)) [
          | inl none_such ↦ absurd (cc (rw none_such at e))
          | inr (by_key, there) ↦
              rw
                (find_or_insert-there max_series reject_key name key new s
                  (IsThere-found name key s a e by_key there))
                (inr (refl, refl, IsThere-found name key s a e by_key there))
        ]
      ]

  -- The same request once more, on what the first one left.
  settled :
      (max_series : ℕ) (reject_key name key : String) (new : S) (s : State S)
      (p : Option String × State S)
      → has s.rejections.rejected reject_key ≡ false
      → Answered reject_key name key s.rejections p
      → (if has p.1.rejections.rejected reject_key
          then (none, p.1)
          else find_or_insert max_series reject_key name key new p.1)
        ≡ p
  settled max_series reject_key name key new s (o, s') fresh (inl (e, h)) =
      rw h (ap (λ (x : Option String). (x, s')) (sym e))
  settled max_series reject_key name key new s (o, s') fresh (inr (e, r, t)) =
      let h : has s'.rejections.rejected reject_key ≡ false =
        ap (λ (x : Rejections). has x.rejected reject_key) r ∙ fresh in
      rw h (
        find_or_insert-there max_series reject_key name key new s' t
        ∙ ap (λ (x : Option String). (x, s')) (sym e))

module _ {S : Type 0} (js : Js) (max_series max_keys max_value_length : ℕ)
    (kind_prefix : String) where
  open js use {Number}

  after_check-again :
      (name : String) (dims : Option (Dims Number)) (c : Checked Number)
      (new new' : Option (Dims Number) → S) (s : State S)
      → after_check js max_series max_keys max_value_length kind_prefix name dims c new'
          (after_check js max_series max_keys max_value_length kind_prefix name dims c new s).1
        ≡ after_check js max_series max_keys max_value_length kind_prefix name dims c new s
  unfolding after_check reject
  after_check-again name dims (refused reason) new new' s =
      elim (Bool-cases
        (has s.rejections.rejected (reject_key_of kind_prefix name (dim_key js dims)))) [
          | inl known ↦ rw known (rw known)
          | inr fresh ↦ rw fresh (
              rw (
                has-append_self s.rejections.rejected
                  (reject_key_of kind_prefix name (dim_key js dims))))
        ]
  after_check-again name dims (valid checked) new new' s =
      elim (Bool-cases
        (has s.rejections.rejected (reject_key_of kind_prefix name (dim_key js checked)))) [
          | inl known ↦ rw known (rw known)
          | inr fresh ↦ rw fresh (
              settled max_series _ name _ (new' checked) s _ fresh
                (find_or_insert-Answered max_series _ name _ (new checked) s))
        ]

  -- Asking once more for a series with the same name and dimensions answers the same, be it a series or
  -- a refusal, makes no other series and counts no further refusal.
  pub series-again :
      (name : String) (dims : Option (Dims Number)) (new new' : Option (Dims Number) → S)
      (s s' : State S) (o : Option String)
      → series js max_series max_keys max_value_length kind_prefix name dims new s ≡ ok (o, s')
      → series js max_series max_keys max_value_length kind_prefix name dims new' s' ≡ ok (o, s')
  unfolding series assert_metric_name
  series-again name dims new new' s s' o h = elim (Bool-cases (name == "")) [
    | inl empty ↦ absurd (cc (rw (empty, series) at h))
    | inr named ↦ elim (Result-cases (validate_dimensions js dims max_keys max_value_length)) [
      | inr (e, thrown) ↦ absurd (cc (rw (named, thrown, series) at h))
      | inl (c, checked) ↦
          let e : after_check js max_series max_keys max_value_length kind_prefix name dims c new s
              ≡ (o, s') =
            ok-injective (rw (named, checked, series) at h) in
          rw (named, checked)
            (ap ok (
              ap
                (λ (p : Option String × State S).
                  after_check js max_series max_keys max_value_length kind_prefix name dims c new'
                    p.1)
                (sym e)
              ∙ after_check-again name dims c new new' s
              ∙ e))
    ]
  ]
