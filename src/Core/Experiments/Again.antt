-- ===== src/Core/Experiments/Again.antt =====
-- A subject keeps its variant, and is exposed once.
use wardx.Prelude.{
  Bool-cases, Option-cases, Result, ok, err, Result-cases, ℕ, String, ◌≡◌, refl, sym, ap, ◌∙◌,
  subst, ◌⊎◌, inl, inr, true, false, none, some, List, [], ◌∷◌, eq_refl,
}
use wardx.Prelude.Js.{Js}
use wardx.Prelude.Entries.{find, put, find-put}
use wardx.Core.Experiments.{
  Variant, Experiment, Assignment, Exposure, Resolver, assign_variant, or_no_assignments, evict,
  with_subject, store, record_assignment, expose, new_assignment, resolve_list,
}

-- The subject has been exposed to the experiment.
abbrev pub IsExposed : String → String → Resolver → Type 0
IsExposed subject experiment s =
    (assignments : List (String × Assignment)) × (a : Assignment) × (find subject s.state_by_subject
      ≡ some assignments)
    × (find experiment assignments ≡ some a)
    × (a.exposed ≡ true)

with_subject-there :
    (subject : String) (s : Resolver) (assignments : List (String × Assignment))
    → find subject s.state_by_subject ≡ some assignments
    → with_subject subject s ≡ s
unfolding with_subject
with_subject-there subject s assignments e = rw (e, with_subject)

pub with_subject-some :
    (subject : String) (s : Resolver)
    → (assignments : List (String × Assignment)) × (find subject
          (with_subject subject s).state_by_subject
        ≡ some assignments)
unfolding with_subject
with_subject-some subject s = elim (Option-cases (find subject s.state_by_subject)) [
  | inr (assignments, e) ↦ (
    assignments,
    ap (λ (t : Resolver). find subject t.state_by_subject)
          (with_subject-there subject s assignments e)
        ∙ e,
  )
  | inl absent ↦ (
    [],
    rw (absent, with_subject)
        (find-put subject subject [] (evict s.max_subjects s.state_by_subject)
          ∙ rw (eq_refl subject)),
  )
]

-- A subject that was exposed is not exposed again.
expose-again :
    (subject : String) (new : Assignment) (s : Resolver)
    → IsExposed subject new.experiment s
    → expose subject new.experiment (record_assignment subject new s) ≡ ([], s)
unfolding expose record_assignment
expose-again subject new s (assignments, a, e, f, g) =
    let h : find new.experiment
          (or_no_assignments (find subject (with_subject subject s).state_by_subject))
        ≡ some a =
      ap
        (λ (t : Resolver).
          find new.experiment (or_no_assignments (find subject t.state_by_subject)))
        (with_subject-there subject s assignments e)
      ∙ ap (λ o. find new.experiment (or_no_assignments o)) e
      ∙ f in
    rw (h, record_assignment)
      (rw g (ap (λ (t : Resolver). ([], t)) (with_subject-there subject s assignments e)))

store-IsExposed :
    (subject experiment : String) (a : Assignment) (s : Resolver)
    → a.exposed ≡ true
    → IsExposed subject experiment (store subject experiment a s)
unfolding store
store-IsExposed subject experiment a s e = (
  put experiment a (or_no_assignments (find subject s.state_by_subject)),
  a,
  find-put subject subject (put experiment a (or_no_assignments (find subject s.state_by_subject)))
        s.state_by_subject
      ∙ rw (eq_refl subject),
  find-put experiment experiment a (or_no_assignments (find subject s.state_by_subject))
      ∙ rw (eq_refl experiment),
  e,
)

-- The assignment of a request is not exposed yet, or it is one that was exposed before.
found_or_new :
    (subject : String) (new : Assignment) (s : Resolver)
    → ((record_assignment subject new s).0.exposed ≡ false)
      ⊎ IsExposed subject new.experiment (record_assignment subject new s).1
        × ((record_assignment subject new s).0.exposed ≡ true)
unfolding record_assignment
found_or_new subject new s =
    elim (Option-cases (
      find new.experiment
        (or_no_assignments (find subject (with_subject subject s).state_by_subject)))) [
          | inl fresh ↦
              rw (fresh, record_assignment)
                (elim (Bool-cases new.exposed) [
                  | inr hidden ↦ inl hidden
                  | inl shown ↦ inr (
                    store-IsExposed subject new.experiment new (with_subject subject s) shown,
                    shown,
                  )
                ])
          | inr (a, e) ↦
              rw (e, record_assignment)
                (elim (Bool-cases a.exposed) [
                  | inr hidden ↦ inl hidden
                  | inl shown ↦
                      let (assignments, there) = with_subject-some subject s in
                      inr (
                        (
                          assignments,
                          a,
                          there,
                          ap (λ o. find new.experiment (or_no_assignments o)) (sym there) ∙ e,
                          shown,
                        ),
                        shown,
                      )
                ])
        ]

expose-IsExposed :
    (subject : String) (new : Assignment) (s : Resolver)
    → IsExposed subject new.experiment
        (expose subject new.experiment (record_assignment subject new s)).1
unfolding expose
expose-IsExposed subject new s = go (record_assignment subject new s) (found_or_new subject new s)
  where
    go :
        (p : Assignment × Resolver)
        → (p.0.exposed ≡ false) ⊎ IsExposed subject new.experiment p.1 × (p.0.exposed ≡ true)
        → IsExposed subject new.experiment (expose subject new.experiment p).1
    go (a, t) (inl fresh) =
        rw fresh (store-IsExposed subject new.experiment (record a { exposed = true }) t refl)
    go (a, t) (inr (there, e)) = rw e there

module _ (js : Js) (Values : Type 0) (utf8 : String → List ℕ) (hash_subject : String → String)
    (fingerprint : Experiment js Values → String) (key : String) (remote : Values)
    (subject_id : String) where
  abbrev pub Answer : Type 0
  Answer = Result Values × List Exposure × Resolver

  abbrev pub ask : List (Experiment js Values) → Resolver → Answer
  ask = resolve_list js Values utf8 hash_subject fingerprint key remote subject_id

  -- A second request is made on what the first one left.
  abbrev pub Again : List (Experiment js Values) → Answer → Type 0
  Again es answer = ask es answer.2 ≡ (answer.0, [], answer.2)

  ask-nil : (s : Resolver) → ask [] s ≡ (ok remote, [], s)
  unfolding resolve_list
  ask-nil s = refl

  ask-err :
      (e : Experiment js Values) (es : List (Experiment js Values)) (m : String) (s : Resolver)
      → assign_variant js Values utf8 e subject_id ≡ err m
      → ask (e ∷ es) s ≡ (err m, [], s)
  unfolding resolve_list
  ask-err e es m s a = rw (a, resolve_list)

  ask-none :
      (e : Experiment js Values) (es : List (Experiment js Values)) (s : Resolver)
      → assign_variant js Values utf8 e subject_id ≡ ok none
      → ask (e ∷ es) s ≡ ask es s
  unfolding resolve_list
  ask-none e es s a = rw (a, resolve_list)

  ask-absent :
      (e : Experiment js Values) (es : List (Experiment js Values)) (v : Variant js Values)
      (s : Resolver)
      → assign_variant js Values utf8 e subject_id ≡ ok (some v)
      → find key v.values ≡ none
      → ask (e ∷ es) s ≡ ask es s
  unfolding resolve_list
  ask-absent e es v s a f = rw (a, resolve_list) (rw (f, resolve_list))

  abbrev shown : Experiment js Values → Variant js Values → Resolver → List Exposure × Resolver
  shown e v s = expose (hash_subject subject_id) e.id (
      record_assignment (hash_subject subject_id)
        (new_assignment js Values utf8 hash_subject fingerprint e v) s)

  ask-hit :
      (e : Experiment js Values) (es : List (Experiment js Values)) (v : Variant js Values)
      (value : Values) (s : Resolver)
      → assign_variant js Values utf8 e subject_id ≡ ok (some v)
      → find key v.values ≡ some value
      → ask (e ∷ es) s ≡ (ok value, (shown e v s).0, (shown e v s).1)
  unfolding resolve_list
  ask-hit e es v value s a f = rw (a, resolve_list) (rw (f, resolve_list))

  skipped :
      (e : Experiment js Values) (es : List (Experiment js Values)) (s : Resolver)
      → ((t : Resolver) → ask (e ∷ es) t ≡ ask es t)
      → Again es (ask es s)
      → Again (e ∷ es) (ask (e ∷ es) s)
  skipped e es s step ih = subst (Again (e ∷ es)) (sym (step s)) (step (ask es s).2 ∙ ih)

  -- The same key asked for once more, for the same subject and with the same experiments, gives the same
  -- value or error, exposes the subject to no experiment and changes nothing.
  pub resolve_list-Again : (es : List (Experiment js Values)) (s : Resolver) → Again es (ask es s)
  resolve_list-Again [] s = subst (Again []) (sym (ask-nil s)) (ask-nil s)
  resolve_list-Again (e ∷ es) s = elim (Result-cases (assign_variant js Values utf8 e subject_id)) [
    | inr (m, thrown) ↦
        subst (Again (e ∷ es)) (sym (ask-err e es m s thrown)) (ask-err e es m s thrown)
    | inl (none, a) ↦ skipped e es s (λ t. ask-none e es t a) (resolve_list-Again es s)
    | inl (some v, a) ↦ elim (Option-cases (find key v.values)) [
      | inl absent ↦ skipped e es s (λ t. ask-absent e es v t a absent) (resolve_list-Again es s)
      | inr (value, f) ↦ subst (Again (e ∷ es)) (sym (ask-hit e es v value s a f)) (
          ask-hit e es v value (shown e v s).1 a f
          ∙ ap (λ (p : List Exposure × Resolver). (ok value, p.0, p.1))
              (expose-again (hash_subject subject_id)
                (new_assignment js Values utf8 hash_subject fingerprint e v) (shown e v s).1
                (expose-IsExposed (hash_subject subject_id)
                  (new_assignment js Values utf8 hash_subject fingerprint e v) s)))
    ]
  ]
