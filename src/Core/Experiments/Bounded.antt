-- ===== src/Core/Experiments/Bounded.antt =====
-- The number of subjects stays within its limit.
use wardx.Prelude.{
  Bool-cases, Option-cases, length, Result-cases, ℕ, ◌+◌, ◌≤◌, String, ◌≡◌, refl, ◌∙◌, inl, inr,
  true, none, some, List, [], ◌∷◌, arith, eq_refl,
}
use wardx.Prelude.Js.{Js}
use wardx.Prelude.Entries.{find, put, find-put, length-put_new, length-put_old}
use wardx.Core.Experiments.Again.{with_subject-some}
use wardx.Core.Experiments.{
  Experiment, Assignment, Resolver, assign_variant, or_no_assignments, evict, with_subject, store,
  record_assignment, expose, resolve_list,
}

abbrev IsBounded : ℕ → Resolver → Type 0
IsBounded n s = (1 ≤ n) × (s.max_subjects ≡ n) × (length s.state_by_subject ≤ n)

length-evict :
    (n : ℕ) (entries : List (String × List (String × Assignment)))
    → 1 ≤ n
    → length (evict n entries) + 1 ≤ n
unfolding evict
length-evict n [] h = omega arith
length-evict n (e ∷ entries) h = ground (arith, length-evict n entries)

length-put {ℓ} :
    {A : Type ℓ} (key : String) (a : A) (entries : List (String × A))
    → length (put key a entries) ≤ length entries + 1
length-put key a entries = elim (Option-cases (find key entries)) [
  | inl absent ↦ omega (arith, length-put_new key a entries absent)
  | inr (b, e) ↦ omega (arith, length-put_old key a b entries e)
]

-- A subject that is there may be stored again.
abbrev IsHeld : String → Resolver → Type 0
IsHeld subject s =
    (assignments : List (String × Assignment)) × (find subject s.state_by_subject
      ≡ some assignments)

with_subject-IsBounded :
    (n : ℕ) (subject : String) (s : Resolver) → IsBounded n s → IsBounded n (with_subject subject s)
unfolding with_subject
with_subject-IsBounded n subject s v = elim (Option-cases (find subject s.state_by_subject)) [
  | inr (assignments, e) ↦ rw (e, with_subject) v
  | inl absent ↦
      rw (absent, with_subject)
        (
          v.0,
          v.1,
          omega (
            arith,
            length-put subject [] (evict s.max_subjects s.state_by_subject),
            length-evict s.max_subjects s.state_by_subject,
            v,
          ),
        )
]

store-IsBounded :
    (n : ℕ) (subject id : String) (a : Assignment) (s : Resolver)
    → IsHeld subject s
    → IsBounded n s
    → IsBounded n (store subject id a s) × IsHeld subject (store subject id a s)
unfolding store
store-IsBounded n subject id a s (assignments, e) v = (
  (
    v.0,
    v.1,
    omega (
      arith,
      v.2,
      length-put_old subject (put id a (or_no_assignments (find subject s.state_by_subject)))
          assignments s.state_by_subject e,
    ),
  ),
  (
    put id a (or_no_assignments (find subject s.state_by_subject)),
    find-put subject subject _ s.state_by_subject ∙ rw (eq_refl subject),
  ),
)

record_assignment-IsBounded :
    (n : ℕ) (subject : String) (new : Assignment) (s : Resolver)
    → IsBounded n s
    → IsBounded n (record_assignment subject new s).1
      × IsHeld subject (record_assignment subject new s).1
unfolding record_assignment
record_assignment-IsBounded n subject new s v =
    elim (Option-cases (
      find new.experiment
        (or_no_assignments (find subject (with_subject subject s).state_by_subject)))) [
          | inl fresh ↦
              rw (fresh, record_assignment)
                (store-IsBounded n subject new.experiment new (with_subject subject s)
                  (with_subject-some subject s) (with_subject-IsBounded n subject s v))
          | inr (a, e) ↦
              rw (e, record_assignment)
                (with_subject-IsBounded n subject s v, with_subject-some subject s)
        ]

expose-IsBounded :
    (n : ℕ) (subject id : String) (p : Assignment × Resolver)
    → IsBounded n p.1
    → IsHeld subject p.1
    → IsBounded n (expose subject id p).1
unfolding expose
expose-IsBounded n subject id (a, s) v h = elim (Bool-cases a.exposed) [
  | inl shown ↦ rw shown v
  | inr hidden ↦ rw hidden (store-IsBounded n subject id (record a { exposed = true }) s h v).0
]

module _ (js : Js) (Values : Type 0) (utf8 : String → List ℕ) (hash_subject : String → String)
    (fingerprint : Experiment js Values → String) (key : String) (remote : Values)
    (subject_id : String) where
  -- A request keeps the number of subjects within a limit of at least one.
  pub resolve_list-IsBounded :
      (es : List (Experiment js Values)) (s : Resolver)
      → 1 ≤ s.max_subjects
      → length s.state_by_subject ≤ s.max_subjects
      → length
          (resolve_list js Values utf8 hash_subject fingerprint key remote subject_id es
            s).2.state_by_subject
        ≤ s.max_subjects
  unfolding resolve_list
  resolve_list-IsBounded [] s p h = h
  resolve_list-IsBounded (e ∷ es) s p h =
      elim (Result-cases (assign_variant js Values utf8 e subject_id)) [
        | inr (m, thrown) ↦ rw (thrown, resolve_list) h
        | inl (none, a) ↦ rw (a, resolve_list) (resolve_list-IsBounded es s p h)
        | inl (some v, a) ↦ elim (Option-cases (find key v.values)) [
          | inl absent ↦
              rw (a, resolve_list) (rw (absent, resolve_list) (resolve_list-IsBounded es s p h))
          | inr (value, f) ↦
              rw (a, resolve_list)
                (rw (f, resolve_list)
                  (let r =
                      record_assignment-IsBounded s.max_subjects (hash_subject subject_id) _ s
                        (p, refl, h) in
                    (expose-IsBounded s.max_subjects (hash_subject subject_id) e.id _ r.0 r.1).2))
        ]
      ]
