-- ===== src/Core/Experiments.antt =====
-- packages/core/src/config/ExperimentResolver.js and hash.js. `fingerprint` is `experimentFingerprint`
-- and `hash_subject` the method `hashSubject`, both of which hash with `xxhash-wasm`. `utf8` are the
-- bytes of a text. A call of `onExposure` is a payload in a list.
pub mod Again
pub mod Bounded
mod Tests
use Prim.Native.String.{◌++◌ as append}
use Prim.Native.Nat.{bit_xor}
use wardx.Prelude.{
  leb, if◌then◌else◌, length, Result, ok, err, ◌>>=◌, ◌>>◌, guard, ℕ, zero, ◌*◌, ◌%◌, ◌^◌, String,
  Bool, true, false, not, ◌&&◌, Option, none, some, List, [], ◌∷◌, map, ◌==◌,
}
use wardx.Prelude.Js.{Js}
use wardx.Prelude.Entries.{find, put}

-- `fnv1a32` over bytes, from a hash so far.
pub fnv1a32 : ℕ → List ℕ → ℕ
fnv1a32 hash [] = hash
fnv1a32 hash (b ∷ bytes) = fnv1a32 (bit_xor hash b * 0x01000193 % 2 ^ 32) bytes

module _ (js : Js) (Values : Type 0) where
  open js use {Number, zero, plus, times, divide, less, at_most, is_finite, of_nat}

  pub record Variant : Type 0 where
    pub key : String
    pub weight : Number
    pub values : List (String × Values)

  pub record Experiment : Type 0 where
    pub id : String
    pub enabled : Bool
    pub salt : String
    pub allocation : Number
    pub goal_metric : String
    pub variants : List Variant

  -- `hashToUnitInterval(assignmentHash(id, subjectId, salt))`
  pub bucket_of : (String → List ℕ) → Experiment → String → Number
  bucket_of utf8 experiment subject_id =
      divide
        (of_nat (
          fnv1a32 0x811c9dc5 (
            utf8 (
              append experiment.id (append ":" (append subject_id (append ":" experiment.salt)))))))
        (of_nat 4294967296)

  -- The loop that adds the weights.
  pub total_weight : String → Number → List Variant → Result Number
  total_weight id total [] = ok total
  total_weight id total (v ∷ variants) = do
    guard (is_finite v.weight && not (less v.weight zero))
        (append "experiment " (append id " has invalid variant weight"))
    total_weight id (plus total v.weight) variants

  -- The loop over the thresholds; `v` is the variant before.
  pub pick : Number → Number → Number → Number → Variant → List Variant → Variant
  pick bucket allocation total threshold v [] = v
  pick bucket allocation total threshold v (w ∷ variants) =
      let next = plus threshold (times (divide w.weight total) allocation) in
      let rest = pick bucket allocation total next w variants in
      if less bucket next then w else rest

  pub choose : Experiment → Number → List Variant → Result (Option Variant)
  choose experiment bucket [] = err (append "experiment " (append experiment.id " has no variants"))
  choose experiment bucket (v ∷ variants) = do
    total ← total_weight experiment.id zero (v ∷ variants)
    guard (not (at_most total zero))
        (append "experiment " (append experiment.id " variant weights must sum to > 0"))
    ok (some (pick bucket experiment.allocation total zero v (v ∷ variants)))

  pub assign_variant : (String → List ℕ) → Experiment → String → Result (Option Variant)
  assign_variant utf8 experiment subject_id =
      if not experiment.enabled
      then ok none
      else if at_most experiment.allocation (bucket_of utf8 experiment subject_id)
      then ok none
      else choose experiment (bucket_of utf8 experiment subject_id) experiment.variants

pub record Assignment : Type 0 where
  pub experiment : String
  pub variant : String
  pub goal_metric : String
  pub fingerprint : String
  pub exposed : Bool

pub record Exposure : Type 0 where
  pub experiment : String
  pub variant : String
  pub subject : String

-- `stateBySubject` is the list of its entries, the oldest first.
pub record Resolver : Type 0 where
  pub max_subjects : ℕ
  pub state_by_subject : List (String × List (String × Assignment))

abbrev pub or_no_assignments : Option (List (String × Assignment)) → List (String × Assignment)
or_no_assignments none = []
or_no_assignments (some assignments) = assignments

-- `while (size >= stateMaxSubjects) delete(oldest)`, for a limit of at least 1.
pub evict :
    ℕ → List (String × List (String × Assignment)) → List (String × List (String × Assignment))
evict max_subjects [] = []
evict max_subjects (e ∷ entries) =
    let rest = evict max_subjects entries in
    if leb max_subjects (length (e ∷ entries)) then rest else e ∷ entries

-- The state of a subject, which a new one gets at the cost of the oldest.
pub with_subject : String → Resolver → Resolver
with_subject subject s = elim (find subject s.state_by_subject) [
  | some assignments ↦ s
  | none ↦ record s { state_by_subject = put subject [] (evict s.max_subjects s.state_by_subject) }
]

-- `assignment` becomes the one of `experiment` for `subject`.
pub store : String → String → Assignment → Resolver → Resolver
store subject experiment assignment s = record s {
  state_by_subject =
      put subject (put experiment assignment (or_no_assignments (find subject s.state_by_subject)))
        s.state_by_subject;
}

-- `recordAssignment`, given what it makes of an experiment that is new to the subject.
pub record_assignment : String → Assignment → Resolver → Assignment × Resolver
record_assignment subject new s =
    let t = with_subject subject s in
    elim (find new.experiment (or_no_assignments (find subject t.state_by_subject))) [
      | some assignment ↦ (assignment, t)
      | none ↦ (new, store subject new.experiment new t)
    ]

-- `_expose`; the assignment is the object that the subject holds under `id`.
pub expose : String → String → Assignment × Resolver → List Exposure × Resolver
expose subject id (assignment, s) = if assignment.exposed then ([], s) else (
  record { experiment = assignment.experiment; variant = assignment.variant; subject = subject }
      ∷ [],
  store subject id (record assignment { exposed = true }) s,
)

module _ (js : Js) (Values : Type 0) (utf8 : String → List ℕ) (hash_subject : String → String)
    (fingerprint : Experiment js Values → String) where
  abbrev pub new_assignment : Experiment js Values → Variant js Values → Assignment
  new_assignment e v = record {
    experiment = e.id;
    variant = v.key;
    goal_metric = e.goal_metric;
    fingerprint = fingerprint e;
    exposed = false;
  }

  -- The loop of `resolve` over the experiments of the key.
  pub resolve_list :
      String
      → Values
      → String
      → List (Experiment js Values)
      → Resolver
      → Result Values × List Exposure × Resolver
  resolve_list key remote subject_id [] s = (ok remote, [], s)
  resolve_list key remote subject_id (e ∷ es) s =
      elim (assign_variant js Values utf8 e subject_id) [
        | err m ↦ (err m, [], s)
        | ok none ↦ resolve_list key remote subject_id es s
        | ok (some v) ↦ elim (find key v.values) [
          | none ↦ resolve_list key remote subject_id es s
          | some value ↦
              let (exposures, s') =
                expose (hash_subject subject_id) e.id
                  (record_assignment (hash_subject subject_id) (new_assignment e v) s) in
              (ok value, exposures, s')
        ]
      ]

  abbrev pub or_no_experiments : Option (List (Experiment js Values)) → List (Experiment js Values)
  or_no_experiments none = []
  or_no_experiments (some es) = es

  -- `resolve`; no subject is `none`.
  pub resolve :
      String
      → Values
      → Option String
      → List (String × List (Experiment js Values))
      → Resolver
      → Result Values × List Exposure × Resolver
  resolve key remote none by_key s = (ok remote, [], s)
  resolve key remote (some subject_id) by_key s =
      resolve_list key remote subject_id (or_no_experiments (find key by_key)) s

  -- `assignmentsFor`
  pub assignments_for : String → Resolver → List Assignment
  assignments_for subject_id s =
      map (λ (e : String × Assignment). e.1)
        (or_no_assignments (find (hash_subject subject_id) s.state_by_subject))

  pub exposed_for : String → List Assignment → List Assignment
  exposed_for goal [] = []
  exposed_for goal (a ∷ more) =
      if a.exposed && (a.goal_metric == goal)
      then a ∷ exposed_for goal more
      else exposed_for goal more

  -- `exposedAssignmentForGoal`
  pub exposed_assignment_for_goal : String → String → Resolver → Result (Option Assignment)
  exposed_assignment_for_goal subject_id goal s =
      elim (exposed_for goal (assignments_for subject_id s)) [
        | [] ↦ ok none
        | a ∷ [] ↦ ok (some a)
        | a ∷ (b ∷ rest) ↦
            err (append "goal metric " (append goal " matches multiple exposed experiments"))
      ]

  -- `active`: the fingerprints of the experiments that are enabled.
  pub active_of : List (Experiment js Values) → List (String × String) → List (String × String)
  active_of [] active = active
  active_of (e ∷ es) active =
      active_of es (if e.enabled then put e.id (fingerprint e) active else active)

  abbrev is_current : Option String → String → Bool
  is_current none f = false
  is_current (some g) f = g == f

  pub keep_current :
      List (String × String) → List (String × Assignment) → List (String × Assignment)
  keep_current active [] = []
  keep_current active ((id, a) ∷ assignments) =
      if is_current (find id active) a.fingerprint
      then (id, a) ∷ keep_current active assignments
      else keep_current active assignments

  abbrev with_assignments :
      String
      → List (String × Assignment)
      → List (String × List (String × Assignment))
      → List (String × List (String × Assignment))
  with_assignments subject [] entries = entries
  with_assignments subject (a ∷ assignments) entries = (subject, a ∷ assignments) ∷ entries

  pub keep_subjects :
      List (String × String)
      → List (String × List (String × Assignment))
      → List (String × List (String × Assignment))
  keep_subjects active [] = []
  keep_subjects active ((subject, assignments) ∷ entries) =
      with_assignments subject (keep_current active assignments) (keep_subjects active entries)

  -- `applySnapshot`
  pub apply_snapshot : List (Experiment js Values) → Resolver → Resolver
  apply_snapshot experiments s = record s {
    state_by_subject = keep_subjects (active_of experiments []) s.state_by_subject;
  }
