-- ===== src/Server/Journal.antt =====
-- packages/server/src/control/MutationJournal.js: its records and checks. A snapshot is what the
-- repository reads; Repository has how it is stored, and Calls the methods of the journal.
pub mod Repository
pub mod Calls
use Prim.Native.String.{◌++◌ as append}
use wardx.Prelude.{
  Result, ok, err, ◌>>=◌, ◌>>◌, guard, ℕ, suc, String, Bool, true, false, not, ◌||◌, Option, none,
  some, List, [], ◌∷◌, ◌++◌, ◌==◌,
}
use wardx.Prelude.Json.{Json, Items, Fields, arr, obj, nil, cons, end, field}

-- Functions of the JavaScript library that the journal calls.
pub record Library : Type 0 where
  pub trim : String → String
  pub to_lower_case : String → String
  pub show : ℕ → String

-- `conflict` is `MutationConflictError`.
pub data Outcome {ℓ} (A : Type ℓ) : Type ℓ where
  done : A → Outcome A
  conflict : ℕ → Outcome A
  failed : String → Outcome A

abbrev then_do {ℓ κ} : {A : Type ℓ} {B : Type κ} → Outcome A → (A → Outcome B) → Outcome B
then_do (done a) f = f a
then_do (conflict v) f = conflict v
then_do (failed e) f = failed e

-- An error that is thrown within the work.
abbrev pub thrown {ℓ} : {A : Type ℓ} → Result A → Outcome A
thrown (ok a) = done a
thrown (err e) = failed e

pub record Identity : Type 0 where
  pub name : String
  pub version : Option String
  pub verified : Option Bool

-- `{ available, verified, name, version }`, with no name and no version where it is not available.
pub record ClientIdentity : Type 0 where
  pub available : Bool
  pub verified : Bool
  pub name : Option String
  pub version : Option String

-- The argument of `rollback`.
pub record Rollback : Type 0 where
  pub project : String
  pub change_id : String
  pub expected_version : ℕ
  pub reason : String
  pub client_identity : Option Identity

module _ (N : Type 0) where
  pub record Entry : Type 0 where
    pub id : String
    pub timestamp : ℕ
    pub project : String
    pub previous_version : ℕ
    pub new_version : ℕ
    pub operation : String
    pub affected_names : List String
    pub reason : String
    pub client_identity : ClientIdentity
    pub rolled_back_change_id : Option String
    -- `reversible`
    pub forward : Json N
    pub inverse : Json N

  pub record Snapshot : Type 0 where
    pub version : ℕ
    pub state : Json N
    pub changes : List Entry

  -- The argument of `commit`.
  pub record Mutation : Type 0 where
    pub project : String
    pub expected_version : ℕ
    pub reason : String
    pub operation : String
    pub affected_names : List String
    pub client_identity : Option Identity
    pub forward : Json N
    pub inverse : Json N

unsafe_audit_fields : List String
unsafe_audit_fields =
    "credential" ∷ "password" ∷ "projectkey" ∷ "rawkey" ∷ "secret" ∷ "subject" ∷ "subjectid"
    ∷ "token" ∷ []

pub includes : List String → String → Bool
includes [] k = false
includes (x ∷ xs) k = (x == k) || includes xs k

module _ (js : Library) where
  assert_non_empty_string : String → String → Result (Unit {0})
  assert_non_empty_string value label =
      guard (not (js.trim value == "")) (append label " must be a non-empty string")

  -- A parsed value holds no cycle, so `seen` has no counterpart.
  mutual
    assert_audit_safe : {N : Type 0} → Json N → String → Result (Unit {0})
    assert_audit_safe (arr xs) label = assert_items_safe xs label 0
    assert_audit_safe (obj fs) label = assert_fields_safe fs label
    assert_audit_safe _ label = ok tt

    assert_items_safe : {N : Type 0} → Items N → String → ℕ → Result (Unit {0})
    assert_items_safe nil label i = ok tt
    assert_items_safe (cons x xs) label i = do
      assert_audit_safe x (append label (append "[" (append (js.show i) "]")))
      assert_items_safe xs label (suc i)

    assert_fields_safe : {N : Type 0} → Fields N → String → Result (Unit {0})
    assert_fields_safe end label = ok tt
    assert_fields_safe (field key child fs) label = do
      guard (not (includes unsafe_audit_fields (js.to_lower_case key)))
          (append label (append " contains prohibited audit field: " key))
      assert_audit_safe child (append label (append "." key))
      assert_fields_safe fs label

  -- The loop of `normalizeAffectedNames`; `seen` is what it has passed.
  normalize_names : List String → List String → Result (List String)
  normalize_names [] seen = ok seen
  normalize_names (name ∷ names) seen = do
    assert_non_empty_string name "affectedNames item"
    guard (not (includes seen name)) (append "affectedNames duplicate: " name)
    normalize_names names (seen ++ name ∷ [])

  normalize_affected_names : List String → Result (List String)
  normalize_affected_names [] = err "affectedNames must be a non-empty array"
  normalize_affected_names names = normalize_names names []

  normalize_version : Option String → Result (Option String)
  normalize_version none = ok none
  normalize_version (some version) = do
    assert_non_empty_string version "clientIdentity.version"
    ok (some version)

  abbrev or_false : Option Bool → Bool
  or_false none = false
  or_false (some b) = b

  normalize_client_identity : Option Identity → Result ClientIdentity
  normalize_client_identity none =
      ok (record { available = false; verified = false; name = none; version = none })
  normalize_client_identity (some value) = do
    assert_non_empty_string value.name "clientIdentity.name"
    version ← normalize_version value.version
    ok (record {
      available = true;
      verified = or_false value.verified;
      name = some value.name;
      version = version;
    })
