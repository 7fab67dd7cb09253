-- ===== src/Server/Credentials.antt =====
-- packages/server/src/auth/CredentialRegistry.js: the keys that clients present, and what each allows.
-- The `Map` is the list of its entries. `show` is the text of a label that is no text.
pub mod Records
mod Tests
use Prim.Native.String.{◌++◌ as append}
use wardx.Prelude.{
  if◌then◌else◌, Result, ok, err, ◌>>=◌, ◌>>◌, guard, String, Bool, false, not, ◌||◌, Option, none,
  some, List, [], ◌∷◌, ◌++◌, ◌==◌,
}
use wardx.Prelude.Json.{Json, Items, Fields, null, str, arr, bool, obj, nil, cons, end, field, own}
use wardx.Prelude.Entries.{find, put, contains}

-- `validateRecord` gives this.
pub record Credential : Type 0 where
  pub project : String
  pub label : String
  pub allowed_roles : List String
  pub trusted_for_decisions : Bool
  pub enabled : Bool

-- What `authorize` returns.
pub record Grant : Type 0 where
  pub project : String
  pub label : String
  pub role : String
  pub trusted_for_decisions : Bool

-- `denied` is a thrown `CredentialAuthorizationError`, with its code and its message.
pub data Access {ℓ} (A : Type ℓ) : Type ℓ where
  denied : String → String → Access A
  granted : A → Access A

abbrev pub credential_fields : List String
credential_fields = "project" ∷ "label" ∷ "allowedRoles" ∷ "trustedForDecisions" ∷ "enabled" ∷ []

module _ {N : Type 0} where
  -- A missing property is `undefined`, which is no text, no array and no Boolean either.
  abbrev value_of : Option (Json N) → Json N
  value_of none = null
  value_of (some value) = value

  pub assert_non_empty_string : Json N → String → Result String
  assert_non_empty_string (str s) label =
      if s == "" then err (append label " must be a non-empty string") else ok s
  assert_non_empty_string _ label = err (append label " must be a non-empty string")

  -- The loop; `seen` has the roles in their order.
  pub validate_roles : List String → Items N → String → Result (List String)
  validate_roles seen nil label = ok seen
  validate_roles seen (cons value roles) label = do
    role ← assert_non_empty_string value (append label " role")
    guard (not (role == "*")) (append label " cannot contain *")
    guard (not (contains seen role)) (append label (append " duplicate role: " role))
    validate_roles (seen ++ role ∷ []) roles label

  pub validate_allowed_roles : Json N → String → Result (List String)
  validate_allowed_roles (arr (cons role roles)) label = validate_roles [] (cons role roles) label
  validate_allowed_roles _ label = err (append label " must be a non-empty array of role names")

  pub require_fields : List String → Fields N → String → Result (Unit {0})
  require_fields [] fields label = ok tt
  require_fields (name ∷ names) fields label = elim (own name fields) [
    | none ↦ err (append label (append "." (append name " is required")))
    | some _ ↦ require_fields names fields label
  ]

  pub known_fields : Fields N → String → Result (Unit {0})
  known_fields end label = ok tt
  known_fields (field key _ fields) label = do
    guard (contains credential_fields key) (append label (append " unknown key: " key))
    known_fields fields label

  pub assert_boolean : Json N → String → Result Bool
  assert_boolean (bool b) label = ok b
  assert_boolean _ label = err (append label " must be a boolean")

  pub validate_record : Json N → String → Result Credential
  validate_record (obj fields) label = do
    require_fields credential_fields fields label
    known_fields fields label
    project ← assert_non_empty_string (value_of (own "project" fields)) (append label ".project")
    name ← assert_non_empty_string (value_of (own "label" fields)) (append label ".label")
    roles ←
        validate_allowed_roles (value_of (own "allowedRoles" fields)) (append label ".allowedRoles")
    trusted ←
        assert_boolean (value_of (own "trustedForDecisions" fields))
          (append label ".trustedForDecisions")
    enabled ← assert_boolean (value_of (own "enabled" fields)) (append label ".enabled")
    ok (record {
      project = project;
      label = name;
      allowed_roles = roles;
      trusted_for_decisions = trusted;
      enabled = enabled;
    })
  validate_record _ label = err (append label " must be an object")

  -- `input?.label || '<unlabeled>'`
  pub label_or_unlabeled : (Json N → String) → Option (Json N) → String
  label_or_unlabeled show none = "<unlabeled>"
  label_or_unlabeled show (some null) = "<unlabeled>"
  label_or_unlabeled show (some (bool false)) = "<unlabeled>"
  label_or_unlabeled show (some (str s)) = if s == "" then "<unlabeled>" else s
  label_or_unlabeled show (some value) = show value

  pub label_of : (Json N → String) → Json N → String
  label_of show (obj fields) = label_or_unlabeled show (own "label" fields)
  label_of show _ = "<unlabeled>"

  -- The loop of the constructor.
  pub add_records :
      (Json N → String)
      → List String
      → List (String × Credential)
      → Fields N
      → Result (List (String × Credential))
  add_records show labels records end = ok records
  add_records show labels records (field credential input fields) = do
    guard (not (credential == "")) "credential must be a non-empty string"
    added ← validate_record input (append "credentials." (label_of show input))
    guard (not (contains labels added.label))
        (append "credential label must be unique: " added.label)
    add_records show (added.label ∷ labels) (put credential added records) fields

  pub create : (Json N → String) → Json N → Result (List (String × Credential))
  create show (obj fields) = add_records show [] [] fields
  create show _ = err "credentials must be an object keyed by credential value"

  pub lookup : List (String × Credential) → Json N → Option Credential
  lookup records (str credential) = find credential records
  lookup records _ = none

  pub authenticate : List (String × Credential) → Json N → Access Credential
  authenticate records credential = elim (lookup records credential) [
    | none ↦ denied "unknown_credential" "credential is not recognized"
    | some c ↦
        if c.enabled then granted c else denied "disabled_credential" "credential is disabled"
  ]

  -- The record is one that `authenticate` gave, so that it is an object.
  pub authorize : Credential → Json N → Access Grant
  authorize c (str role) =
      if (role == "") || (role == "*")
      then denied "invalid_role" "claimed role is invalid"
      else if contains c.allowed_roles role
      then granted (record {
        project = c.project;
        label = c.label;
        role = role;
        trusted_for_decisions = c.trusted_for_decisions;
      })
      else denied "role_not_allowed" "credential is not allowed for the claimed role"
  authorize c _ = denied "invalid_role" "claimed role is invalid"

  pub resolve : List (String × Credential) → Json N → Json N → Access Grant
  resolve records credential role = elim (authenticate records credential) [
    | denied code message ↦ denied code message
    | granted c ↦ authorize c role
  ]
