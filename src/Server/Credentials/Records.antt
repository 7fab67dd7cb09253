-- ===== src/Server/Credentials/Records.antt =====
-- What the registry of packages/server/src/auth/CredentialRegistry.js holds and grants.
use Prim.Native.String.{◌++◌ as append}
use wardx.Prelude.{
  Bool-cases, Option-cases, ok, guard, bind-ok, then-ok, ok-injective, String, ◌≡◌, refl, subst,
  ◌≢◌, ◌↔◌, inl, inr, true, false, not, ◌||◌, some, List, [], ◌∷◌, ◌++◌, arith, ◌==◌, eq_iff,
  eq_refl,
}
use wardx.Prelude.Json.{
  Json, Items, Fields, null, str, num, arr, bool, obj, nil, cons, end, field, own,
}
use wardx.Prelude.Entries.{find, put, contains, AllValues, AllValues-put, AllValues-imp}
use wardx.Server.Credentials.{
  Credential, Grant, granted, assert_non_empty_string, assert_boolean, label_of, validate_roles,
  validate_allowed_roles, validate_record, add_records, create, authenticate, authorize, resolve,
  lookup, require_fields, known_fields, credential_fields, value_of,
}

-- Texts that are not empty and not `*`, each once.
abbrev pub AreRoles : List String → Type 0
AreRoles [] = Unit {0}
AreRoles (role ∷ roles) =
    ((role == "") ≡ false)
    × ((role == "*") ≡ false)
    × (contains roles role ≡ false)
    × AreRoles roles

pub record IsCredential (c : Credential) : Type 0 where
  pub project : (c.project == "") ≡ false
  pub label : (c.label == "") ≡ false
  pub roles : AreRoles c.allowed_roles
  pub some_role : c.allowed_roles ≢ []

-- No two of them have one label.
abbrev pub OwnLabels : List (String × Credential) → Type 0
OwnLabels [] = Unit {0}
OwnLabels ((k, c) ∷ records) =
    AllValues (λ other. (other.label == c.label) ≡ false) records × OwnLabels records

pub record IsRegistry (records : List (String × Credential)) : Type 0 where
  pub valid : AllValues IsCredential records
  pub own_labels : OwnLabels records

contains-append_one :
    (xs : List String) (x y : String)
    → contains xs y ≡ false
    → (x == y) ≡ false
    → contains (xs ++ x ∷ []) y ≡ false
contains-append_one [] x y h e = rw (e, h)
contains-append_one (z ∷ xs) x y h e = ground (arith, contains-append_one xs x y)

AreRoles-append :
    (roles : List String) (role : String)
    → AreRoles roles
    → (role == "") ≡ false
    → (role == "*") ≡ false
    → contains roles role ≡ false
    → AreRoles (roles ++ role ∷ [])
AreRoles-append [] role h e s c = (e, s, refl, tt)
AreRoles-append (x ∷ roles) role h e s c = (
  h.0,
  h.1,
  contains-append_one roles role x h.2 (ground (arith, eq_iff x role, eq_iff role x)),
  AreRoles-append roles role h.3 e s (ground arith),
)

append_one-ne-nil : {A : Type 0} (xs : List A) (x : A) → xs ++ x ∷ [] ≢ []
append_one-ne-nil [] x h = cc h
append_one-ne-nil (y ∷ xs) x h = cc h

put-OwnLabels :
    (key : String) (c : Credential) (records : List (String × Credential))
    → AllValues (λ other. (other.label == c.label) ≡ false) records
    → OwnLabels records
    → OwnLabels (put key c records)
unfolding put
put-OwnLabels key c [] new h = (tt, tt)
put-OwnLabels key c ((k, d) ∷ records) new h = elim (Bool-cases (k == key)) [
  | inl here ↦ rw here (new.1, h.1)
  | inr other ↦ rw other (
    AllValues-put (λ e. (e.label == d.label) ≡ false) key c records
        (ground (arith, new.0, eq_iff c.label d.label, eq_iff d.label c.label)) h.0,
    put-OwnLabels key c records new.1 h.1,
  )
]

module _ {N : Type 0} where
  assert_non_empty_string-ok :
      (value : Json N) (label s : String)
      → assert_non_empty_string value label ≡ ok s
      → ((s == "") ≡ false) × (value ≡ str s)
  unfolding assert_non_empty_string
  assert_non_empty_string-ok (str t) label s h = ground arith
  assert_non_empty_string-ok null label s h = absurd (cc h)
  assert_non_empty_string-ok (bool b) label s h = absurd (cc h)
  assert_non_empty_string-ok (num n) label s h = absurd (cc h)
  assert_non_empty_string-ok (arr items) label s h = absurd (cc h)
  assert_non_empty_string-ok (obj fields) label s h = absurd (cc h)

  validate_roles-AreRoles :
      (seen : List String) (items : Items N) (label : String) (roles : List String)
      → AreRoles seen
      → validate_roles seen items label ≡ ok roles
      → AreRoles roles × (seen ≢ [] → roles ≢ [])
  unfolding validate_roles
  validate_roles-AreRoles seen nil label roles h e =
      (subst AreRoles (ok-injective e) h, λ s. subst (λ r. r ≢ []) (ok-injective e) s)
  validate_roles-AreRoles seen (cons value items) label roles h e =
      let (role, value_ok, checks) =
        bind-ok (assert_non_empty_string value (append label " role")) _ e in
      let star : (role == "*") ≡ false = ground (arith, checks) in
      let fresh : contains seen role ≡ false = ground (arith, checks) in
      let rest : validate_roles (seen ++ role ∷ []) items label ≡ ok roles =
        ground (arith, checks) in
      let (all, some_left) =
        validate_roles-AreRoles (seen ++ role ∷ []) items label roles
          (AreRoles-append seen role h
            ((assert_non_empty_string-ok value (append label " role") role value_ok).0) star fresh)
          rest in
      (all, λ s. some_left (append_one-ne-nil seen role))

  validate_allowed_roles-AreRoles :
      (value : Json N) (label : String) (roles : List String)
      → validate_allowed_roles value label ≡ ok roles
      → AreRoles roles × (roles ≢ [])
  unfolding validate_allowed_roles validate_roles
  validate_allowed_roles-AreRoles (arr nil) label roles h = absurd (cc h)
  validate_allowed_roles-AreRoles (arr (cons value items)) label roles h =
      let (role, value_ok, checks) =
        bind-ok (assert_non_empty_string value (append label " role")) _ h in
      let star : (role == "*") ≡ false = ground (arith, checks) in
      let rest : validate_roles (role ∷ []) items label ≡ ok roles = ground (arith, checks) in
      let (all, some_left) =
        validate_roles-AreRoles (role ∷ []) items label roles
          (AreRoles-append [] role tt
            ((assert_non_empty_string-ok value (append label " role") role value_ok).0) star refl)
          rest in
      (all, some_left (append_one-ne-nil [] role))
  validate_allowed_roles-AreRoles (obj a) label roles h = absurd (cc h)
  validate_allowed_roles-AreRoles (str a) label roles h = absurd (cc h)
  validate_allowed_roles-AreRoles (bool a) label roles h = absurd (cc h)
  validate_allowed_roles-AreRoles (num a) label roles h = absurd (cc h)
  validate_allowed_roles-AreRoles null label roles h = absurd (cc h)

  validate_record-IsCredential :
      (value : Json N) (label : String) (c : Credential)
      → validate_record value label ≡ ok c
      → IsCredential c
  unfolding validate_record
  validate_record-IsCredential (obj fields) label c h =
      let text : String → Json N = λ name. value_of (own name fields) in
      let (_, h) = then-ok (require_fields credential_fields fields label) _ h in
      let (_, h) = then-ok (known_fields fields label) _ h in
      let (project, project_ok, h) =
        bind-ok (assert_non_empty_string (text "project") (append label ".project")) _ h in
      let (name, name_ok, h) =
        bind-ok (assert_non_empty_string (text "label") (append label ".label")) _ h in
      let (roles, roles_ok, h) =
        bind-ok (validate_allowed_roles (text "allowedRoles") (append label ".allowedRoles")) _ h in
      let (trusted, _, h) =
        bind-ok (assert_boolean (text "trustedForDecisions") (append label ".trustedForDecisions"))
          _ h in
      let (enabled, _, h) =
        bind-ok (assert_boolean (text "enabled") (append label ".enabled")) _ h in
      let (all, some_role) = validate_allowed_roles-AreRoles _ _ roles roles_ok in
      subst IsCredential (ok-injective h) (record {
        project = (assert_non_empty_string-ok _ _ project project_ok).0;
        label = (assert_non_empty_string-ok _ _ name name_ok).0;
        roles = all;
        some_role = some_role;
      })
  validate_record-IsCredential null label c h = absurd (cc h)
  validate_record-IsCredential (bool b) label c h = absurd (cc h)
  validate_record-IsCredential (num n) label c h = absurd (cc h)
  validate_record-IsCredential (str s) label c h = absurd (cc h)
  validate_record-IsCredential (arr a) label c h = absurd (cc h)

  add_records-IsRegistry :
      (show : Json N → String) (labels : List String) (records : List (String × Credential))
      → (fields : Fields N) (after : List (String × Credential))
      → AllValues (λ c. contains labels c.label ≡ true) records
      → IsRegistry records
      → add_records show labels records fields ≡ ok after
      → IsRegistry after
  unfolding add_records
  add_records-IsRegistry show labels records end after known valid h =
      subst IsRegistry (ok-injective h) valid
  add_records-IsRegistry show labels records (field key input fields) after known valid h =
      let (_, h) = then-ok (guard (not (key == "")) "credential must be a non-empty string") _ h in
      let (c, c_ok, h) =
        bind-ok (validate_record input (append "credentials." (label_of show input))) _ h in
      let (new, h) =
        then-ok
          (guard (not (contains labels c.label))
            (append "credential label must be unique: " c.label))
          _ h in
      let is_new : contains labels c.label ≡ false = ground (arith, new) in
      add_records-IsRegistry show (c.label ∷ labels) (put key c records) fields after
        (AllValues-put (λ d. contains (c.label ∷ labels) d.label ≡ true) key c records
          (ground (arith, eq_refl c.label))
          (AllValues-imp (λ d. contains labels d.label ≡ true) _ records (λ d k. ground (arith, k))
            known))
        (record {
          valid =
              AllValues-put IsCredential key c records (validate_record-IsCredential input _ c c_ok)
                valid.valid;
          own_labels =
              put-OwnLabels key c records
                (AllValues-imp (λ d. contains labels d.label ≡ true) _ records
                  (λ d k. ground (arith, k, is_new, eq_iff d.label c.label)) known)
                valid.own_labels;
        })
        h

  -- A registry that is constructed has credentials whose project and label are not empty, each with a
  -- role, and no role empty, `*` or twice; no two of them have one label.
  pub create-IsRegistry :
      (show : Json N → String) (input : Json N) (records : List (String × Credential))
      → create show input ≡ ok records
      → IsRegistry records
  unfolding create
  create-IsRegistry show (obj fields) records h =
      add_records-IsRegistry show [] [] fields records tt (record { valid = tt; own_labels = tt }) h
  create-IsRegistry show null records h = absurd (cc h)
  create-IsRegistry show (bool b) records h = absurd (cc h)
  create-IsRegistry show (num n) records h = absurd (cc h)
  create-IsRegistry show (str s) records h = absurd (cc h)
  create-IsRegistry show (arr items) records h = absurd (cc h)

-- What a client that presents `credential` as `role` is granted.
pub record Allows (records : List (String × Credential)) (credential role : String) (g : Grant)
    : Type 0 where
  pub c : Credential
  pub known : find credential records ≡ some c
  pub enabled : c.enabled ≡ true
  pub allowed : contains c.allowed_roles role ≡ true
  pub is_role : ((role == "") || (role == "*")) ≡ false
  pub grant : g ≡ record {
    project = c.project;
    label = c.label;
    role = role;
    trusted_for_decisions = c.trusted_for_decisions;
  }

-- A request is granted exactly if its credential is one of the registry, is enabled and lists the role
-- claimed, which is not empty and not `*`; the grant is then of the credential's own project.
pub resolve-Allows :
    (N : Type 0) (records : List (String × Credential)) (credential role : String) (g : Grant)
    → (resolve {N = N} records (str credential) (str role) ≡ granted g)
      ↔ Allows records credential role g
unfolding resolve authenticate authorize lookup
resolve-Allows N records credential role g = (there, back)
  where
    there :
        resolve {N = N} records (str credential) (str role) ≡ granted g
        → Allows records credential role g
    there h = elim (Option-cases (find credential records)) [
      | inl unknown ↦ absurd (ground (arith, unknown, h))
      | inr (c, known) ↦ record {
        c = c;
        known = known;
        enabled = ground (arith, known, h);
        allowed = ground (arith, known, h);
        is_role = ground (arith, known, h);
        grant = ground (arith, known, h);
      }
    ]

    back :
        Allows records credential role g
        → resolve {N = N} records (str credential) (str role) ≡ granted g
    back a = ground (arith, a.known, a.enabled, a.is_role, a.allowed, a.grant)
