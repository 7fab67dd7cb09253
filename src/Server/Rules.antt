-- ===== src/Server/Rules.antt =====
-- packages/server/src/config/rules.js: the rules that override a value of the configuration for some
-- clients. `validate_config_rules` gives the checked JSON with its types, which the code reads as it is.
pub mod First
mod Tests
use Prim.Native.String.{◌++◌ as append, slice, len}
use text.Mathlib.Text.{starts_with}
use wardx.Prelude.{
  ltb, if◌then◌else◌, Result, ok, err, ◌>>=◌, ◌>>◌, guard, String, Bool, true, false, not, ◌&&◌,
  ◌||◌, Option, none, some, List, [], ◌∷◌, ◌==◌,
}
use wardx.Prelude.Entries.{find, contains}
use wardx.Prelude.Js.{Js}
use wardx.Prelude.Json.{
  Json, Items, Fields, null, bool, num, str, arr, obj, nil, cons, end, field, own,
}

pub record Condition (N : Type 0) : Type 0 where
  pub client_field : String
  pub op : String
  pub operand : Json N

pub record Rule (N : Type 0) : Type 0 where
  pub conditions : List (Condition N)
  pub value : Json N

abbrev pub client_fields : List String
client_fields = "role" ∷ "appVersion" ∷ "environment" ∷ "platform" ∷ "os" ∷ []

abbrev pub operators : List String
operators = "eq" ∷ "in" ∷ "gt" ∷ "gte" ∷ "lt" ∷ "lte" ∷ []

abbrev is_custom : String → Bool
is_custom name = starts_with name "attributes."

abbrev has_field : {N : Type 0} → String → Fields N → Bool
has_field key fields = elim (own key fields) [ none ↦ false | some _ ↦ true ]

module _ (js : Js) where
  open js use {Number, is_finite, same, less, at_most}

  pub is_scalar : Json Number → Bool
  is_scalar (str s) = true
  is_scalar (bool b) = true
  is_scalar (num n) = is_finite n
  is_scalar _ = false

  pub known_keys : Fields Number → List String → String → Result (Unit {0})
  known_keys end keys label = ok tt
  known_keys (field key _ fields) keys label = do
    guard (contains keys key) (append label (append " unknown key: " key))
    known_keys fields keys label

  pub require_keys : List String → Fields Number → String → Result (Unit {0})
  require_keys [] fields label = ok tt
  require_keys (key ∷ keys) fields label = do
    guard (has_field key fields) (append label (append "." (append key " is required")))
    require_keys keys fields label

  -- `object(value, keys, label)`
  pub assert_object : Json Number → List String → String → Result (Fields Number)
  assert_object (obj fields) keys label = do
    known_keys fields keys label
    require_keys keys fields label
    ok fields
  assert_object _ keys label = err (append label " must be an object")

  -- What the replacer of `JSON.stringify` lets pass.
  mutual
    pub only_json : Json Number → Bool
    only_json (num n) = is_finite n
    only_json (arr items) = only_json_items items
    only_json (obj fields) = only_json_fields fields
    only_json _ = true

    pub only_json_items : Items Number → Bool
    only_json_items nil = true
    only_json_items (cons value items) = only_json value && only_json_items items

    pub only_json_fields : Fields Number → Bool
    only_json_fields end = true
    only_json_fields (field _ value fields) = only_json value && only_json_fields fields

  pub all_scalar : Items Number → Bool
  all_scalar nil = true
  all_scalar (cons value items) = is_scalar value && all_scalar items

  pub is_scalar_array : Json Number → Bool
  is_scalar_array (arr (cons value items)) = is_scalar value && all_scalar items
  is_scalar_array _ = false

  pub is_number : Json Number → Bool
  is_number (num n) = is_finite n
  is_number _ = false

  pub check_operand : String → Json Number → String → Result (Unit {0})
  check_operand op operand label =
      if op == "in"
      then guard (is_scalar_array operand) (append label " in requires a non-empty scalar array")
      else if op == "eq"
      then guard (is_scalar operand) (append label " eq requires a scalar value")
      else guard (is_number operand)
          (append label (append " " (append op " requires a finite number")))

  pub is_field : String → Bool
  is_field name = contains client_fields name || is_custom name && ltb 11 (len name)

  pub field_of : Option (Json Number) → String → Result String
  field_of (some (str name)) label = do
    guard (is_field name) (append label " field must be client metadata or attributes.<name>")
    ok name
  field_of _ label = err (append label " field must be client metadata or attributes.<name>")

  -- `show` is the text of an operator that is no text.
  pub operator_of : (Json Number → String) → Option (Json Number) → String → Result String
  operator_of show (some (str op)) label = do
    guard (contains operators op) (append label (append " unknown operator: " op))
    ok op
  operator_of show (some value) label =
      err (append label (append " unknown operator: " (show value)))
  operator_of show none label = err (append label " unknown operator: undefined")

  -- A property that `assert_object` has found.
  abbrev property : String → Fields Number → Json Number
  property key fields = elim (own key fields) [ none ↦ null | some value ↦ value ]

  pub validate_condition : (Json Number → String) → Json Number → String → Result (Condition Number)
  validate_condition show input label = do
    fields ← assert_object input ("field" ∷ "op" ∷ "value" ∷ []) (append label ".when")
    name ← field_of (own "field" fields) label
    op ← operator_of show (own "op" fields) label
    check_operand op (property "value" fields) label
    ok (record { client_field = name; op = op; operand = property "value" fields })

  pub validate_conditions :
      (Json Number → String) → Items Number → String → Result (List (Condition Number))
  validate_conditions show nil label = ok []
  validate_conditions show (cons input items) label = do
    condition ← validate_condition show input label
    rest ← validate_conditions show items label
    ok (condition ∷ rest)

  pub validate_when :
      (Json Number → String) → Json Number → String → Result (List (Condition Number))
  validate_when show (arr (cons input items)) label =
      validate_conditions show (cons input items) label
  validate_when show _ label = err (append label ".when must be a non-empty array")

  pub validate_rules : (Json Number → String) → Items Number → String → Result (List (Rule Number))
  validate_rules show nil label = ok []
  validate_rules show (cons input items) label = do
    fields ← assert_object input ("when" ∷ "value" ∷ []) label
    guard (only_json (property "value" fields))
        (append label ".value must contain only JSON values")
    conditions ← validate_when show (property "when" fields) label
    rest ← validate_rules show items label
    ok (record { conditions = conditions; value = property "value" fields } ∷ rest)

  pub rules_of : (Json Number → String) → Json Number → String → Result (List (Rule Number))
  rules_of show (arr items) label = validate_rules show items label
  rules_of show _ label = err (append label " must be an array")

  pub validate_keys :
      (Json Number → String)
      → Fields Number
      → Fields Number
      → String
      → Result (List (String × List (Rule Number)))
  validate_keys show values end label = ok []
  validate_keys show values (field key rules key_rules) label = do
    let rule_label = append label (append ".keyRules." key)
    guard (has_field key values) (append rule_label " references an unknown config key")
    checked ← rules_of show rules rule_label
    rest ← validate_keys show values key_rules label
    ok ((key, checked) ∷ rest)

  -- `none` is a missing `keyRules`, for which there is a default.
  pub validate_config_rules :
      (Json Number → String)
      → Fields Number
      → Option (Json Number)
      → String
      → Result (List (String × List (Rule Number)))
  validate_config_rules show values none label = ok []
  validate_config_rules show values (some (obj key_rules)) label =
      validate_keys show values key_rules label
  validate_config_rules show values (some _) label =
      err (append label ".keyRules must be an object")

  -- `===` of a scalar with a value
  pub same_value : Json Number → Json Number → Bool
  same_value (str s) (str t) = s == t
  same_value (bool true) (bool b) = b
  same_value (bool false) (bool b) = not b
  same_value (num n) (num m) = same n m
  same_value _ _ = false

  pub includes_value : Items Number → Json Number → Bool
  includes_value nil actual = false
  includes_value (cons value items) actual = same_value actual value || includes_value items actual

  pub in_operand : Json Number → Json Number → Bool
  in_operand (arr items) actual = includes_value items actual
  in_operand _ actual = false

  -- The operators on two numbers; a rule that was checked has a number here.
  pub compares : String → Json Number → Json Number → Bool
  compares op (num actual) (num value) =
      if op == "gt"
      then less value actual
      else if op == "gte"
      then at_most value actual
      else if op == "lt"
      then less actual value
      else at_most actual value
  compares op _ _ = false

  pub value_matches : Condition Number → Json Number → Bool
  value_matches c actual =
      if not (is_scalar actual)
      then false
      else if c.op == "eq"
      then same_value actual c.operand
      else if c.op == "in"
      then in_operand c.operand actual
      else compares c.op actual c.operand

  -- `source[key]` where `source` has it; the attributes may be missing.
  pub actual_of : String → Fields Number → Option (Json Number)
  actual_of name client =
      if is_custom name then attribute (own "attributes" client) else own name client
    where
      attribute : Option (Json Number) → Option (Json Number)
      attribute (some (obj fields)) = own (slice name 11 (len name)) fields
      attribute _ = none

  pub matches : Condition Number → Fields Number → Bool
  matches c client = elim (actual_of c.client_field client) [
    | none ↦ false
    | some actual ↦ value_matches c actual
  ]

  pub all_match : List (Condition Number) → Fields Number → Bool
  all_match [] client = true
  all_match (c ∷ conditions) client = matches c client && all_match conditions client

  -- `rules.find(...)`, and its value or the base.
  pub resolve_rules : List (Rule Number) → Fields Number → Json Number → Json Number
  resolve_rules [] client base = base
  resolve_rules (rule ∷ rules) client base =
      let rest = resolve_rules rules client base in
      if all_match rule.conditions client then rule.value else rest

  abbrev pub rules_for : String → List (String × List (Rule Number)) → List (Rule Number)
  rules_for key key_rules = elim (find key key_rules) [ none ↦ [] | some rules ↦ rules ]

  pub resolve_config_rules :
      Fields Number → List (String × List (Rule Number)) → Fields Number → Fields Number
  resolve_config_rules end key_rules client = end
  resolve_config_rules (field key base values) key_rules client =
      field key (resolve_rules (rules_for key key_rules) client base)
        (resolve_config_rules values key_rules client)
