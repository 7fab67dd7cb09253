-- ===== src/Server/Rules/Tests.antt =====
-- A colour that is another one on a phone from the second version on.
use wardx.Prelude.{ok, ℕ, String, ◌≡◌, refl, some, List, [], ◌∷◌}
use wardx.Prelude.Entries.{find}
use wardx.Prelude.Sample.{sample_js}
use wardx.Prelude.Json.{Json, Fields, str, num, arr, obj, nil, cons, end, field, own}
use wardx.Server.Rules.{
  Rule, is_scalar, known_keys, require_keys, assert_object, only_json, check_operand, is_number,
  is_field, field_of, operator_of, validate_condition, validate_conditions, validate_when,
  validate_rules, rules_of, validate_keys, validate_config_rules, rules_for, resolve_config_rules,
  same_value, compares, value_matches, actual_of, matches, all_match, resolve_rules,
}
use wardx.Server.Rules.First.{IsFirst, resolve_config_rules-IsFirst}

abbrev condition : String → String → Json ℕ → Json ℕ
condition name op value =
    obj (field "field" (str name) (field "op" (str op) (field "value" value end)))

abbrev colour : Fields ℕ
colour = field "colour" (str "red") end

abbrev phones : Json ℕ
phones = obj (
    field "colour"
      (arr (
        cons
          (obj (
            field "when"
              (arr (
                cons (condition "os" "eq" (str "phone"))
                  (cons (condition "attributes.version" "gte" (num 2)) nil)))
              (field "value" (str "blue") end)))
          nil))
      end)

abbrev blue_on_phones : List (String × List (Rule ℕ))
blue_on_phones =
    (
      "colour",
      record {
        conditions =
            record { client_field = "os"; op = "eq"; operand = str "phone" }
            ∷ record { client_field = "attributes.version"; op = "gte"; operand = num 2 }
            ∷ [];
        value = str "blue";
      }
          ∷ [],
    )
    ∷ []

abbrev client : ℕ → Fields ℕ
client version =
    field "os" (str "phone") (field "attributes" (obj (field "version" (num version) end)) end)

validated :
    validate_config_rules sample_js (λ value. "?") colour (some phones) "config" ≡ ok blue_on_phones
unfolding validate_config_rules validate_keys rules_of validate_rules validate_when
    validate_conditions validate_condition assert_object known_keys require_keys field_of is_field
    operator_of check_operand is_scalar is_number only_json
validated = refl

resolved_new :
    resolve_config_rules sample_js colour blue_on_phones (client 3)
    ≡ field "colour" (str "blue") end
unfolding resolve_config_rules resolve_rules all_match matches actual_of value_matches same_value
    compares is_scalar find
resolved_new = refl

resolved_old : resolve_config_rules sample_js colour blue_on_phones (client 1) ≡ colour
unfolding resolve_config_rules resolve_rules all_match matches actual_of value_matches same_value
    compares is_scalar find
resolved_old = refl

resolve_config_rules-IsFirst_example :
    (value : Json ℕ) × (own "colour"
        (resolve_config_rules sample_js colour blue_on_phones (client 3))
      ≡ some value)
    × IsFirst sample_js (rules_for sample_js "colour" blue_on_phones) (client 3) (str "red") value
resolve_config_rules-IsFirst_example =
    resolve_config_rules-IsFirst sample_js "colour" colour blue_on_phones (client 3) (str "red")
      refl
