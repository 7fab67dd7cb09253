-- ===== src/Server/Credentials/Tests.antt =====
-- A registry of one credential.
use wardx.Prelude.{ok, ℕ, ◌≡◌, refl, ◌↔◌, true, [], ◌∷◌}
use wardx.Prelude.Json.{Json, str, arr, bool, obj, nil, cons, end, field}
use wardx.Prelude.Entries.{put}
use wardx.Server.Credentials.{
  Credential, Grant, granted, assert_non_empty_string, assert_boolean, label_of, label_or_unlabeled,
  validate_roles, validate_allowed_roles, validate_record, add_records, create, resolve,
  require_fields, known_fields,
}
use wardx.Server.Credentials.Records.{IsRegistry, Allows, create-IsRegistry, resolve-Allows}

abbrev pub input : Json ℕ
input = obj (
    field "key1"
      (obj (
        field "project" (str "shop") (
          field "label" (str "web") (
            field "allowedRoles" (arr (cons (str "client") nil))
              (field "trustedForDecisions" (bool true) (field "enabled" (bool true) end))))))
      end)

abbrev pub web : Credential
web = record {
  project = "shop";
  label = "web";
  allowed_roles = "client" ∷ [];
  trusted_for_decisions = true;
  enabled = true;
}

abbrev pub web_grant : Grant
web_grant = record {
  project = "shop";
  label = "web";
  role = "client";
  trusted_for_decisions = true;
}

created : create (λ value. "?") input ≡ ok (("key1", web) ∷ [])
unfolding create add_records validate_record require_fields known_fields assert_non_empty_string
    validate_allowed_roles validate_roles assert_boolean label_of label_or_unlabeled put
created = refl

create-IsRegistry_example : IsRegistry (("key1", web) ∷ [])
create-IsRegistry_example = create-IsRegistry (λ value. "?") input (("key1", web) ∷ []) created

resolve-Allows_example :
    (resolve {N = ℕ} (("key1", web) ∷ []) (str "key1") (str "client") ≡ granted web_grant)
    ↔ Allows (("key1", web) ∷ []) "key1" "client" web_grant
resolve-Allows_example = resolve-Allows ℕ (("key1", web) ∷ []) "key1" "client" web_grant
