-- ===== src/Server/History/Sample.antt =====
-- Rows and buckets for the tests: an event with one dimension, and two minutes of an hour with it.
use wardx.Prelude.{ℕ, ◌+◌, String, Bool, true, false, none, some, List, [], ◌∷◌}
use wardx.Prelude.Json.{Json, num, str, obj, end, field}
use wardx.Server.History.Sketch.{Buffer}
use wardx.Server.History.Rows.{Row, event}
use wardx.Server.History.Buckets.{minute, Bucket}

abbrev pub sample_buffer : Buffer
sample_buffer = record { encode = λ bytes. "AA=="; decode = λ text. [] }

abbrev pub visit_json : ℕ → Json ℕ
visit_json count = obj (
    field "kind" (str "event") (
      field "name" (str "visit") (
        field "role" (str "client") (
          field "environment" (str "live") (
            field "appVersion" (str "1.0") (
              field "dimensions" (obj (field "page" (str "home") end))
                (field "count" (num count) end)))))))

abbrev pub visit : ℕ → Row ℕ
visit count = record {
  common = record {
    name = "visit";
    role = "client";
    environment = "live";
    app_version = "1.0";
    dimensions = some (field "page" (str "home") end);
    os = none;
  };
  body = event count;
}

abbrev pub before : String → String → Bool
before left right = false

abbrev pub minute_of : ℕ → ℕ → ℕ → Bucket (Json ℕ)
minute_of start count drops = record {
  project = "shop";
  tier = minute;
  from = start;
  to = start + 60000;
  finalized = true;
  drop_count = drops;
  rows = visit_json count ∷ [];
}

abbrev pub minutes : List (Bucket (Json ℕ))
minutes = minute_of 3600000 3 1 ∷ minute_of 3660000 4 2 ∷ []
