-- ===== src/Server/History/Rows.antt =====
-- The rows of packages/server/src/aggregation/history/HistoryBucket.js: what makes one, and how it is
-- checked. A row comes as parsed JSON. No name of a dimension is the index of an array, whose place in
-- an object is another one.
pub mod Dimensions
use Prim.Native.String.{◌++◌ as append}
use wardx.Prelude.{
  ltb, if◌then◌else◌, Result, ok, err, ◌>>=◌, ◌>>◌, guard, ℕ, ◌+◌, min, max, String, Bool, true,
  false, not, Option, none, some, List, [], ◌∷◌, ◌==◌,
}
use wardx.Prelude.Entries.{contains}
use wardx.Prelude.Js.{Js}
use wardx.Prelude.Json.{
  Json, Items, Fields, null, bool, num, str, arr, obj, nil, cons, end, field, own,
}
use wardx.Server.History.Sketch.{Sketch}

-- The fields of every row but `kind`.
pub record Common (N : Type 0) : Type 0 where
  pub name : String
  pub role : String
  pub environment : String
  pub app_version : String
  pub dimensions : Option (Fields N)
  pub os : Option String

pub record Gauge (N : Type 0) : Type 0 where
  pub last_value : N
  pub last_timestamp : N
  pub min : N
  pub max : N
  pub sample_count : ℕ

pub record Histogram (N : Type 0) : Type 0 where
  pub count : ℕ
  pub sum : N
  pub min : N
  pub max : N
  pub buckets : List (N × ℕ)

-- A row's `kind` with the fields that it brings.
pub data Body (N : Type 0) : Type 0 where
  counter : N → Body N
  event : ℕ → Body N
  drop_row : ℕ → Body N
  log_row : String → ℕ → Body N
  gauge : Gauge N → Body N
  histogram : Histogram N → Body N
  distinct : Sketch N → N → Body N

pub record Row (N : Type 0) : Type 0 where
  pub common : Common N
  pub body : Body N

abbrev pub kinds : List String
kinds = "counter" ∷ "event" ∷ "log" ∷ "gauge" ∷ "histogram" ∷ "distinct" ∷ "drop" ∷ []

abbrev pub log_levels : List String
log_levels = "debug" ∷ "info" ∷ "warn" ∷ "error" ∷ []

abbrev pub forbidden_keys : List String
forbidden_keys =
    "attrs" ∷ "exemplar" ∷ "instanceid" ∷ "sessionid" ∷ "subject" ∷ "subjectid" ∷ "subjecthash"
    ∷ "assignmenthash" ∷ []

abbrev pub keys_of : {N : Type 0} → Fields N → List String
keys_of end = []
keys_of (field key _ fields) = key ∷ keys_of fields

module _ (js : Js) where
  open js use {Number, is_finite, at_most, less, minus_infinity, to_count, of_nat, show}

  unfoldable pub non_empty_string : Option (Json Number) → String → Result String
  non_empty_string (some (str s)) label =
      if s == "" then err (append label " must be a non-empty string") else ok s
  non_empty_string _ label = err (append label " must be a non-empty string")

  pub finite_number : Option (Json Number) → String → Result Number
  finite_number (some (num n)) label =
      if is_finite n then ok n else err (append label " must be a finite number")
  finite_number _ label = err (append label " must be a finite number")

  unfoldable pub count_or : String → Option ℕ → Result ℕ
  count_or label none = err (append label " must be an integer >= 0")
  count_or label (some count) = ok count

  unfoldable pub integer_count : Option (Json Number) → String → Result ℕ
  integer_count (some (num n)) label = count_or label (to_count n)
  integer_count _ label = err (append label " must be an integer >= 0")

  unfoldable pub is_dimension : Json Number → Bool
  is_dimension (str s) = true
  is_dimension (bool b) = true
  is_dimension (num n) = is_finite n
  is_dimension _ = false

  unfoldable pub dimension_of : Option (Json Number) → String → String → Result (Json Number)
  dimension_of none key label =
      err (append label (append "." (append key " must be a string, boolean, or finite number")))
  dimension_of (some item) key label =
      if is_dimension item
      then ok item
      else err
          (append label (append "." (append key " must be a string, boolean, or finite number")))

  -- `out[key] = item`; an assignment of a scalar to `__proto__` makes no property.
  abbrev pub set_field : String → Json Number → Fields Number → Fields Number
  set_field key item fields = if key == "__proto__" then fields else field key item fields

  unfoldable pub dimension_fields : List String → Fields Number → String → Result (Fields Number)
  dimension_fields [] fields label = ok end
  dimension_fields (key ∷ keys) fields label = do
    guard (not (key == "")) (append label " key must be a non-empty string")
    guard (not (contains forbidden_keys (js.to_lower_case key)))
        (append label (append "." (append key " is prohibited in history")))
    item ← dimension_of (own key fields) key label
    rest ← dimension_fields keys fields label
    ok (set_field key item rest)

  -- `dimensions(row.dimensions ?? null)`
  unfoldable pub dimensions_of : Option (Json Number) → String → Result (Option (Fields Number))
  dimensions_of none label = ok none
  dimensions_of (some null) label = ok none
  dimensions_of (some (obj fields)) label = do
    out ← dimension_fields (js.sort (keys_of fields)) fields label
    ok (some out)
  dimensions_of _ label = err (append label " must be an object or null")

  unfoldable pub kind_of : Option (Json Number) → String → Result String
  kind_of (some (str kind)) label =
      if contains kinds kind then ok kind else err (append label ".kind is invalid")
  kind_of _ label = err (append label ".kind is invalid")

  unfoldable pub os_of : Option (Json Number) → String → Result (Option String)
  os_of none label = ok none
  os_of (some value) label = do os ← non_empty_string (some value) label; ok (some os)

  unfoldable pub base_row : Fields Number → String → Result (String × Common Number)
  base_row row label = do
    kind ← kind_of (own "kind" row) label
    name ← non_empty_string (own "name" row) (append label ".name")
    role ← non_empty_string (own "role" row) (append label ".role")
    environment ← non_empty_string (own "environment" row) (append label ".environment")
    app_version ← non_empty_string (own "appVersion" row) (append label ".appVersion")
    dimensions ← dimensions_of (own "dimensions" row) (append label ".dimensions")
    os ← os_of (own "os" row) (append label ".os")
    ok (
      kind,
      record {
        name = name;
        role = role;
        environment = environment;
        app_version = app_version;
        dimensions = dimensions;
        os = os;
      },
    )

  pub level_of : Option (Json Number) → String → Result String
  level_of (some (str level)) label =
      if contains log_levels level then ok level else err (append label ".level is invalid")
  level_of _ label = err (append label ".level is invalid")

  pub gauge_of : Fields Number → String → Result (Gauge Number)
  gauge_of row label = do
    last_value ← finite_number (own "lastValue" row) (append label ".lastValue")
    last_timestamp ← finite_number (own "lastTimestamp" row) (append label ".lastTimestamp")
    low ← finite_number (own "min" row) (append label ".min")
    high ← finite_number (own "max" row) (append label ".max")
    samples ← integer_count (own "sampleCount" row) (append label ".sampleCount")
    guard (not (ltb samples 1)) (append label ".sampleCount must be >= 1")
    guard (not (less high low)) (append label ".min must be <= max")
    ok (record {
      last_value = last_value;
      last_timestamp = last_timestamp;
      min = low;
      max = high;
      sample_count = samples;
    })

  -- `[bound, count]` at its place in the array; `label` is that of the array.
  pub pair_of : Json Number → ℕ → String → Number → Result (Number × ℕ)
  pair_of (arr (cons first (cons second nil))) index label previous = do
    let place = append label (append "[" (append (show (of_nat index)) "]"))
    bound ← finite_number (some first) (append place "[0]")
    guard (not (at_most bound previous)) (append label " bounds must be strictly increasing")
    count ← integer_count (some second) (append place "[1]")
    ok (bound, count)
  pair_of _ index label previous =
      err (append label (append "[" (append (show (of_nat index)) "] must be [bound, count]")))

  pub pairs_of : ℕ → Number → Items Number → String → Result (List (Number × ℕ))
  pairs_of index previous nil label = ok []
  pairs_of index previous (cons pair pairs) label = do
    (bound, count) ← pair_of pair index label previous
    rest ← pairs_of (index + 1) bound pairs label
    ok ((bound, count) ∷ rest)

  pub buckets_of : Option (Json Number) → String → Result (List (Number × ℕ))
  buckets_of (some (arr pairs)) label = pairs_of 0 minus_infinity pairs label
  buckets_of _ label = err (append label " must be an array")

  pub histogram_of : Fields Number → String → Result (Histogram Number)
  histogram_of row label = do
    count ← integer_count (own "count" row) (append label ".count")
    sum ← finite_number (own "sum" row) (append label ".sum")
    low ← finite_number (own "min" row) (append label ".min")
    high ← finite_number (own "max" row) (append label ".max")
    guard (not (less high low)) (append label ".min must be <= max")
    buckets ← buckets_of (own "buckets" row) (append label ".buckets")
    ok (record { count = count; sum = sum; min = low; max = high; buckets = buckets })
