-- ===== src/Core/Metrics/Dimensions.antt =====
-- packages/core/src/metrics/dimensions.js. An object of dimensions is the list of its properties, in
-- the order of `Object.keys`.
use Prim.Native.String.{◌++◌ as append}
use wardx.Prelude.{
  ltb, if◌then◌else◌, length, Result, ok, ◌>>◌, guard, ℕ, String, Bool, true, false, not, Option,
  none, some, List, [], ◌∷◌, ◌==◌,
}
use wardx.Prelude.Js.{Js}

-- `other` is a value that is no text, number or Boolean, and holds its `String(value)`.
pub data Value (Number : Type 0) : Type 0 where
  text : String → Value Number
  number : Number → Value Number
  flag : Bool → Value Number
  other : String → Value Number

abbrev pub Dims : Type 0 → Type 0
Dims Number = List (String × Value Number)

-- What `validateDimensions` returns.
pub data Checked (Number : Type 0) : Type 0 where
  valid : Option (Dims Number) → Checked Number
  refused : String → Checked Number

module _ (js : Js) where
  open js use {Number, show, text_length, sort}

  -- `String(value)`
  unfoldable pub value_text : Value Number → String
  value_text (text s) = s
  value_text (number n) = show n
  value_text (flag true) = "true"
  value_text (flag false) = "false"
  value_text (other s) = s

  -- `keys[i] + '=' + String(dims[keys[i]])`
  pair_text : String → Dims Number → String
  pair_text key [] = append key "=undefined"
  pair_text key ((k, v) ∷ dims) =
      if k == key then append key (append "=" (value_text v)) else pair_text key dims

  pub names : Dims Number → List String
  names [] = []
  names ((k, v) ∷ dims) = k ∷ names dims

  join_pairs : List String → Dims Number → String
  join_pairs [] dims = ""
  join_pairs (k ∷ ks) dims = append "\n" (append (pair_text k dims) (join_pairs ks dims))

  pub sorted_text : List String → Dims Number → String
  sorted_text [] dims = ""
  sorted_text (k ∷ ks) dims = append (pair_text k dims) (join_pairs ks dims)

  unfoldable pub dim_key : Option (Dims Number) → String
  dim_key none = ""
  dim_key (some []) = ""
  dim_key (some ((k, v) ∷ [])) = append k (append "=" (value_text v))
  dim_key (some (d ∷ e ∷ dims)) = sorted_text (sort (names (d ∷ e ∷ dims))) (d ∷ e ∷ dims)

  abbrev is_scalar : Value Number → Bool
  is_scalar (other s) = false
  is_scalar _ = true

  -- The loop of `validateDimensions`; `all_dims` is the object.
  unfoldable pub validate_values : Dims Number → ℕ → Dims Number → Result (Checked Number)
  validate_values all_dims max_value_length [] = ok (valid (some all_dims))
  validate_values all_dims max_value_length ((k, v) ∷ dims) = do
    guard (is_scalar v) (append "dimension " (append k " must be string, number, or boolean"))
    if ltb max_value_length (text_length (value_text v))
        then ok (refused "maxDimensionValueLength")
        else validate_values all_dims max_value_length dims

  unfoldable pub validate_dimensions : Option (Dims Number) → ℕ → ℕ → Result (Checked Number)
  validate_dimensions none max_keys max_value_length = ok (valid none)
  validate_dimensions (some []) max_keys max_value_length = ok (valid none)
  validate_dimensions (some (d ∷ dims)) max_keys max_value_length =
      if ltb max_keys (length (d ∷ dims))
      then ok (refused "maxDimensionKeys")
      else validate_values (d ∷ dims) max_value_length (d ∷ dims)

unfoldable pub assert_metric_name : String → Result (Unit {0})
assert_metric_name name = guard (not (name == "")) "metric name must be a non-empty string"
