-- ===== src/Server/History/Series/Tests.antt =====
-- The check of an event with one dimension.
use wardx.Prelude.{ok, ℕ, String, ◌≡◌, refl, some}
use wardx.Prelude.Sample.{sample_js}
use wardx.Prelude.Json.{str, end, field}
use wardx.Server.History.Sample.{sample_buffer, visit, visit_json}
use wardx.Server.History.Rows.{
  non_empty_string, kind_of, os_of, dimensions_of, dimension_fields, dimension_of, is_dimension,
  base_row, integer_count, count_or,
}
use wardx.Server.History.Rows.Dimensions.{AllAllowed}
use wardx.Server.History.Series.{kind_body, normalize_historical_row}
use wardx.Server.History.Series.Private.{normalize_historical_row-AllAllowed}

normalized :
    (label : String) (count : ℕ)
    → normalize_historical_row sample_js sample_buffer (visit_json count) label ≡ ok (visit count)
unfolding normalize_historical_row kind_body base_row kind_of non_empty_string dimensions_of
    dimension_fields dimension_of is_dimension os_of integer_count count_or
normalized label count = refl

normalize_historical_row-AllAllowed_example :
    AllAllowed sample_js (some (field "page" (str "home") end))
normalize_historical_row-AllAllowed_example =
    normalize_historical_row-AllAllowed sample_js sample_buffer (visit_json 3) "row" (visit 3)
      (normalized "row" 3)
