-- ===== src/Server/History/Series/Private.antt =====
-- What a row that packages/server/src/aggregation/history/HistoryBucket.js accepts can tell of a person.
use wardx.Prelude.{ok, bind-ok, ok-injective, String, ◌≡◌, ap, subst}
use wardx.Prelude.Js.{Js}
use wardx.Prelude.Json.{Json, null, bool, num, str, arr, obj}
use wardx.Server.History.Sketch.{Buffer}
use wardx.Server.History.Rows.{Row, base_row}
use wardx.Server.History.Rows.Dimensions.{AllAllowed, base_row-AllAllowed}
use wardx.Server.History.Series.{kind_body, normalize_historical_row}

module _ (js : Js) (buffer : Buffer) where
  open js use {Number}

  -- A row that is accepted has no dimension with an empty key or with a key that is forbidden in any
  -- case of its letters, and each dimension is a text, a Boolean or a finite number.
  pub normalize_historical_row-AllAllowed :
      (input : Json Number) (label : String) (row : Row Number)
      → normalize_historical_row js buffer input label ≡ ok row
      → AllAllowed js row.common.dimensions
  unfolding normalize_historical_row
  normalize_historical_row-AllAllowed (obj fields) label row h =
      let ((kind, common), base_ok, h) = bind-ok (base_row js fields label) _ h in
      let (body, _, h) = bind-ok (kind_body js buffer kind fields label) _ h in
      subst (λ c. AllAllowed js c.dimensions) (ap (λ r. r.common) (ok-injective h))
        (base_row-AllAllowed js fields label kind common base_ok)
  normalize_historical_row-AllAllowed null label row h = absurd (cc h)
  normalize_historical_row-AllAllowed (bool b) label row h = absurd (cc h)
  normalize_historical_row-AllAllowed (num n) label row h = absurd (cc h)
  normalize_historical_row-AllAllowed (str s) label row h = absurd (cc h)
  normalize_historical_row-AllAllowed (arr items) label row h = absurd (cc h)
