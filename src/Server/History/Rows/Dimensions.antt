-- ===== src/Server/History/Rows/Dimensions.antt =====
-- The dimensions of a row that packages/server/src/aggregation/history/HistoryBucket.js accepts.
use Prim.Native.String.{◌++◌ as append}
use wardx.Prelude.{
  Bool-cases, ok, guard, bind-ok, then-ok, ok-injective, String, ◌≡◌, ap, subst, inl, inr, true,
  false, not, Option, none, some, List, [], ◌∷◌, arith, ◌==◌,
}
use wardx.Prelude.Entries.{contains}
use wardx.Prelude.Js.{Js}
use wardx.Prelude.Json.{Json, Fields, null, bool, num, str, arr, obj, end, field, own}
use wardx.Server.History.Rows.{
  Common, forbidden_keys, keys_of, non_empty_string, kind_of, os_of, is_dimension, dimension_of,
  set_field, dimension_fields, dimensions_of, base_row,
}

module _ (js : Js) where
  open js use {Number, is_finite}

  -- No key is empty or one that would tell whom a row is about, and each value is a text, a Boolean or
  -- a finite number.
  abbrev pub AreAllowed : Fields Number → Type 0
  AreAllowed end = Unit {0}
  AreAllowed (field key value fields) =
      ((key == "") ≡ false)
      × (contains forbidden_keys (js.to_lower_case key) ≡ false)
      × (is_dimension js value ≡ true)
      × AreAllowed fields

  abbrev pub AllAllowed : Option (Fields Number) → Type 0
  AllAllowed none = Unit {0}
  AllAllowed (some fields) = AreAllowed fields

  dimension_of-ok :
      (value : Option (Json Number)) (key label : String) (item : Json Number)
      → dimension_of js value key label ≡ ok item
      → (is_dimension js item ≡ true) × (value ≡ some item)
  unfolding dimension_of
  dimension_of-ok none key label item h = absurd (cc h)
  dimension_of-ok (some value) key label item h = elim (Bool-cases (is_dimension js value)) [
    | inl good ↦
        let same : value ≡ item = ok-injective (rw good at h) in
        (subst (λ v. is_dimension js v ≡ true) same good, ap some same)
    | inr bad ↦ absurd (cc (rw bad at h))
  ]

  set_field-AreAllowed :
      (key : String) (item : Json Number) (fields : Fields Number)
      → (key == "") ≡ false
      → contains forbidden_keys (js.to_lower_case key) ≡ false
      → is_dimension js item ≡ true
      → AreAllowed fields
      → AreAllowed (set_field js key item fields)
  set_field-AreAllowed key item fields given kept good allowed =
      elim (Bool-cases (key == "__proto__")) [
        | inl lost ↦ rw lost allowed
        | inr own_key ↦ rw own_key (given, kept, good, allowed)
      ]

  dimension_fields-AreAllowed :
      (keys : List String) (fields : Fields Number) (label : String) (out : Fields Number)
      → dimension_fields js keys fields label ≡ ok out
      → AreAllowed out
  unfolding dimension_fields
  dimension_fields-AreAllowed [] fields label out h = subst AreAllowed (ok-injective h) tt
  dimension_fields-AreAllowed (key ∷ keys) fields label out h =
      let (given, h) = then-ok (guard (not (key == "")) _) _ h in
      let (kept, h) =
        then-ok (guard (not (contains forbidden_keys (js.to_lower_case key))) _) _ h in
      let (item, item_ok, h) = bind-ok (dimension_of js (own key fields) key label) _ h in
      let (rest, rest_ok, h) = bind-ok (dimension_fields js keys fields label) _ h in
      let allowed = dimension_fields-AreAllowed keys fields label rest rest_ok in
      subst AreAllowed (ok-injective h) (
        set_field-AreAllowed key item rest (ground (arith, given)) (ground (arith, kept))
          (dimension_of-ok (own key fields) key label item item_ok).0 allowed)

  dimensions_of-AllAllowed :
      (value : Option (Json Number)) (label : String) (out : Option (Fields Number))
      → dimensions_of js value label ≡ ok out
      → AllAllowed out
  unfolding dimensions_of
  dimensions_of-AllAllowed none label out h = subst AllAllowed (ok-injective h) tt
  dimensions_of-AllAllowed (some null) label out h = subst AllAllowed (ok-injective h) tt
  dimensions_of-AllAllowed (some (obj fields)) label out h =
      let (kept, kept_ok, h) =
        bind-ok (dimension_fields js (js.sort (keys_of fields)) fields label) _ h in
      subst AllAllowed (ok-injective h) (dimension_fields-AreAllowed _ fields label kept kept_ok)
  dimensions_of-AllAllowed (some (bool b)) label out h = absurd (cc h)
  dimensions_of-AllAllowed (some (num n)) label out h = absurd (cc h)
  dimensions_of-AllAllowed (some (str s)) label out h = absurd (cc h)
  dimensions_of-AllAllowed (some (arr items)) label out h = absurd (cc h)

  pub base_row-AllAllowed :
      (row : Fields Number) (label kind : String) (common : Common Number)
      → base_row js row label ≡ ok (kind, common)
      → AllAllowed common.dimensions
  unfolding base_row
  base_row-AllAllowed row label kind common h =
      let (_, _, h) = bind-ok (kind_of js (own "kind" row) label) _ h in
      let (_, _, h) = bind-ok (non_empty_string js (own "name" row) (append label ".name")) _ h in
      let (_, _, h) = bind-ok (non_empty_string js (own "role" row) (append label ".role")) _ h in
      let (_, _, h) =
        bind-ok (non_empty_string js (own "environment" row) (append label ".environment")) _ h in
      let (_, _, h) =
        bind-ok (non_empty_string js (own "appVersion" row) (append label ".appVersion")) _ h in
      let (dimensions, dimensions_ok, h) =
        bind-ok (dimensions_of js (own "dimensions" row) (append label ".dimensions")) _ h in
      let (_, _, h) = bind-ok (os_of js (own "os" row) (append label ".os")) _ h in
      subst AllAllowed (ap (λ p. p.1.dimensions) (ok-injective h)) (
        dimensions_of-AllAllowed (own "dimensions" row) (append label ".dimensions") dimensions
          dimensions_ok)
