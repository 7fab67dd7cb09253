-- ===== src/Prelude/Js.antt =====
-- What the program uses of JavaScript's own numbers and texts. A number is any value of the type,
-- infinities included.
use Prim.Native.Nat.{ℕ}
use Prim.Native.String.{String}
use mathlib.Core.Bool.{Bool}
use mathlib.Core.List.{List}
use mathlib.Core.Option.{Option}
use wardx.Prelude.Json.{Json}

pub record Js : Type 1 where
  pub Number : Type 0
  pub zero : Number
  pub infinity : Number
  pub minus_infinity : Number
  pub of_nat : ℕ → Number
  pub plus : Number → Number → Number
  pub times : Number → Number → Number
  pub divide : Number → Number → Number
  -- `===`, `<` and `<=`
  pub same : Number → Number → Bool
  pub less : Number → Number → Bool
  pub at_most : Number → Number → Bool
  pub is_finite : Number → Bool
  -- `Math.min`, `Math.max`, `Math.log` and `Math.round`
  pub smaller : Number → Number → Number
  pub larger : Number → Number → Number
  pub log : Number → Number
  pub round : Number → Number
  -- the natural number that it is, where `Number.isInteger(number)` and it is not negative
  pub to_count : Number → Option ℕ
  -- `String(number)`
  pub show : Number → String
  -- the `length` of a text, in UTF-16 code units
  pub text_length : String → ℕ
  -- the bytes of `JSON.stringify(text)` in UTF-8
  pub quoted_bytes : String → ℕ
  -- `JSON.stringify(value)`
  pub stringify : Json Number → String
  pub to_lower_case : String → String
  -- `sort()` of an array of texts
  pub sort : List String → List String
