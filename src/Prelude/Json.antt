-- ===== src/Prelude/Json.antt =====
-- JSON values as the program holds them once they are parsed, over a type of numbers.
use Prim.Native.String.{String}
use mathlib.Core.Bool.{Bool}
use mathlib.Core.Option.{Option, none, some}
use text.Mathlib.Text.{◌==◌}
use wardx.Prelude.Tests.{if◌then◌else◌}

mutual
  pub data Json (N : Type 0) : Type 0 where
    null : Json N
    bool : Bool → Json N
    num : N → Json N
    str : String → Json N
    arr : Items N → Json N
    obj : Fields N → Json N

  pub data Items (N : Type 0) : Type 0 where
    nil : Items N
    cons : Json N → Items N → Items N

  -- The own properties of an object, in the order of its keys.
  pub data Fields (N : Type 0) : Type 0 where
    end : Fields N
    field : String → Json N → Fields N → Fields N

-- An own property; `none` is `undefined`.
abbrev pub own : {N : Type 0} → String → Fields N → Option (Json N)
own key end = none
own key (field k value fields) = if k == key then some value else own key fields
