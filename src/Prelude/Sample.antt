-- ===== src/Prelude/Sample.antt =====
-- Numbers and texts for tests: the natural numbers, with a million in the place of infinity.
use Prim.Native.Nat.{ℕ, ◌+◌, ◌*◌, ◌/◌, min, max}
use mathlib.Core.Option.{some}
use wardx.Prelude.Js.{Js}
use wardx.Prelude.Tests.{ltb, leb, eqb}

abbrev pub sample_js : Js
sample_js = record {
  Number = ℕ;
  zero = 0;
  infinity = 1000000;
  minus_infinity = 0;
  of_nat = λ a. a;
  plus = λ a b. a + b;
  times = λ a b. a * b;
  divide = λ a b. a / b;
  same = λ a b. eqb a b;
  less = λ a b. ltb a b;
  at_most = λ a b. leb a b;
  is_finite = λ a. ltb a 1000000;
  smaller = λ a b. min a b;
  larger = λ a b. max a b;
  log = λ a. 0;
  round = λ a. a;
  to_count = λ a. some a;
  show = λ a. "number";
  text_length = λ s. 1;
  quoted_bytes = λ s. 3;
  stringify = λ value. "json";
  to_lower_case = λ s. s;
  sort = λ names. names;
}
