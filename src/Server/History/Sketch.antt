-- ===== src/Server/History/Sketch.antt =====
-- packages/server/src/aggregation/HyperLogLog.js: the sketches that clients send. A sketch is parsed
-- JSON, and `buffer` is the `Buffer` of Node.js.
use wardx.Prelude.{
  ltb, leb, eqb, if◌then◌else◌, length, Result, ok, err, ◌>>=◌, ◌>>◌, guard, ℕ, ◌+◌, ◌^◌, String,
  Bool, true, false, ◌&&◌, ◌||◌, Option, some, List, [], ◌∷◌, ◌==◌,
}
use wardx.Prelude.Js.{Js}
use wardx.Prelude.Json.{Json, Fields, num, str, obj, end, field, own}

-- `Buffer.from(text, 'base64')` and `toString('base64')`.
pub record Buffer : Type 0 where
  pub encode : List ℕ → String
  pub decode : String → List ℕ

-- The fields of a sketch that was checked.
pub record Sketch (N : Type 0) : Type 0 where
  pub precision : N
  pub registers : String

abbrev pub body_of : {N : Type 0} → Sketch N → Json N
body_of body =
    obj (field "precision" (num body.precision) (field "registers" (str body.registers) end))

pub check_ranks : List ℕ → Result (Unit {0})
check_ranks [] = ok tt
check_ranks (rank ∷ ranks) = do
  guard (leb rank 56) "HLL register rank must be <= 56"
  check_ranks ranks

pub only_known_keys : {N : Type 0} → Fields N → Bool
only_known_keys end = true
only_known_keys (field key _ fields) =
    ((key == "precision") || (key == "registers")) && only_known_keys fields

pub raise_all : List ℕ → List ℕ → List ℕ
raise_all [] incoming = []
raise_all (m ∷ merged) [] = m ∷ merged
raise_all (m ∷ merged) (i ∷ incoming) = (if ltb m i then i else m) ∷ raise_all merged incoming

module _ (js : Js) (buffer : Buffer) where
  open js use {Number, zero, of_nat, plus, times, divide, same, at_most, log, round}

  pub is_precision : Option (Json Number) → Bool
  is_precision (some (num n)) = same n (of_nat 9)
  is_precision _ = false

  pub decode_registers : Option (Json Number) → Result (List ℕ)
  decode_registers (some (str text)) = do
    let registers = buffer.decode text
    guard (buffer.encode registers == text) "HLL registers must be canonical base64"
    guard (eqb (length registers) 512) "HLL registers must contain exactly 512 bytes"
    check_ranks registers
    ok registers
  decode_registers _ = err "HLL registers must be canonical base64"

  pub decode_hll_body : Json Number → Result (List ℕ)
  decode_hll_body (obj fields) = do
    guard (only_known_keys fields) "HLL sketch contains an unknown key"
    guard (is_precision (own "precision" fields)) "HLL precision must be 9"
    decode_registers (own "registers" fields)
  decode_hll_body _ = err "HLL sketch must be an object"

  pub normalize_hll_body : Json Number → Result (Sketch Number)
  normalize_hll_body body = do
    registers ← decode_hll_body body
    ok (record { precision = of_nat 9; registers = buffer.encode registers })

  pub merge_hll_bodies : Json Number → Json Number → Result (Sketch Number)
  merge_hll_bodies left right = do
    merged ← decode_hll_body left
    incoming ← decode_hll_body right
    ok (record { precision = of_nat 9; registers = buffer.encode (raise_all merged incoming) })

  -- `2 ** -rank`, added up from the first register on.
  pub harmonic_of : Number → List ℕ → Number
  harmonic_of harmonic [] = harmonic
  harmonic_of harmonic (rank ∷ ranks) =
      harmonic_of (plus harmonic (divide (of_nat 1) (of_nat (2 ^ rank)))) ranks

  pub count_zeros : List ℕ → ℕ
  count_zeros [] = 0
  count_zeros (rank ∷ ranks) = if eqb rank 0 then count_zeros ranks + 1 else count_zeros ranks

  -- `1 + 1.079 / 512` and the other decimals are written as quotients.
  pub estimate_hll_body : Json Number → Result Number
  estimate_hll_body body = do
    registers ← decode_hll_body body
    let count = of_nat 512
    let correction = plus (of_nat 1) (divide (divide (of_nat 1079) (of_nat 1000)) count)
    let alpha = divide (divide (of_nat 7213) (of_nat 10000)) correction
    let raw = divide (times (times alpha count) count) (harmonic_of zero registers)
    let zeros = count_zeros registers
    ok (
        round (
          if at_most raw (times (divide (of_nat 25) (of_nat 10)) count) && ltb 0 zeros
          then times count (log (divide count (of_nat zeros)))
          else raw))
