-- ===== src/Core/Metrics/HyperLogLog.antt =====
-- packages/core/src/metrics/HyperLogLog.js. The registers are the bytes of the `Uint8Array`. `digest`
-- is `subjectHash64(privacySalt, identifier)`, and `Base64` the two directions of a `Buffer`. The
-- estimate is computed with floats and is left out.
pub mod Ranks
pub mod Merge
mod Tests
use wardx.Prelude.{
  ltb, leb, eqb, if◌then◌else◌, length, Result, ok, ◌>>=◌, ◌>>◌, guard, ℕ, zero, suc, ◌+◌, ◌-◌, ◌*◌,
  ◌/◌, ◌%◌, ◌^◌, Bool, true, false, not, ◌&&◌, List, [], ◌∷◌,
}

abbrev pub precision : ℕ
precision = 9

-- `1 << HLL_PRECISION`
abbrev pub register_count : ℕ
register_count = 512

-- `64 - HLL_PRECISION + 1`
abbrev pub max_rank : ℕ
max_rank = 56

-- The leading zeros of a number of `width` bits; `Math.clz32` at 32.
unfoldable pub clz : ℕ → ℕ → ℕ
clz zero x = 0
clz (suc width) x = if leb (2 ^ width) x then 0 else suc (clz width x)

-- `Number(digest >> 32n) << HLL_PRECISION`, as 32 bits.
abbrev pub remaining_high : ℕ → ℕ
remaining_high digest = digest / 2 ^ 32 * 2 ^ 9 % 2 ^ 32

pub rank_after_index : ℕ → ℕ
rank_after_index digest =
    if not (eqb (remaining_high digest) 0)
    then clz 32 (remaining_high digest) + 1
    else 32 - 9 + clz 32 (digest % 2 ^ 32) + 1

-- `digest >> INDEX_SHIFT`
abbrev pub register_index : ℕ → ℕ
register_index digest = digest / 2 ^ 55

-- `if (rank > registers[index]) registers[index] = rank;`
pub raise : List ℕ → ℕ → ℕ → List ℕ
raise [] index rank = []
raise (r ∷ registers) zero rank = (if ltb r rank then rank else r) ∷ registers
raise (r ∷ registers) (suc index) rank = r ∷ raise registers index rank

pub record HyperLogLog : Type 0 where
  pub registers : List ℕ
  pub dirty : Bool

pub zeros : ℕ → List ℕ
zeros zero = []
zeros (suc n) = 0 ∷ zeros n

pub create : HyperLogLog
create = record { registers = zeros register_count; dirty = false }

-- `add`, on the digest of a non-empty identifier.
pub add : ℕ → HyperLogLog → HyperLogLog
add digest s = record s {
  registers = raise s.registers (register_index digest) (rank_after_index digest);
  dirty = true;
}

-- `reset`
unfoldable pub reset : HyperLogLog → HyperLogLog
reset s = record s { registers = zeros register_count; dirty = false }

-- The test of `assertRegisters` on the ranks.
pub all_ranks : List ℕ → Bool
all_ranks [] = true
all_ranks (r ∷ registers) = not (ltb max_rank r) && all_ranks registers

pub assert_registers : List ℕ → Result (Unit {0})
assert_registers registers = do
  guard (eqb (length registers) register_count) "HLL registers must contain exactly 512 bytes"
  guard (all_ranks registers) "HLL register rank must be <= 56"

-- `if (right[index] > left[index]) left[index] = right[index]`; the lists have one length.
pub merge_loop : List ℕ → List ℕ → List ℕ
merge_loop [] right = []
merge_loop (l ∷ left) [] = l ∷ left
merge_loop (l ∷ left) (r ∷ right) = (if ltb l r then r else l) ∷ merge_loop left right

-- `Buffer.from(bytes).toString('base64')`, `Buffer.from(text, 'base64')` and `===` on texts.
pub record Base64 : Type 1 where
  pub Text : Type 0
  pub encode : List ℕ → Text
  pub decode : Text → List ℕ
  pub same : Text → Text → Bool

-- The body of a sketch in a frame.
pub record Sketch (Text : Type 0) : Type 0 where
  pub precision : ℕ
  pub registers : Text

module _ (base64 : Base64) where
  open base64 use {Text, encode, decode, same}

  pub encode_registers : List ℕ → Result Text
  encode_registers registers = do assert_registers registers; ok (encode registers)

  pub decode_registers : Sketch Text → Result (List ℕ)
  decode_registers body = do
    guard (eqb body.precision precision) "HLL sketch must use precision 9"
    let decoded = decode body.registers
    guard (same (encode decoded) body.registers) "HLL registers must be canonical base64"
    assert_registers decoded
    ok decoded

  pub snapshot : HyperLogLog → Result (Sketch Text)
  snapshot s = do
    registers ← encode_registers s.registers
    ok (record { precision = precision; registers = registers })

  pub merge : Sketch Text → Sketch Text → Result (Sketch Text)
  merge left right = do
    left_registers ← decode_registers left
    right_registers ← decode_registers right
    registers ← encode_registers (merge_loop left_registers right_registers)
    ok (record { precision = precision; registers = registers })
