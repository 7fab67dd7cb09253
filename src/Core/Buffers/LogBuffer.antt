-- ===== src/Core/Buffers/LogBuffer.antt =====
-- packages/core/src/buffers/LogBuffer.js and the ranks of packages/core/src/protocol.js: a full
-- buffer gives up its oldest least severe entry for one that is more severe.
pub mod Evict
mod Tests
use Prim.Native.String.{◌++◌ as append}
use wardx.Prelude.{
  ltb, if◌then◌else◌, length, set, Result, ok, err, ◌>>=◌, ◌>>◌, guard, ℕ, zero, suc, ◌≤◌, ◌<◌, max,
  String, ◌≡◌, Bool, true, false, not, Option, none, some, List, [], ◌∷◌, ◌++◌, ◌==◌,
}

-- `LOG_RANK[level]`; `none` is a level that the table has not.
pub log_rank? : String → Option ℕ
log_rank? level =
    if level == "debug"
    then some 0
    else if level == "info"
    then some 1
    else if level == "warn"
    then some 2
    else if level == "error"
    then some 3
    else none

-- `LOG_RANK[level] < victimRank`, which is false where the rank is undefined.
is_below : Option ℕ → ℕ → Bool
is_below none r = false
is_below (some k) r = ltb k r

rank_or : Option ℕ → ℕ → ℕ
rank_or none r = r
rank_or (some k) r = k

module _ {ℓ} (A : Type ℓ) where
  -- `[Date.now(), level, message, attrs ?? null]`
  pub record Log : Type ℓ where
    pub time : ℕ
    pub level : String
    pub message : String
    pub attrs : Option A

  pub record LogBuffer : Type ℓ where
    pub max : ℕ
    pub buf : List Log

  -- The constructor.
  pub create : ℕ → Result LogBuffer
  create max = do
    guard (not (ltb max 1)) "maxBufferedLogs must be >= 1"
    ok (record { max = max; buf = [] })

module _ {ℓ} {A : Type ℓ} where
  -- The loop of `push` over the buffer: `i`, `victimRank` and `victim`.
  scan : List (Log A) → ℕ → ℕ → Option ℕ → Option ℕ
  unfolding is_below rank_or
  scan [] i victim_rank victim = victim
  scan (e ∷ es) i victim_rank victim =
      let rank = log_rank? e.level in
      let below = is_below rank victim_rank in
      scan es (suc i) (if below then rank_or rank victim_rank else victim_rank)
        (if below then some i else victim)

  -- `this.buf[victim] = entry`, if there is a victim.
  replace : List (Log A) → Option ℕ → Log A → List (Log A)
  replace buf none entry = buf
  replace buf (some i) entry = set buf i entry

  -- What follows the check of the level, whose rank is `incoming_rank`.
  store : Log A → ℕ → LogBuffer A → Bool × LogBuffer A
  store entry incoming_rank b =
      if ltb (length b.buf) b.max
      then (true, record b { buf = b.buf ++ entry ∷ [] })
      else (false, record b { buf = replace b.buf (scan b.buf 0 incoming_rank none) entry })

  -- The Boolean is what the method returns: nothing was dropped.
  pub push : ℕ → String → String → Option A → LogBuffer A → Result (Bool × LogBuffer A)
  unfolding store
  push now level message attrs b = elim (log_rank? level) [
    | none ↦ err (append "invalid log level: " level)
    | some incoming_rank ↦ do
      guard (not (message == "")) "log message must be a non-empty string"
      ok (
          store (record { time = now; level = level; message = message; attrs = attrs })
            incoming_rank b)
  ]

  pub swap : LogBuffer A → List (Log A) × LogBuffer A
  swap b = (b.buf, record b { buf = [] })

  -- No entry of known level ranks below `k`.
  abbrev pub NoneBelow : ℕ → List (Log A) → Type 0
  NoneBelow k [] = Unit
  NoneBelow k (e ∷ es) = ((m : ℕ) → log_rank? e.level ≡ some m → k ≤ m) × NoneBelow k es

  -- The entry at index `j` ranks `k`, none ranks below it, and those before it rank above it.
  abbrev pub IsVictim : ℕ → ℕ → List (Log A) → Type 0
  IsVictim k j [] = ⊥
  IsVictim k zero (e ∷ es) = (log_rank? e.level ≡ some k) × NoneBelow k es
  IsVictim k (suc j) (e ∷ es) = ((m : ℕ) → log_rank? e.level ≡ some m → k < m) × IsVictim k j es
