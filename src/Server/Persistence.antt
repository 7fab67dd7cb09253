-- ===== src/Server/Persistence.antt =====
-- packages/server/src/control/PersistenceCoordinator.js: which kinds of data are to be written, and the
-- loop that writes them. The write of a kind is asynchronous, so that other calls come in between; it is
-- a step of its own that succeeds or fails.
pub mod Drained
pub mod Kept
pub mod Schedule
pub mod Written
mod Tests
use Prim.Native.String.{◌++◌ as append}
use wardx.Prelude.{
  if◌then◌else◌, Result, ok, err, ℕ, ◌+◌, ◌-◌, String, ◌≡◌, Bool, true, false, not, ◌&&◌, Option,
  none, some, List, [], ◌∷◌, ◌++◌, ◌==◌,
}
use wardx.Prelude.Entries.{contains}

-- `writing batch left`: `_drain` runs; `batch` are the kinds that it took and `left` those of them that
-- are still to be written, the first of which is under way.
pub data Phase : Type 0 where
  idle : Phase
  writing : List String → List String → Phase

-- `phase` is not idle while `inFlight` is a promise; `timer` says whether one is set.
pub record Coordinator : Type 0 where
  pub has_config_path : Bool
  pub dirty_kinds : List String
  pub dirty_since : Option ℕ
  pub write_healthy : Bool
  pub write_failures : ℕ
  pub timer : Bool
  pub phase : Phase

abbrev pub kinds : List String
kinds = "aggregateWindows" ∷ "experimentStats" ∷ "logStats" ∷ "history" ∷ "sqliteMaintenance" ∷ []

-- `add` of a `Set`.
pub add : String → List String → List String
add kind set_kinds = if contains set_kinds kind then set_kinds else set_kinds ++ kind ∷ []

pub add_all : List String → List String → List String
add_all [] dirty = dirty
add_all (kind ∷ batch) dirty = add_all batch (add kind dirty)

-- `_schedule`
pub schedule : Coordinator → Coordinator
schedule c = record c { timer = true }

abbrev since : ℕ → Option ℕ → Option ℕ
since now none = some now
since now (some before) = some before

pub mark : ℕ → String → Coordinator → Result Coordinator
mark now kind c =
    if not (contains kinds kind)
    then err (append "unknown persistence kind: " kind)
    else if not (kind == "history") && not (kind == "sqliteMaintenance") && not c.has_config_path
    then ok c
    else ok (
        schedule (record c {
          dirty_since = since now c.dirty_since;
          dirty_kinds = add kind c.dirty_kinds;
        }))

-- The head of the loop of `_drain`: it takes a batch, or ends.
abbrev pub take_batch : List String → Coordinator → Coordinator
take_batch [] c = record c { dirty_since = none; write_healthy = true; phase = idle }
take_batch (kind ∷ kinds) c = record c {
  dirty_kinds = [];
  phase = writing (kind ∷ kinds) (kind ∷ kinds);
}

-- `flush`, up to its first `await`.
pub start_drain : Phase → List String → Coordinator → Coordinator
start_drain (writing batch left) dirty c = c
start_drain idle [] c = c
start_drain idle (kind ∷ kinds) c = take_batch (kind ∷ kinds) c

pub flush : Coordinator → Coordinator
flush c = start_drain c.phase c.dirty_kinds (record c { timer = false })

-- The write that is under way succeeded.
pub after_write : Phase → Coordinator → Coordinator
after_write (writing batch (kind ∷ second ∷ more)) c = record c {
  phase = writing batch (second ∷ more);
}
after_write (writing batch _) c = take_batch c.dirty_kinds c
after_write idle c = c

pub wrote : Coordinator → Coordinator
wrote c = after_write c.phase c

-- It failed: the `catch` of `_drain`, whose error ends the loop.
pub after_failure : Phase → Coordinator → Coordinator
after_failure idle c = c
after_failure (writing batch left) c = record c {
  write_healthy = false;
  dirty_kinds = add_all batch c.dirty_kinds;
  write_failures = c.write_failures + 1;
  phase = idle;
}

pub failed : Coordinator → Coordinator
failed c = after_failure c.phase c

-- What `readiness` says of the writes: `healthy` and `lagMs`.
pub write_health : ℕ → Coordinator → Bool × ℕ
write_health now c = (c.write_healthy, lag c.dirty_since)
  where
    lag : Option ℕ → ℕ
    lag none = 0
    lag (some before) = now - before

-- One call or one end of a write; `caught` is the `catch` of the timer's flush.
pub data Step (c : Coordinator) : Coordinator → Type 0 where
  marked : {d : Coordinator} (now : ℕ) (kind : String) → mark now kind c ≡ ok d → Step c d
  flushed : Step c (flush c)
  write_done : Step c (wrote c)
  write_failed : Step c (failed c)
  caught : Step c (schedule c)

pub data Reach (c : Coordinator) : Coordinator → Type 0 where
  here : Reach c c
  next : {d e : Coordinator} → Reach c d → Step d e → Reach c e
