-- ===== src/Server/Capacity/QueuedGate.antt =====
-- `QueuedConcurrencyGate` of packages/server/src/capacity/ConcurrencyGate.js: beyond the limit a
-- request waits its turn. A request that waits is known by its ticket: the tickets are numbered as
-- they are given out, and `resolved` lists those whose promise was resolved, in order. `issued` and
-- `resolved` stand for the promises, which the class itself does not store.
pub mod Fair
mod Tests
use wardx.Prelude.{
  ltb, leb, if◌then◌else◌, length, get_elem?, set, Result, ok, err, ◌>>=◌, ◌>>◌, guard, ℕ, ◌+◌, ◌-◌,
  String, ◌≡◌, Bool, true, false, not, none, some, List, [], ◌∷◌, ◌++◌,
}

pub record QueuedGate : Type 0 where
  pub limit : ℕ
  pub max_pending : ℕ
  pub active : ℕ
  pub pending : List ℕ
  pub peak_active : ℕ
  pub peak_pending : ℕ
  pub rejected : ℕ
  pub leases : List Bool
  pub issued : ℕ
  pub resolved : List ℕ

pub create : ℕ → ℕ → Result QueuedGate
create limit max_pending = do
  guard (not (ltb limit 1)) "concurrency limit must be an integer >= 1"
  guard (not (ltb max_pending 1)) "pending concurrency limit must be an integer >= 1"
  ok (record {
    limit = limit;
    max_pending = max_pending;
    active = 0;
    pending = [];
    peak_active = 0;
    peak_pending = 0;
    rejected = 0;
    leases = [];
    issued = 0;
    resolved = [];
  })

-- What `acquire` returns: a promise resolved with a lease, rejected, or waiting under a ticket.
pub data Acquired : Type 0 where
  granted : ℕ → Acquired
  refused : String → Acquired
  waiting : ℕ → Acquired

-- `_lease`; the new lease is the last of `leases`.
pub lease : QueuedGate → QueuedGate
lease g = record g {
  active = g.active + 1;
  peak_active = if ltb g.peak_active (g.active + 1) then g.active + 1 else g.peak_active;
  leases = g.leases ++ false ∷ [];
}

-- `this.pending.push(resolve)` and the peak.
pub enqueue : QueuedGate → QueuedGate
enqueue g = record g {
  pending = g.pending ++ g.issued ∷ [];
  peak_pending =
      if ltb g.peak_pending (length (g.pending ++ g.issued ∷ []))
      then length (g.pending ++ g.issued ∷ [])
      else g.peak_pending;
  issued = g.issued + 1;
}

pub acquire : QueuedGate → Acquired × QueuedGate
acquire g =
    if ltb g.active g.limit
    then (granted (length g.leases), lease g)
    else if leb g.max_pending (length g.pending)
    then (refused "MCP read overloaded", record g { rejected = g.rejected + 1 })
    else (waiting g.issued, enqueue g)

-- `const next = this.pending.shift(); if (next) next(this._lease());`
pub serve_next : List ℕ → QueuedGate → QueuedGate
serve_next [] g = g
serve_next (ticket ∷ rest) g =
    let g' = lease (record g { pending = rest }) in
    record g' { resolved = g'.resolved ++ ticket ∷ [] }

-- `released = true; this.active -= 1;`
pub give_back : ℕ → QueuedGate → QueuedGate
give_back i g = record g { active = g.active - 1; leases = set g.leases i true }

-- The closure of a lease. The last case is no call: nobody holds such a lease.
pub release : ℕ → QueuedGate → Result QueuedGate
release i g = elim (get_elem? g.leases i) [
  | some true ↦ err "concurrency lease already released"
  | some false ↦ ok (serve_next g.pending (give_back i g))
  | none ↦ err "no such lease"
]

pub data Step (g : QueuedGate) : QueuedGate → Type 0 where
  acquired : {g' : QueuedGate} (a : Acquired) → acquire g ≡ (a, g') → Step g g'
  released : {g' : QueuedGate} (i : ℕ) → release i g ≡ ok g' → Step g g'

pub data Reach (g : QueuedGate) : QueuedGate → Type 0 where
  here : Reach g g
  next : {h k : QueuedGate} → Reach g h → Step h k → Reach g k
