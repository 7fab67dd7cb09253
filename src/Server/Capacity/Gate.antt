-- ===== src/Server/Capacity/Gate.antt =====
-- `ConcurrencyGate` of packages/server/src/capacity/ConcurrencyGate.js: beyond the limit a request is
-- turned away. `leases` holds what the closures of `enter` capture.

mod Tests
use wardx.Prelude.{
  ltb, leb, if◌then◌else◌, length, get_elem?, set, Result, ok, err, ◌>>=◌, ◌>>◌, guard, ℕ, ◌+◌, ◌-◌,
  ◌≤◌, ◌≡◌, Bool, true, false, not, Option, none, some, List, [], ◌∷◌, ◌++◌, arith,
}
use wardx.Server.Capacity.Leases.{
  count_open, count_open-append_new, count_open-set, get_elem?-append_open, get_elem?-set_lease,
  get_elem?-set_own,
}

pub record Gate : Type 0 where
  pub limit : ℕ
  pub active : ℕ
  pub rejected : ℕ
  pub peak : ℕ
  pub leases : List Bool

pub create : ℕ → Result Gate
create limit = do
  guard (not (ltb limit 1)) "concurrency limit must be an integer >= 1"
  ok (record { limit = limit; active = 0; rejected = 0; peak = 0; leases = [] })

-- `none` is the `null` of a full gate; a lease is its place in `leases`.
pub enter : Gate → Option ℕ × Gate
enter g = if leb g.limit g.active then (none, record g { rejected = g.rejected + 1 }) else (
  some (length g.leases),
  record g {
    active = g.active + 1;
    peak = if ltb g.peak (g.active + 1) then g.active + 1 else g.peak;
    leases = g.leases ++ false ∷ [];
  },
)

-- The closure of a lease. The last case is no call: nobody holds such a lease.
pub leave : ℕ → Gate → Result Gate
leave lease g = elim (get_elem? g.leases lease) [
  | some true ↦ err "concurrency lease already released"
  | some false ↦ ok (record g { active = g.active - 1; leases = set g.leases lease true })
  | none ↦ err "no such lease"
]

-- One call on the gate.
pub data Step (g : Gate) : Gate → Type 0 where
  entered : {g' : Gate} (o : Option ℕ) → enter g ≡ (o, g') → Step g g'
  gave_back : {g' : Gate} (lease : ℕ) → leave lease g ≡ ok g' → Step g g'

pub data Reach (g : Gate) : Gate → Type 0 where
  here : Reach g g
  next : {h k : Gate} → Reach g h → Step h k → Reach g k

-- `rejected` and the leases say how often `enter` was called.
pub record IsValid (limit : ℕ) (g : Gate) : Type 0 where
  pub same_limit : g.limit ≡ limit
  pub counted : g.active ≡ count_open g.leases
  pub bounded : g.peak ≤ g.limit
  pub below_peak : g.active ≤ g.peak

enter-IsValid :
    (n : ℕ) (g g' : Gate) (o : Option ℕ) → IsValid n g → enter g ≡ (o, g') → IsValid n g'
unfolding enter
enter-IsValid n g g' o v h = ground (arith, count_open-append_new g.leases)

leave-IsValid : (n lease : ℕ) (g g' : Gate) → IsValid n g → leave lease g ≡ ok g' → IsValid n g'
unfolding leave
leave-IsValid n lease g g' v h = ground (arith, count_open-set g.leases lease)

-- Whatever the calls on a new gate: as many requests are active as there are leases not given back,
-- never more than the limit, and the peak lies between the two.
pub Reach-IsValid : (limit : ℕ) (g g' : Gate) → create limit ≡ ok g → Reach g g' → IsValid limit g'
unfolding create
Reach-IsValid limit g g' h here = ground arith
Reach-IsValid limit g g' h (next r (entered o e)) =
    enter-IsValid limit _ _ o (Reach-IsValid limit g _ h r) e
Reach-IsValid limit g g' h (next r (gave_back lease e)) =
    leave-IsValid limit lease _ _ (Reach-IsValid limit g _ h r) e

Step-left :
    (lease : ℕ) {g g' : Gate}
    → Step g g'
    → get_elem? g.leases lease ≡ some true
    → get_elem? g'.leases lease ≡ some true
unfolding enter leave
Step-left lease {g} {g'} (entered o e) h = ground (arith, get_elem?-append_open g.leases lease)
Step-left lease {g} {g'} (gave_back other e) h =
    ground (arith, get_elem?-set_lease g.leases lease other)

Reach-left :
    (lease : ℕ) {g g' : Gate}
    → Reach g g'
    → get_elem? g.leases lease ≡ some true
    → get_elem? g'.leases lease ≡ some true
Reach-left lease here h = h
Reach-left lease (next r st) h = Step-left lease st (Reach-left lease r h)

-- A lease that was given back cannot be given back again, whatever calls come in between.
pub leave_once :
    (lease : ℕ) (g g' g'' : Gate)
    → leave lease g ≡ ok g'
    → Reach g' g''
    → leave lease g'' ≡ err "concurrency lease already released"
unfolding leave
leave_once lease g g' g'' h r = rw (Reach-left lease r given_back, leave)
  where
    given_back : get_elem? g'.leases lease ≡ some true
    given_back = ground (arith, get_elem?-set_own g.leases lease, h)
