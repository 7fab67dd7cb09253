-- ===== src/Server/Persistence/Written.antt =====
-- Each kind that was marked in packages/server/src/control/PersistenceCoordinator.js is written itself:
-- no batch that holds it passes it over.
use wardx.Prelude.{
  Bool-cases, ok, ℕ, String, ◌≡◌, refl, ◌⊎◌, inl, inr, Bool, true, false, ◌&&◌, ◌||◌, List, [], ◌∷◌,
  arith, ◌==◌,
}
use wardx.Prelude.Entries.{contains}
use wardx.Server.Persistence.{
  Phase, idle, writing, Coordinator, schedule, mark, take_batch, start_drain, after_write,
  after_failure, flush, wrote, failed, Step, marked, flushed, write_done, write_failed, caught,
  Reach, here, next,
}
use wardx.Server.Persistence.Kept.{
  contains-add, contains-add_all, in_batch, IsPending, is_saved, Reach-keeps,
}

abbrev is_left : String → Phase → Bool
is_left kind idle = false
is_left kind (writing batch left) = contains left kind && contains batch kind

-- It is marked, or is in the batch and still to be written there.
abbrev pub Waits : String → Coordinator → Type 0
Waits kind c = (contains c.dirty_kinds kind || is_left kind c.phase) ≡ true

-- The kind whose write is under way.
abbrev pub writes_now : String → Phase → Bool
writes_now kind (writing batch (k ∷ left)) = k == kind
writes_now kind _ = false

abbrev writes : {c d : Coordinator} → String → Step c d → Bool
writes {c} kind write_done = writes_now kind c.phase
writes kind _ = false

-- A write of the kind itself has succeeded.
abbrev pub is_written : {c d : Coordinator} → String → Reach c d → Bool
is_written kind here = false
is_written kind (next r s) = is_written kind r || writes kind s

take_batch-Waits :
    (kind : String) (dirty : List String) (c : Coordinator)
    → contains dirty kind ≡ true
    → Waits kind (take_batch dirty c)
take_batch-Waits kind [] c h = absurd (cc h)
take_batch-Waits kind (k ∷ dirty) c h = ground (arith, h)

start_drain-Waits :
    (kind : String) (p : Phase) (dirty : List String) (c : Coordinator)
    → (contains dirty kind || is_left kind p) ≡ true
    → c.phase ≡ p
    → c.dirty_kinds ≡ dirty
    → Waits kind (start_drain p dirty c)
unfolding start_drain
start_drain-Waits kind (writing batch left) dirty c h e d = rw (e, d) h
start_drain-Waits kind idle [] c h e d = absurd (cc h)
start_drain-Waits kind idle (k ∷ dirty) c h e d =
    take_batch-Waits kind (k ∷ dirty) c (ground (arith, h))

after_write-Waits :
    (kind : String) (p : Phase) (c : Coordinator)
    → (contains c.dirty_kinds kind || is_left kind p) ≡ true
    → c.phase ≡ p
    → Waits kind (after_write p c) ⊎ (writes_now kind p ≡ true)
unfolding after_write
after_write-Waits kind idle c h e = inl (rw e h)
after_write-Waits kind (writing batch (k ∷ second ∷ more)) c h e = elim (Bool-cases (k == kind)) [
  | inl own ↦ inr own
  | inr other ↦ inl (ground (arith, h, other))
]
after_write-Waits kind (writing batch (k ∷ [])) c h e =
    elim (Bool-cases (contains c.dirty_kinds kind)) [
      | inl dirty ↦ inl (take_batch-Waits kind c.dirty_kinds c dirty)
      | inr clean ↦ inr (ground (arith, h, clean))
    ]
after_write-Waits kind (writing batch []) c h e =
    inl (take_batch-Waits kind c.dirty_kinds c (ground (arith, h)))

after_failure-Waits :
    (kind : String) (p : Phase) (c : Coordinator)
    → (contains c.dirty_kinds kind || is_left kind p) ≡ true
    → c.phase ≡ p
    → Waits kind (after_failure p c)
unfolding after_failure
after_failure-Waits kind idle c h e = rw e h
after_failure-Waits kind (writing batch left) c h e =
    ground (arith, h, contains-add_all kind batch c.dirty_kinds)

mark-phase : (k : String) (now : ℕ) (c d : Coordinator) → mark now k c ≡ ok d → d.phase ≡ c.phase
unfolding mark schedule
mark-phase k now c d h = ground (arith, h)

mark-contains :
    (kind k : String) (now : ℕ) (c d : Coordinator)
    → mark now k c ≡ ok d
    → contains c.dirty_kinds kind ≡ true
    → contains d.dirty_kinds kind ≡ true
unfolding mark schedule
mark-contains kind k now c d h p = ground (arith, h, p, contains-add kind k c.dirty_kinds)

mark-Waits :
    (kind k : String) (now : ℕ) (c d : Coordinator)
    → mark now k c ≡ ok d
    → Waits kind c
    → Waits kind d
mark-Waits kind k now c d h p = elim (Bool-cases (contains c.dirty_kinds kind)) [
  | inl dirty ↦ rw (mark-contains kind k now c d h dirty)
  | inr clean ↦ rw (mark-phase k now c d h) (elim (Bool-cases (contains d.dirty_kinds kind)) [
    | inl dirty ↦ rw dirty
    | inr still ↦ rw still (rw clean at p)
  ])
]

Step-Waits :
    (kind : String) (c d : Coordinator) (s : Step c d)
    → Waits kind c
    → Waits kind d ⊎ (writes kind s ≡ true)
unfolding flush wrote failed schedule
Step-Waits kind c d (marked now k h) p = inl (mark-Waits kind k now c d h p)
Step-Waits kind c d flushed p =
    inl (start_drain-Waits kind c.phase c.dirty_kinds (record c { timer = false }) p refl refl)
Step-Waits kind c d write_done p = after_write-Waits kind c.phase c p refl
Step-Waits kind c d write_failed p = inl (after_failure-Waits kind c.phase c p refl)
Step-Waits kind c d caught p = inl p

Reach-writes :
    (kind : String) (c d : Coordinator) (r : Reach c d)
    → Waits kind c
    → Waits kind d ⊎ (is_written kind r ≡ true)
Reach-writes kind c d here p = inl p
Reach-writes kind c d (next r s) p = elim (Reach-writes kind c _ r p) [
  | inl waits ↦ elim (Step-Waits kind _ d s waits) [
    | inl still ↦ inl still
    | inr written ↦ inr (ground (arith, written))
  ]
  | inr written ↦ inr (ground (arith, written))
]

Waits-IsPending :
    (kind : String) (c : Coordinator) (p : Phase)
    → (contains c.dirty_kinds kind || is_left kind p) ≡ true
    → (contains c.dirty_kinds kind || in_batch kind p) ≡ true
Waits-IsPending kind c idle h = h
Waits-IsPending kind c (writing batch left) h = ground (arith, h)

-- A kind that is marked, or still to be written in the batch under way, is so after any calls and any
-- ends of writes, failures included, unless on the way a write of that kind itself has succeeded. And
-- even then it is marked or in the batch under way, unless a batch with that kind was written to its
-- end.
pub Reach-IsPending :
    (kind : String) (c d : Coordinator) (r : Reach c d)
    → Waits kind c
    → (Waits kind d ⊎ (is_written kind r ≡ true)) × (IsPending kind d ⊎ (is_saved kind r ≡ true))
Reach-IsPending kind c d r p =
    (Reach-writes kind c d r p, Reach-keeps kind c d r (Waits-IsPending kind c c.phase p))
