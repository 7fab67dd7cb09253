-- ===== src/Server/Persistence/Kept.antt =====
-- No kind that was marked in packages/server/src/control/PersistenceCoordinator.js is forgotten before
-- it is written.
use wardx.Prelude.{
  Bool-cases, ok, ℕ, String, ◌≡◌, refl, subst, ◌⊎◌, inl, inr, Bool, true, false, ◌&&◌, ◌||◌, List,
  [], ◌∷◌, ◌++◌, arith, ◌==◌, eq_iff,
}
use wardx.Prelude.Entries.{contains}
use wardx.Server.Persistence.{
  Phase, idle, writing, Coordinator, add, add_all, schedule, mark, take_batch, start_drain,
  after_write, after_failure, flush, wrote, failed, Step, marked, flushed, write_done, write_failed,
  caught, Reach, here, next,
}

abbrev pub in_batch : String → Phase → Bool
in_batch kind idle = false
in_batch kind (writing batch left) = contains batch kind

-- It waits for a write, or is in the batch that is being written.
abbrev pub IsPending : String → Coordinator → Type 0
IsPending kind c = (contains c.dirty_kinds kind || in_batch kind c.phase) ≡ true

abbrev last_write : Phase → Bool
last_write idle = false
last_write (writing batch (kind ∷ second ∷ more)) = false
last_write (writing batch _) = true

-- The step ends a batch that holds the kind, the last write of which has succeeded.
abbrev saves : {c d : Coordinator} → String → Step c d → Bool
saves {c} kind write_done = in_batch kind c.phase && last_write c.phase
saves kind _ = false

abbrev pub is_saved : {c d : Coordinator} → String → Reach c d → Bool
is_saved kind here = false
is_saved kind (next r s) = is_saved kind r || saves kind s

contains-append :
    (kind : String) (xs ys : List String)
    → contains (xs ++ ys) kind ≡ (contains xs kind || contains ys kind)
contains-append kind [] ys = refl
contains-append kind (x ∷ xs) ys = ground (arith, contains-append kind xs ys)

contains_same :
    (k kind : String) (xs : List String)
    → contains xs k ≡ true
    → (k == kind) ≡ true
    → contains xs kind ≡ true
contains_same k kind xs h e = subst (λ s. contains xs s ≡ true) ((eq_iff k kind).0 e) h

pub contains-add :
    (kind k : String) (dirty : List String)
    → contains (add k dirty) kind ≡ (contains dirty kind || (k == kind))
unfolding add
contains-add kind k dirty =
    ground (arith, contains-append kind dirty (k ∷ []), contains_same k kind dirty)

pub contains-add_all :
    (kind : String) (batch dirty : List String)
    → contains (add_all batch dirty) kind ≡ (contains batch kind || contains dirty kind)
unfolding add_all
contains-add_all kind [] dirty = refl
contains-add_all kind (k ∷ batch) dirty =
    ground (arith, contains-add_all kind batch (add k dirty), contains-add kind k dirty)

take_batch-IsPending :
    (kind : String) (dirty : List String) (c : Coordinator)
    → contains dirty kind ≡ true
    → IsPending kind (take_batch dirty c)
take_batch-IsPending kind [] c h = absurd (cc h)
take_batch-IsPending kind (k ∷ dirty) c h = h

start_drain-IsPending :
    (kind : String) (p : Phase) (dirty : List String) (c : Coordinator)
    → (contains dirty kind || in_batch kind p) ≡ true
    → c.phase ≡ p
    → c.dirty_kinds ≡ dirty
    → IsPending kind (start_drain p dirty c)
unfolding start_drain
start_drain-IsPending kind (writing batch left) dirty c h e d = rw (e, d) h
start_drain-IsPending kind idle [] c h e d = absurd (cc h)
start_drain-IsPending kind idle (k ∷ dirty) c h e d =
    take_batch-IsPending kind (k ∷ dirty) c (ground (arith, h))

after_write-IsPending :
    (kind : String) (p : Phase) (c : Coordinator)
    → (contains c.dirty_kinds kind || in_batch kind p) ≡ true
    → c.phase ≡ p
    → IsPending kind (after_write p c) ⊎ ((in_batch kind p && last_write p) ≡ true)
unfolding after_write
after_write-IsPending kind idle c h e = inl (rw e h)
after_write-IsPending kind (writing batch (k ∷ second ∷ more)) c h e = inl h
after_write-IsPending kind (writing batch (k ∷ [])) c h e =
    elim (Bool-cases (contains c.dirty_kinds kind)) [
      | inl dirty ↦ inl (take_batch-IsPending kind c.dirty_kinds c dirty)
      | inr clean ↦ inr (ground (arith, h, clean))
    ]
after_write-IsPending kind (writing batch []) c h e =
    elim (Bool-cases (contains c.dirty_kinds kind)) [
      | inl dirty ↦ inl (take_batch-IsPending kind c.dirty_kinds c dirty)
      | inr clean ↦ inr (ground (arith, h, clean))
    ]

after_failure-IsPending :
    (kind : String) (p : Phase) (c : Coordinator)
    → (contains c.dirty_kinds kind || in_batch kind p) ≡ true
    → c.phase ≡ p
    → IsPending kind (after_failure p c)
unfolding after_failure
after_failure-IsPending kind idle c h e = rw e h
after_failure-IsPending kind (writing batch left) c h e =
    ground (arith, h, contains-add_all kind batch c.dirty_kinds)

mark-IsPending :
    (kind k : String) (now : ℕ) (c d : Coordinator)
    → mark now k c ≡ ok d
    → IsPending kind c
    → IsPending kind d
unfolding mark schedule
mark-IsPending kind k now c d h p = ground (arith, h, p, contains-add kind k c.dirty_kinds)

Step-IsPending :
    (kind : String) (c d : Coordinator) (s : Step c d)
    → IsPending kind c
    → IsPending kind d ⊎ (saves kind s ≡ true)
unfolding flush wrote failed schedule
Step-IsPending kind c d (marked now k h) p = inl (mark-IsPending kind k now c d h p)
Step-IsPending kind c d flushed p =
    inl (start_drain-IsPending kind c.phase c.dirty_kinds (record c { timer = false }) p refl refl)
Step-IsPending kind c d write_done p = after_write-IsPending kind c.phase c p refl
Step-IsPending kind c d write_failed p = inl (after_failure-IsPending kind c.phase c p refl)
Step-IsPending kind c d caught p = inl p

-- It still waits after any steps, unless it was saved on the way.
pub Reach-keeps :
    (kind : String) (c d : Coordinator) (r : Reach c d)
    → IsPending kind c
    → IsPending kind d ⊎ (is_saved kind r ≡ true)
Reach-keeps kind c d here p = inl p
Reach-keeps kind c d (next r s) p = elim (Reach-keeps kind c _ r p) [
  | inl pending ↦ elim (Step-IsPending kind _ d s pending) [
    | inl still ↦ inl still
    | inr saved ↦ inr (ground (arith, saved))
  ]
  | inr saved ↦ inr (ground (arith, saved))
]
