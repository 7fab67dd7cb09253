-- ===== src/Server/Capacity/QueuedGate/Fair.antt =====
-- The queued gate keeps its limits and serves in order of arrival.
use native.Mathlib.Numerals.{add-one}
use wardx.Prelude.{
  ltb, leb, tests, Bool-cases, Option-cases, length, get_elem?, length-append, ok, ok-injective, ℕ,
  zero, suc, ◌+◌, ◌≤◌, ◌<◌, ◌≡◌, refl, sym, ap, ◌∙◌, subst, ◌⊎◌, inl, inr, Bool, true, false, some,
  List, [], ◌∷◌, ◌++◌, append_assoc, arith,
}
use wardx.Server.Capacity.Leases.{count_open, count_open-append_new, count_open-set}
use wardx.Server.Capacity.QueuedGate.{
  QueuedGate, Acquired, create, lease, enqueue, acquire, serve_next, give_back, release, acquired,
  released, Reach, here, next,
}

-- 0, 1, …, n - 1
abbrev pub tickets : ℕ → List ℕ
tickets zero = []
tickets (suc n) = tickets n ++ n ∷ []

pub record IsFair (limit max_pending : ℕ) (g : QueuedGate) : Type 0 where
  pub same_limit : g.limit ≡ limit
  pub same_max : g.max_pending ≡ max_pending
  pub counted : g.active ≡ count_open g.leases
  pub bounded : g.active ≤ g.limit
  pub peak : (g.active ≤ g.peak_active) × (g.peak_active ≤ g.limit)
  pub waiting_bounded : (length g.pending ≤ g.peak_pending) × (g.peak_pending ≤ g.max_pending)
  -- nobody waits while there is room
  pub busy : (length g.pending ≡ 0) ⊎ (g.active ≡ g.limit)
  -- the tickets are served in the order in which they were given out
  pub in_order : g.resolved ++ g.pending ≡ tickets g.issued

lease-IsFair :
    (n m : ℕ) (g : QueuedGate) → ltb g.active g.limit ≡ true → IsFair n m g → IsFair n m (lease g)
unfolding lease
lease-IsFair n m g free v = record {
  same_limit = v.same_limit;
  same_max = v.same_max;
  counted = omega (arith, count_open-append_new g.leases, v.counted);
  bounded = omega (tests, free);
  peak = ground (arith, v.peak);
  waiting_bounded = v.waiting_bounded;
  busy = ground (arith, v.busy);
  in_order = v.in_order;
}

tickets-add_one : (n : ℕ) → tickets (n + 1) ≡ tickets n ++ n ∷ []
tickets-add_one n = rw add-one

enqueue-IsFair :
    (n m : ℕ) (g : QueuedGate)
    → ltb g.active g.limit ≡ false
    → leb g.max_pending (length g.pending) ≡ false
    → IsFair n m g
    → IsFair n m (enqueue g)
unfolding enqueue
enqueue-IsFair n m g full room v = record {
  same_limit = v.same_limit;
  same_max = v.same_max;
  counted = v.counted;
  bounded = v.bounded;
  peak = v.peak;
  waiting_bounded =
      ground (arith, length-append g.pending (g.issued ∷ []), v.waiting_bounded, room);
  busy = inr (omega (tests, full, v.bounded));
  in_order =
      sym (append_assoc g.resolved g.pending (g.issued ∷ []))
      ∙ ap (λ ts. ts ++ g.issued ∷ []) v.in_order
      ∙ sym (tickets-add_one g.issued);
}

acquire-IsFair :
    (n m : ℕ) (g g' : QueuedGate) (a : Acquired)
    → IsFair n m g
    → acquire g ≡ (a, g')
    → IsFair n m g'
unfolding acquire
acquire-IsFair n m g g' a v h = elim (Bool-cases (ltb g.active g.limit)) [
  | inl free ↦ subst (IsFair n m) (snd-eq (rw free at h)) (lease-IsFair n m g free v)
  | inr full ↦ elim (Bool-cases (leb g.max_pending (length g.pending))) [
    | inr room ↦
        subst (IsFair n m) (snd-eq (rw (full, room) at h)) (enqueue-IsFair n m g full room v)
    | inl crowded ↦ subst (IsFair n m) (snd-eq (rw (full, crowded) at h)) (record {
      same_limit = v.same_limit;
      same_max = v.same_max;
      counted = v.counted;
      bounded = v.bounded;
      peak = v.peak;
      waiting_bounded = v.waiting_bounded;
      busy = v.busy;
      in_order = v.in_order;
    })
  ]
]
  where
    snd-eq :
        {a b : Acquired} {s t : QueuedGate}
        → (◌≡◌ {A = Acquired × QueuedGate} (a, s) (b, t))
        → s ≡ t
    snd-eq p = ap (λ (o : Acquired × QueuedGate). o.1) p

-- what `serve_next` needs of the gate from which a lease was just taken back
record HasRoom (n m : ℕ) (g : QueuedGate) : Type 0 where
  same_limit : g.limit ≡ n
  same_max : g.max_pending ≡ m
  counted : g.active ≡ count_open g.leases
  room : g.active < g.limit
  full_queue : (length g.pending ≡ 0) ⊎ (g.active + 1 ≡ g.limit)
  peak : (g.active ≤ g.peak_active) × (g.peak_active ≤ g.limit)
  waiting_bounded : (length g.pending ≤ g.peak_pending) × (g.peak_pending ≤ g.max_pending)
  in_order : g.resolved ++ g.pending ≡ tickets g.issued

serve_next-IsFair :
    (n m : ℕ) (ts : List ℕ) (g : QueuedGate)
    → g.pending ≡ ts
    → HasRoom n m g
    → IsFair n m (serve_next ts g)
unfolding serve_next
serve_next-IsFair n m [] g e v = record {
  same_limit = v.same_limit;
  same_max = v.same_max;
  counted = v.counted;
  bounded = omega (arith, v.room);
  peak = v.peak;
  waiting_bounded = v.waiting_bounded;
  busy = inl (ap (λ (l : List ℕ). length l) e);
  in_order = v.in_order;
}
serve_next-IsFair n m (t ∷ ts) g e v =
    unfold lease in
    record {
      same_limit = v.same_limit;
      same_max = v.same_max;
      counted = omega (arith, count_open-append_new g.leases, v.counted);
      bounded = omega (arith, v.room);
      peak = ground (arith, v.peak, v.room);
      waiting_bounded =
          (omega (arith, v.waiting_bounded, ap (λ (l : List ℕ). length l) e), v.waiting_bounded.1);
      busy = inr (ground (arith, v.full_queue, ap (λ (l : List ℕ). length l) e));
      in_order =
          append_assoc g.resolved (t ∷ []) ts ∙ ap (λ l. g.resolved ++ l) (sym e) ∙ v.in_order;
    }

give_back-HasRoom :
    (n m i : ℕ) (g : QueuedGate)
    → get_elem? g.leases i ≡ some false
    → IsFair n m g
    → HasRoom n m (give_back i g)
unfolding give_back
give_back-HasRoom n m i g e v = record {
  same_limit = v.same_limit;
  same_max = v.same_max;
  counted = omega (arith, count_open-set g.leases i e, v.counted);
  room = omega (arith, count_open-set g.leases i e, v.counted, v.bounded);
  full_queue = ground (arith, count_open-set g.leases i e, v.counted, v.busy);
  peak = ground (arith, v.peak);
  waiting_bounded = v.waiting_bounded;
  in_order = v.in_order;
}

release-IsFair :
    (n m i : ℕ) (g g' : QueuedGate) → IsFair n m g → release i g ≡ ok g' → IsFair n m g'
unfolding release
release-IsFair n m i g g' v h = elim (Option-cases (get_elem? g.leases i)) [
  | inl none_such ↦ absurd (cc (rw (none_such, release) at h))
  | inr (flag, e) ↦ go flag e
]
  where
    pending-give_back : g.pending ≡ (give_back i g).pending
    pending-give_back = unfold give_back in refl

    go : (flag : Bool) → get_elem? g.leases i ≡ some flag → IsFair n m g'
    go true e = absurd (cc (rw (e, release) at h))
    go false e = subst (IsFair n m) (ok-injective (rw (e, release) at h)) (
        serve_next-IsFair n m g.pending (give_back i g) (sym pending-give_back)
          (give_back-HasRoom n m i g e v))

-- Whatever the calls on a new gate: as many requests are active as there are leases not given back,
-- at most the limit; at most `max_pending` wait, and none while there is room; and the tickets are
-- served in the order in which they were given out, none twice and none left out.
pub Reach-IsFair :
    (limit max_pending : ℕ) (g g' : QueuedGate)
    → create limit max_pending ≡ ok g
    → Reach g g'
    → IsFair limit max_pending g'
unfolding create
Reach-IsFair limit max_pending g g' h here = ground arith
Reach-IsFair limit max_pending g g' h (next r (acquired a e)) =
    acquire-IsFair limit max_pending _ _ a (Reach-IsFair limit max_pending g _ h r) e
Reach-IsFair limit max_pending g g' h (next r (released i e)) =
    release-IsFair limit max_pending i _ _ (Reach-IsFair limit max_pending g _ h r) e
