-- ===== src/Server/Capacity/QueuedGate/Tests.antt =====
-- The queued gate with one place and two waiting places.
use wardx.Prelude.{◌≡◌, refl, true, false, [], ◌∷◌}
use wardx.Server.Capacity.QueuedGate.{
  QueuedGate, create, acquire, release, give_back, serve_next, enqueue, lease, granted, waiting,
  refused, acquired, released, Reach, here, next,
}
use wardx.Server.Capacity.QueuedGate.Fair.{IsFair, Reach-IsFair}

abbrev fresh : QueuedGate
fresh = record {
  limit = 1;
  max_pending = 1;
  active = 0;
  pending = [];
  peak_active = 0;
  peak_pending = 0;
  rejected = 0;
  leases = [];
  issued = 0;
  resolved = [];
}

abbrev taken : QueuedGate
taken = record fresh { active = 1; peak_active = 1; leases = false ∷ [] }

abbrev queued : QueuedGate
queued = record taken { pending = 0 ∷ []; peak_pending = 1; issued = 1 }

abbrev handed_on : QueuedGate
handed_on = record queued { pending = []; leases = true ∷ false ∷ []; resolved = 0 ∷ [] }

third_is_refused : acquire queued ≡ (refused "MCP read overloaded", record queued { rejected = 1 })
unfolding acquire lease enqueue
third_is_refused = refl

to_handed_on : Reach fresh handed_on
unfolding acquire release give_back serve_next enqueue lease
to_handed_on =
    next (next (next here (acquired (granted 0) refl)) (acquired (waiting 0) refl))
      (released 0 refl)

Reach-IsFair_example : IsFair 1 1 handed_on
unfolding create
Reach-IsFair_example = Reach-IsFair 1 1 fresh handed_on refl to_handed_on
