-- ===== src/Server/Capacity/Gate/Tests.antt =====
-- The gate at a limit of one.
use wardx.Prelude.{err, ◌≡◌, refl, true, false, none, some, [], ◌∷◌}
use wardx.Server.Capacity.Gate.{
  Gate, create, enter, leave, entered, gave_back, Reach, here, next, IsValid, Reach-IsValid,
  leave_once,
}

abbrev fresh : Gate
fresh = record { limit = 1; active = 0; rejected = 0; peak = 0; leases = [] }

abbrev taken : Gate
taken = record { limit = 1; active = 1; rejected = 0; peak = 1; leases = false ∷ [] }

abbrev crowded : Gate
crowded = record { limit = 1; active = 1; rejected = 1; peak = 1; leases = false ∷ [] }

abbrev returned : Gate
returned = record { limit = 1; active = 0; rejected = 1; peak = 1; leases = true ∷ [] }

abbrev again : Gate
again = record { limit = 1; active = 1; rejected = 1; peak = 1; leases = true ∷ false ∷ [] }

create_zero : create 0 ≡ err "concurrency limit must be an integer >= 1"
unfolding create
create_zero = refl

second_is_refused : enter taken ≡ (none, crowded)
unfolding enter
second_is_refused = refl

to_again : Reach returned again
unfolding enter
to_again = next here (entered (some 1) refl)

to_returned : Reach fresh returned
unfolding enter leave
to_returned = next (next (next here (entered (some 0) refl)) (entered none refl)) (gave_back 0 refl)

Reach-IsValid_example : IsValid 1 returned
unfolding create
Reach-IsValid_example = Reach-IsValid 1 fresh returned refl to_returned

leave_once_example : leave 0 again ≡ err "concurrency lease already released"
unfolding leave
leave_once_example = leave_once 0 crowded returned again refl to_again
