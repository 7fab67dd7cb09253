-- ===== src/Core/Buffers/EventBuffer/Tests.antt =====
-- The event buffer at concrete calls.
use wardx.Prelude.{take, ok, err, ℕ, String, ◌≡◌, refl, none, List, [], ◌∷◌}
use wardx.Core.Buffers.EventBuffer.{Event, EventBuffer, create, push, push_all, swap, push_all-swap}

abbrev named : String → Event ℕ
named name = record { time = 5; name = name; attrs = none }

abbrev three : List (Event ℕ)
three = named "a" ∷ named "b" ∷ named "c" ∷ []

abbrev empty : EventBuffer ℕ
empty = record { max = 2; buf = [] }

create_zero : create ℕ 0 ≡ err "maxBufferedEvents must be >= 1"
unfolding create
create_zero = refl

push_unnamed : push 5 "" none empty ≡ err "event name must be a non-empty string"
unfolding push
push_unnamed = refl

push_all-swap_example :
    (b' : EventBuffer ℕ) × (push_all three empty ≡ ok (1, b')) × (swap b' ≡ (take 2 three, empty))
unfolding create
push_all-swap_example = push_all-swap 2 three empty refl (refl, (refl, (refl, tt)))
