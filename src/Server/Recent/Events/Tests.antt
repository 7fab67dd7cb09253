-- ===== src/Server/Recent/Events/Tests.antt =====
-- A ring of two places that is full.
use wardx.Prelude.{take, ℕ, ◌≡◌, refl, none, some, [], ◌∷◌, arith}
use wardx.Server.Recent.Events.{Row, RecentEvents, push, newest_first, rows_from}
use wardx.Server.Recent.Events.Ring.{IsValid, push-newest}

abbrev row : ℕ → Row ℕ
row ts = record { ts = ts; name = "login"; attrs = none; instance_id = "a"; role = "client" }

abbrev full : RecentEvents ℕ
full = record { max = 2; buf = some (row 3) ∷ some (row 2) ∷ []; next = 1; size = 2 }

full-IsValid : IsValid full
unfolding newest_first rows_from
full-IsValid = record { whole = refl; inside = omega arith; sized = omega arith; stored = refl }

full_newest : newest_first full ≡ row 3 ∷ row 2 ∷ []
unfolding newest_first rows_from
full_newest = refl

push-newest_example :
    IsValid (push (row 4) full)
    × (newest_first (push (row 4) full) ≡ take 2 (row 4 ∷ newest_first full))
push-newest_example = push-newest full (row 4) full-IsValid refl
