-- ===== src/Core/Buffers/LogBuffer/Tests.antt =====
-- The log buffer at concrete calls.
use wardx.Prelude.{ok, err, ℕ, ◌≤◌, String, ◌≡◌, refl, false, none, List, [], ◌∷◌, arith}
use wardx.Core.Buffers.LogBuffer.{
  Log, LogBuffer, log_rank?, push, store, scan, replace, is_below, rank_or,
}
use wardx.Core.Buffers.LogBuffer.Evict.{Evicts, push-Evicts, push-length}

abbrev entry : String → Log ℕ
entry level = record { time = 5; level = level; message = "m"; attrs = none }

abbrev full : LogBuffer ℕ
full = record { max = 3; buf = entry "warn" ∷ entry "info" ∷ entry "info" ∷ [] }

-- the first of the two entries of level info goes
push_error :
    push 5 "error" "m" none full
    ≡ ok (false, record full { buf = entry "warn" ∷ entry "error" ∷ entry "info" ∷ [] })
unfolding push store scan replace log_rank? is_below rank_or
push_error = refl

push_unknown : push 5 "fatal" "m" none full ≡ err "invalid log level: fatal"
unfolding push log_rank?
push_unknown = refl

push-Evicts_example :
    (new : List (Log ℕ)) × (push 5 "error" "m" none full ≡ ok (false, record full { buf = new }))
    × Evicts 3 (entry "error") full.buf new
unfolding log_rank?
push-Evicts_example = push-Evicts 5 "error" "m" none full 3 refl refl (omega arith)

push-length_example : (3 ≡ full.max) × (3 ≤ full.max)
push-length_example =
    push-length 5 "error" "m" none full false
      (record full { buf = entry "warn" ∷ entry "error" ∷ entry "info" ∷ [] }) push_error
      (omega arith)
