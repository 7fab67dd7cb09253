-- ===== src/Server/Persistence/Tests.antt =====
-- A server with two kinds marked, one of which fails to be written at first.
use wardx.Prelude.{◌≡◌, refl, ◌⊎◌, true, some, [], ◌∷◌}
use wardx.Server.Persistence.{
  idle, Coordinator, add, add_all, start_drain, after_write, after_failure, flush, wrote, failed,
  Reach, here, next, flushed, write_done, write_failed,
}
use wardx.Server.Persistence.Drained.{write_all, written, IsDrained, flush-IsDrained}
use wardx.Server.Persistence.Kept.{IsPending, is_saved}
use wardx.Server.Persistence.Written.{Waits, is_written, Reach-IsPending}

abbrev two_kinds : Coordinator
two_kinds = record {
  has_config_path = true;
  dirty_kinds = "history" ∷ "logStats" ∷ [];
  dirty_since = some 50;
  write_healthy = true;
  write_failures = 0;
  timer = true;
  phase = idle;
}

-- The second write fails.
abbrev after_a_failure : Coordinator
after_a_failure = failed (wrote (flush two_kinds))

abbrev failing : Reach two_kinds after_a_failure
failing = next (next (next here flushed) write_done) write_failed

stays_dirty : after_a_failure.dirty_kinds ≡ two_kinds.dirty_kinds
unfolding failed wrote flush start_drain after_write after_failure add_all add
stays_dirty = refl

flush-IsDrained_example :
    (written 2 (flush two_kinds) ≡ two_kinds.dirty_kinds)
    × IsDrained (write_all 2 (flush two_kinds))
flush-IsDrained_example = flush-IsDrained two_kinds "history" ("logStats" ∷ []) refl refl

Reach-IsPending_example :
    (Waits "history" after_a_failure ⊎ (is_written "history" failing ≡ true))
    × (IsPending "history" after_a_failure ⊎ (is_saved "history" failing ≡ true))
Reach-IsPending_example = Reach-IsPending "history" two_kinds after_a_failure failing refl
