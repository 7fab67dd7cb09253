-- ===== src/Server/Persistence/Drained.antt =====
-- The loop of `_drain` in packages/server/src/control/PersistenceCoordinator.js ends.
use wardx.Prelude.{
  length, ℕ, zero, suc, String, ◌≡◌, refl, sym, ap, ◌∙◌, subst, true, false, none, List, [], ◌∷◌,
  ◌++◌,
}
use wardx.Server.Persistence.{
  Phase, idle, writing, Coordinator, take_batch, start_drain, after_write, flush, wrote,
}

-- So many writes in a row that succeed.
abbrev pub write_all : ℕ → Coordinator → Coordinator
write_all zero c = c
write_all (suc n) c = write_all n (wrote c)

-- The kind whose write is under way.
abbrev pub under_way : Phase → List String
under_way (writing batch (kind ∷ left)) = kind ∷ []
under_way _ = []

-- The kinds that these writes write, in their order.
abbrev pub written : ℕ → Coordinator → List String
written zero c = []
written (suc n) c = under_way c.phase ++ written n (wrote c)

pub record IsDrained (c : Coordinator) : Type 0 where
  pub phase : c.phase ≡ idle
  pub clean : c.dirty_kinds ≡ []
  pub since : c.dirty_since ≡ none
  pub healthy : c.write_healthy ≡ true

write_all-IsDrained :
    (batch : List String) (kind : String) (left : List String) (c : Coordinator)
    → c.dirty_kinds ≡ []
    → c.phase ≡ writing batch (kind ∷ left)
    → IsDrained (write_all (suc (length left)) c)
unfolding wrote after_write
write_all-IsDrained batch kind [] c d p =
    subst (λ q. IsDrained (after_write q c)) (sym p)
      (subst (λ kinds. IsDrained (take_batch kinds c)) (sym d)
        (record { phase = refl; clean = d; since = refl; healthy = refl }))
write_all-IsDrained batch kind (second ∷ left) c d p =
    subst (λ q. IsDrained (write_all (suc (length left)) (after_write q c))) (sym p)
      (write_all-IsDrained batch second left (record c { phase = writing batch (second ∷ left) }) d
        refl)

written-left :
    (batch : List String) (kind : String) (left : List String) (c : Coordinator)
    → c.phase ≡ writing batch (kind ∷ left)
    → written (suc (length left)) c ≡ kind ∷ left
unfolding wrote after_write
written-left batch kind [] c p = ap (λ q. under_way q ++ []) p
written-left batch kind (second ∷ left) c p =
    ap (λ q. under_way q ++ written (suc (length left)) (after_write q c)) p
    ∙ ap (λ kinds. kind ∷ kinds)
        (written-left batch second left (record c { phase = writing batch (second ∷ left) }) refl)

-- A flush that starts to write drains the kinds that were marked, if no other is marked meanwhile and
-- the writes succeed: as many of them as there are kinds write each kind, in the order of the marks;
-- after them none is marked, the loop has ended, and the writes are healthy.
pub flush-IsDrained :
    (c : Coordinator) (kind : String) (kinds : List String)
    → c.phase ≡ idle
    → c.dirty_kinds ≡ kind ∷ kinds
    → (written (length c.dirty_kinds) (flush c) ≡ c.dirty_kinds)
      × IsDrained (write_all (length c.dirty_kinds) (flush c))
unfolding flush start_drain
flush-IsDrained c kind kinds p d =
    subst
      (λ q.
        (written (length c.dirty_kinds) (start_drain q c.dirty_kinds (record c { timer = false }))
          ≡ c.dirty_kinds)
        × IsDrained (
            write_all (length c.dirty_kinds)
              (start_drain q c.dirty_kinds (record c { timer = false }))))
      (sym p)
      (subst
        (λ ks.
          (written (length ks) (start_drain idle ks (record c { timer = false })) ≡ ks)
          × IsDrained (write_all (length ks) (start_drain idle ks (record c { timer = false }))))
        (sym d)
        (
          written-left (kind ∷ kinds) kind kinds
              (take_batch (kind ∷ kinds) (record c { timer = false })) refl,
          write_all-IsDrained (kind ∷ kinds) kind kinds
              (take_batch (kind ∷ kinds) (record c { timer = false })) refl refl,
        ))
