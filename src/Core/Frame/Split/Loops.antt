-- ===== src/Core/Frame/Split/Loops.antt =====
-- The loops of the splitter: every row of a kind is kept in order or counted as dropped.
use wardx.Prelude.{
  leb, Bool-cases, ok, ℕ, suc, ◌+◌, ◌≤◌, ◌≡◌, refl, ap, ◌∙◌, subst, ◌⊎◌, inl, inr, true, false,
  List, [], ◌∷◌, ◌++◌, append-nil, append_assoc, arith,
}
use wardx.Core.Frame.{
  Kind, counters, gauges, histograms, distincts, events, logs, Frame, FrameJson, IsJson, rows_of,
  same_kind,
}
use wardx.Core.Frame.Split.{State, dropped_of, pause, add_rows, add_kinds}
use wardx.Core.Frame.Split.Valid.{IsValid}
use wardx.Core.Frame.Split.Limits.{add_row-ok, pause-IsValid}
use wardx.Core.Frame.Split.Rows.{kept, Keeps, Drops, Added-rows, same_kind_self, extra, extra_count}

-- `ys` is `xs` less `n` of its elements, the order kept.
pub data Thins {ℓ} {A : Type ℓ} : List A → ℕ → List A → Type ℓ where
  done : Thins [] 0 []
  keep : {x : A} {xs ys : List A} {n : ℕ} → Thins xs n ys → Thins (x ∷ xs) n (x ∷ ys)
  lose : {x : A} {xs ys : List A} {n : ℕ} → Thins xs n ys → Thins (x ∷ xs) (suc n) ys

-- The kind `l` is not among `ks`; it is there once.
abbrev pub IsAbsent : Kind → List Kind → Type 0
IsAbsent l [] = Unit
IsAbsent l (k ∷ ks) = (same_kind k l ≡ false) × IsAbsent l ks

abbrev pub IsOnce : Kind → List Kind → Type 0
IsOnce l [] = ⊥
IsOnce l (k ∷ ks) = ((k ≡ l) × IsAbsent l ks) ⊎ ((same_kind k l ≡ false) × IsOnce l ks)

pub all-IsOnce :
    (l : Kind) → IsOnce l (counters ∷ gauges ∷ histograms ∷ distincts ∷ events ∷ logs ∷ [])
all-IsOnce counters = inl (refl, (refl, (refl, (refl, (refl, (refl, tt))))))
all-IsOnce gauges = inr (refl, inl (refl, (refl, (refl, (refl, (refl, tt))))))
all-IsOnce histograms = inr (refl, inr (refl, inl (refl, (refl, (refl, (refl, tt))))))
all-IsOnce distincts = inr (refl, inr (refl, inr (refl, inl (refl, (refl, (refl, tt))))))
all-IsOnce events = inr (refl, inr (refl, inr (refl, inr (refl, inl (refl, (refl, tt))))))
all-IsOnce logs = inr (refl, inr (refl, inr (refl, inr (refl, inr (refl, inl (refl, tt))))))

module _ (J : FrameJson) (max_bytes max_rows : ℕ) (frame : Frame J.Row) where
  abbrev St : Type 0
  St = State J max_bytes max_rows frame

  -- What a loop over `rows`, of kind `k`, does to the rows and to the counts of every kind.
  pub record Moves (k : Kind) (rows : List J.Row) (s s' : St) : Type 0 where
    pub taken : List J.Row
    pub lost : ℕ
    pub thins : Thins rows lost taken
    pub rows_of_kind :
        (l : Kind)
        → kept J max_bytes max_rows frame l s'
          ≡ kept J max_bytes max_rows frame l s ++ extra k l taken
    pub drops_of_kind :
        (l : Kind) → dropped_of l s'.dropped ≡ dropped_of l s.dropped + extra_count k l lost

  extra-append :
      (k l : Kind) (xs ys : List J.Row) → extra k l xs ++ extra k l ys ≡ extra k l (xs ++ ys)
  extra-append k l xs ys = elim (Bool-cases (same_kind k l)) [
    | inl same ↦ rw same
    | inr other ↦ rw other
  ]

  extra_count-add :
      (k l : Kind) (m n : ℕ) → extra_count k l m + extra_count k l n ≡ extra_count k l (m + n)
  extra_count-add k l m n = elim (Bool-cases (same_kind k l)) [
    | inl same ↦ rw same
    | inr other ↦ rw other (omega arith)
  ]

  pub extra-nil : (k l : Kind) → extra {A = J.Row} k l [] ≡ []
  extra-nil k l = elim (Bool-cases (same_kind k l)) [ inl same ↦ rw same | inr other ↦ rw other ]

  Moves-nil : (k : Kind) (s : St) → Moves k [] s s
  Moves-nil k s = record {
    taken = [];
    lost = 0;
    thins = done;
    rows_of_kind = λ l. rw (extra-nil, append-nil);
    drops_of_kind = λ l. ground arith;
  }

  Moves-keep :
      (k : Kind) (row : J.Row) (rows : List J.Row) (s t u : St)
      → Keeps J max_bytes max_rows frame k row s t
      → Moves k rows t u
      → Moves k (row ∷ rows) s u
  Moves-keep k row rows s t u one m = record {
    taken = row ∷ m.taken;
    lost = m.lost;
    thins = keep m.thins;
    rows_of_kind = λ l.
        m.rows_of_kind l
        ∙ ap (λ xs. xs ++ extra k l m.taken) (one.rows l)
        ∙ append_assoc (kept J max_bytes max_rows frame l s) (extra k l (row ∷ []))
            (extra k l m.taken)
        ∙ ap (λ xs. kept J max_bytes max_rows frame l s ++ xs)
            (extra-append k l (row ∷ []) m.taken);
    drops_of_kind = λ l. m.drops_of_kind l ∙ ap (λ n. n + extra_count k l m.lost) (one.drops l);
  }

  Moves-drop :
      (k : Kind) (row : J.Row) (rows : List J.Row) (s t u : St)
      → Drops J max_bytes max_rows frame k s t
      → Moves k rows t u
      → Moves k (row ∷ rows) s u
  Moves-drop k row rows s t u one m = record {
    taken = m.taken;
    lost = suc m.lost;
    thins = lose m.thins;
    rows_of_kind = λ l. m.rows_of_kind l ∙ ap (λ xs. xs ++ extra k l m.taken) (one.rows l);
    drops_of_kind = λ l. omega (
      arith,
      m.drops_of_kind l,
      one.drops l,
      extra_count-add k l 1 m.lost,
      ap (λ n. extra_count k l n) (add_one m.lost),
    );
  }
    where
      add_one : (n : ℕ) → 1 + n ≡ suc n
      add_one n = omega arith

  Moves-pause :
      (k : Kind) (rows : List J.Row) (s u : St)
      → Moves k rows (pause J max_bytes max_rows frame s) u
      → Moves k rows s u
  unfolding pause
  Moves-pause k rows s u m = elim (Bool-cases (leb max_bytes s.work_bytes)) [
    | inl due ↦ record {
      taken = m.taken;
      lost = m.lost;
      thins = m.thins;
      rows_of_kind = λ l. m.rows_of_kind l ∙ ap (λ xs. xs ++ extra k l m.taken) (rw due);
      drops_of_kind = λ l. m.drops_of_kind l ∙ ap (λ n. n + extra_count k l m.lost) (rw due);
    }
    | inr early ↦ rw early at m
  ]

  module _ (json : IsJson J) (room : 1024 ≤ max_bytes) where
    pub add_rows-ok :
        (k : Kind) (rows : List J.Row) (s : St)
        → IsValid J max_bytes max_rows frame s
        → (s' : St) × (add_rows J max_bytes max_rows frame k rows s ≡ ok s')
          × Moves k rows s s'
          × IsValid J max_bytes max_rows frame s'
    unfolding add_rows
    add_rows-ok k [] s v = (s, refl, Moves-nil k s, v)
    add_rows-ok k (row ∷ rows) s v =
        let (out, e, added, v₁) = add_row-ok J max_bytes max_rows frame json room k row true s v in
        let (s', e', m, v') =
          add_rows-ok k rows (pause J max_bytes max_rows frame out.1)
            (pause-IsValid J max_bytes max_rows frame out.1 v₁) in
        let m₁ = Moves-pause k rows out.1 s' m in
        (
          s',
          rw e e',
          elim (Added-rows J max_bytes max_rows frame k row s _ out added) [
            | inl one ↦ Moves-keep k row rows s out.1 s' one m₁
            | inr one ↦ Moves-drop k row rows s out.1 s' one m₁
          ],
          v',
        )

    -- What the loop over `ks` has done for the kind `l`.
    pub record Untouched (l : Kind) (s s' : St) : Type 0 where
      pub rows : kept J max_bytes max_rows frame l s' ≡ kept J max_bytes max_rows frame l s
      pub drops : dropped_of l s'.dropped ≡ dropped_of l s.dropped

    pub record Done (l : Kind) (s s' : St) : Type 0 where
      pub taken : List J.Row
      pub lost : ℕ
      pub thins : Thins (rows_of l frame) lost taken
      pub rows : kept J max_bytes max_rows frame l s' ≡ kept J max_bytes max_rows frame l s ++ taken
      pub drops : dropped_of l s'.dropped ≡ dropped_of l s.dropped + lost

    other_kind :
        (k l : Kind) (rows : List J.Row) (s s' : St)
        → same_kind k l ≡ false
        → Moves k rows s s'
        → Untouched l s s'
    other_kind k l rows s s' other m = record {
      rows = m.rows_of_kind l ∙ (rw other (append-nil _));
      drops = m.drops_of_kind l ∙ (rw other (omega arith));
    }

    own_kind : (k l : Kind) (s s' : St) → k ≡ l → Moves k (rows_of k frame) s s' → Done l s s'
    own_kind k l s s' e m =
        subst (λ (j : Kind). Done j s s') e
          (record {
            taken = m.taken;
            lost = m.lost;
            thins = m.thins;
            rows = m.rows_of_kind k ∙ (rw (same_kind_self k));
            drops = m.drops_of_kind k ∙ (rw (same_kind_self k));
          })

    after_own : (l : Kind) (s t u : St) → Done l s t → Untouched l t u → Done l s u
    after_own l s t u d n = record {
      taken = d.taken;
      lost = d.lost;
      thins = d.thins;
      rows = n.rows ∙ d.rows;
      drops = n.drops ∙ d.drops;
    }

    after_other : (l : Kind) (s t u : St) → Untouched l s t → Done l t u → Done l s u
    after_other l s t u n d = record {
      taken = d.taken;
      lost = d.lost;
      thins = d.thins;
      rows = d.rows ∙ ap (λ xs. xs ++ d.taken) n.rows;
      drops = d.drops ∙ ap (λ m. m + d.lost) n.drops;
    }

    pub record Ran (ks : List Kind) (s s' : St) : Type 0 where
      pub runs : add_kinds J max_bytes max_rows frame ks s ≡ ok s'
      pub valid : IsValid J max_bytes max_rows frame s'
      pub untouched : (l : Kind) → IsAbsent l ks → Untouched l s s'
      pub finished : (l : Kind) → IsOnce l ks → Done l s s'

    -- `IsOnce` is taken apart.
    once_cons :
        (k l : Kind) (ks : List Kind) (s t u : St)
        → Moves k (rows_of k frame) s t
        → Ran ks t u
        → IsOnce l (k ∷ ks)
        → Done l s u
    once_cons k l ks s t u m r (inl (e, absent)) =
        after_own l s t u (own_kind k l s t e m) (r.untouched l absent)
    once_cons k l ks s t u m r (inr (other, once)) =
        after_other l s t u (other_kind k l (rows_of k frame) s t other m) (r.finished l once)

    pub add_kinds-ok :
        (ks : List Kind) (s : St) → IsValid J max_bytes max_rows frame s → (s' : St) × Ran ks s s'
    unfolding add_kinds
    add_kinds-ok [] s v = (
      s,
      record {
        runs = refl;
        valid = v;
        untouched = λ l _. record { rows = refl; drops = refl };
        finished = λ l h. absurd h;
      },
    )
    add_kinds-ok (k ∷ ks) s v =
        let (t, e, m, vt) = add_rows-ok k (rows_of k frame) s v in
        let (u, r) = add_kinds-ok ks t vt in
        (
          u,
          record {
            runs = rw e (r.runs);
            valid = r.valid;
            untouched = λ l h.
                let o = other_kind k l (rows_of k frame) s t h.0 m in
                let n = r.untouched l h.1 in
                record { rows = n.rows ∙ o.rows; drops = n.drops ∙ o.drops };
            finished = λ l h. once_cons k l ks s t u m r h;
          },
        )
