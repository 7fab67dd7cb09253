-- ===== src/Core/Frame/Split/Rows.antt =====
-- Where the rows go: the rows of one kind, over the closed frames and the current one, and what a
-- call of `addRow` makes of them.
use wardx.Prelude.{
  if◌then◌else◌, ℕ, ◌+◌, ◌≡◌, refl, sym, ap, ◌∙◌, ◌⊎◌, inl, inr, Bool, true, List, [], ◌∷◌, ◌++◌,
  append-nil, append_assoc, arith,
}
use wardx.Core.Frame.{
  Kind, counters, gauges, histograms, distincts, events, logs, Frame, FrameJson, empty_frame,
  rows_of, push_row, same_kind,
}
use wardx.Core.Frame.Split.{
  State, Dropped, dropped_of, count_drop, close_current, take_row, refuse_row, add_work,
}
use wardx.Core.Frame.Split.Steps.{Added, here, next, refused, refused_next}

same_kind→eq : (k l : Kind) → same_kind k l ≡ true → k ≡ l
same_kind→eq k l h = ground arith

pub same_kind_self : (k : Kind) → same_kind k k ≡ true
same_kind_self k = ground arith

-- One row more of kind `k`, none more of another kind.
abbrev pub extra {ℓ} : {A : Type ℓ} → Kind → Kind → List A → List A
extra k l xs = if same_kind k l then xs else []

abbrev pub extra_count : Kind → Kind → ℕ → ℕ
extra_count k l n = if same_kind k l then n else 0

rows_of-push_row :
    {Row : Type 0} (k l : Kind) (row : Row) (f : Frame Row)
    → rows_of l (push_row k row f) ≡ rows_of l f ++ extra k l (row ∷ [])
unfolding push_row
rows_of-push_row counters counters row f = refl
rows_of-push_row gauges gauges row f = refl
rows_of-push_row histograms histograms row f = refl
rows_of-push_row distincts distincts row f = refl
rows_of-push_row events events row f = refl
rows_of-push_row logs logs row f = refl
rows_of-push_row _ _ row f = sym (append-nil _)

dropped_of-count_drop :
    (k l : Kind) (d : Dropped) → dropped_of l (count_drop k d) ≡ dropped_of l d + extra_count k l 1
unfolding count_drop
dropped_of-count_drop counters counters d = refl
dropped_of-count_drop gauges gauges d = refl
dropped_of-count_drop histograms histograms d = refl
dropped_of-count_drop distincts distincts d = refl
dropped_of-count_drop events events d = refl
dropped_of-count_drop logs logs d = refl
dropped_of-count_drop _ _ d = omega arith

module _ {Row : Type 0} where
  -- The rows of one kind in a list of frames, in order.
  abbrev pub collect : Kind → List (Frame Row) → List Row
  collect l [] = []
  collect l (f ∷ fs) = rows_of l f ++ collect l fs

  pub collect-append :
      (l : Kind) (fs gs : List (Frame Row)) → collect l (fs ++ gs) ≡ collect l fs ++ collect l gs
  collect-append l [] gs = refl
  collect-append l (f ∷ fs) gs = simp (collect-append l fs gs, append_assoc)

  pub rows_of-empty_frame :
      (l : Kind) (seq from to : ℕ) → rows_of l (empty_frame {Row = Row} seq from to) ≡ []
  unfolding empty_frame
  rows_of-empty_frame counters seq from to = refl
  rows_of-empty_frame _ seq from to = refl

module _ (J : FrameJson) (max_bytes max_rows : ℕ) (frame : Frame J.Row) where
  abbrev St : Type 0
  St = State J max_bytes max_rows frame

  abbrev pub kept : Kind → St → List J.Row
  kept l s = collect l s.frames ++ rows_of l s.current

  pub kept-close_current :
      (l : Kind) (s : St) → kept l (close_current J max_bytes max_rows frame s) ≡ kept l s
  unfolding close_current
  kept-close_current l s = simp (collect-append, rows_of-empty_frame, append-nil)

  kept-take_row :
      (k l : Kind) (row : J.Row) (n : ℕ) (s : St)
      → kept l (take_row J max_bytes max_rows frame k row n s) ≡ kept l s ++ extra k l (row ∷ [])
  unfolding take_row
  kept-take_row k l row n s = simp (rows_of-push_row, append_assoc)

  -- One row was kept, as the last of its kind.
  pub record Keeps (k : Kind) (row : J.Row) (s s' : St) : Type 0 where
    pub rows : (l : Kind) → kept l s' ≡ kept l s ++ extra k l (row ∷ [])
    pub drops : (l : Kind) → dropped_of l s'.dropped ≡ dropped_of l s.dropped

  -- One row was counted as dropped.
  pub record Drops (k : Kind) (s s' : St) : Type 0 where
    pub rows : (l : Kind) → kept l s' ≡ kept l s
    pub drops : (l : Kind) → dropped_of l s'.dropped ≡ dropped_of l s.dropped + extra_count k l 1

  refuse_row-Drops :
      (k : Kind) (s s₁ : St)
      → ((l : Kind) → kept l s₁ ≡ kept l s)
      → ((l : Kind) → dropped_of l s₁.dropped ≡ dropped_of l s.dropped)
      → Drops k s (refuse_row J max_bytes max_rows frame k true s₁).1
  unfolding refuse_row
  refuse_row-Drops k s s₁ same_rows same_drops = record {
    rows = same_rows;
    drops =
        λ l. dropped_of-count_drop k l s₁.dropped ∙ ap (λ n. n + extra_count k l 1) (same_drops l);
  }

  pub take_row-Keeps :
      (k : Kind) (row : J.Row) (n : ℕ) (s s₁ : St)
      → ((l : Kind) → kept l s₁ ≡ kept l s)
      → ((l : Kind) → dropped_of l s₁.dropped ≡ dropped_of l s.dropped)
      → Keeps k row s (take_row J max_bytes max_rows frame k row n s₁)
  take_row-Keeps k row n s s₁ same_rows same_drops = record {
    rows = λ l. kept-take_row k l row n s₁ ∙ ap (λ xs. xs ++ extra k l (row ∷ [])) (same_rows l);
    drops = λ l. dropped l ∙ same_drops l;
  }
    where
      dropped :
          (l : Kind)
          → dropped_of l (take_row J max_bytes max_rows frame k row n s₁).dropped
            ≡ dropped_of l s₁.dropped
      dropped l = unfold take_row in refl

  -- A counted call of `addRow` that found `Added` keeps its row or counts it.
  pub Added-rows :
      (k : Kind) (row : J.Row) (s : St) (n : ℕ) (out : Bool × St)
      → Added J max_bytes max_rows frame k row true (add_work J max_bytes max_rows frame n s) out
      → Keeps k row s out.1 ⊎ Drops k s out.1
  unfolding add_work
  Added-rows k row s n out (here free e) =
      inl (rw e (take_row-Keeps k row _ s _ (λ l. refl) (λ l. refl)))
  Added-rows k row s n out (next free e) = inl (
      rw e (
        take_row-Keeps k row _ s _ (λ l. kept-close_current l _)
          (λ l. unfold close_current in refl)))
  Added-rows k row s n out (refused full none_yet e) =
      inr (rw e (refuse_row-Drops k s _ (λ l. refl) (λ l. refl)))
  Added-rows k row s n out (refused_next full e) = inr (
      rw e
        (refuse_row-Drops k s _ (λ l. kept-close_current l _) (λ l. unfold close_current in refl)))
