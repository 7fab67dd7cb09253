-- ===== src/Core/Frame/Split/Whole.antt =====
-- `splitToMaxBytes` as a whole.
use wardx.Prelude.{
  ltb, eqb, if◌then◌else◌, Bool-cases, length, length-append, ok, ok-injective, ℕ, ◌+◌, ◌≤◌, ◌≡◌,
  refl, sym, ap, ◌∙◌, subst, inl, inr, Bool, true, false, ◌||◌, List, [], ◌∷◌, ◌++◌, map,
  append-nil, arith,
}
use wardx.Core.Frame.{
  Kind, counters, gauges, histograms, distincts, events, logs, Frame, FrameJson, IsJson, row_count,
  rows_of,
}
use wardx.Core.Frame.Split.{
  State, Dropped, dropped_of, start, close_current, finish_current, add_work, report_drops,
  finish_last, split_to_max_bytes, total,
}
use wardx.Core.Frame.Split.Valid.{
  IsValid, AreParts, start-IsValid, close_current-IsValid, finish_current-ok,
}
use wardx.Core.Frame.Split.Steps.{Added, here, next, refused, refused_next}
use wardx.Core.Frame.Split.Limits.{
  add_row-ok, fresh_has_room, row_count-close_current, add_work-IsValid,
}
use wardx.Core.Frame.Split.Rows.{
  kept, Keeps, take_row-Keeps, kept-close_current, extra, collect, collect-append,
  rows_of-empty_frame,
}
use wardx.Core.Frame.Split.Loops.{Thins, Ran, add_kinds-ok, all-IsOnce, extra-nil}

nil_of_length {ℓ} : {A : Type ℓ} (xs : List A) → length xs ≡ 0 → xs ≡ []
nil_of_length [] h = refl
nil_of_length (x ∷ xs) h = absurd (omega arith)

rows_of-nil : {Row : Type 0} (l : Kind) (f : Frame Row) → row_count f ≡ 0 → rows_of l f ≡ []
unfolding row_count
rows_of-nil counters f h = nil_of_length _ (omega arith)
rows_of-nil _ f h = nil_of_length _ (omega arith)

le→ltb_false : (a b : ℕ) → b ≤ a → ltb a b ≡ false
le→ltb_false a b h = ground arith

Dropped-ext : (d e : Dropped) → ((l : Kind) → dropped_of l d ≡ dropped_of l e) → d ≡ e
Dropped-ext d e h = cc (h counters, h gauges, h histograms, h distincts, h events, h logs)

module _ (J : FrameJson) (max_bytes max_rows : ℕ) (frame : Frame J.Row) where
  abbrev St : Type 0
  St = State J max_bytes max_rows frame

  -- The row that reports the drops, if there are any.
  abbrev pub report : Dropped → List J.Row
  report d =
      if ltb 0 (total d)
      then J.counter_row "wardx.internal.frame_rows_dropped" (total d) ∷ []
      else []

  abbrev drop_row : St → J.Row
  drop_row s = J.counter_row "wardx.internal.frame_rows_dropped" (total s.dropped)

  module _ (json : IsJson J) (room : 1024 ≤ max_bytes) (some_row : 1 ≤ max_rows) where
    report_is_kept :
        (n : ℕ) (s s₁ : St) (out : Bool × St)
        → IsValid J max_bytes max_rows frame s₁
        → ((l : Kind) → kept J max_bytes max_rows frame l s₁ ≡ kept J max_bytes max_rows frame l s)
        → ((l : Kind) → dropped_of l s₁.dropped ≡ dropped_of l s.dropped)
        → Added J max_bytes max_rows frame counters
            (J.counter_row "wardx.internal.frame_rows_dropped" n)
            false
            s₁
            out
        → (out.0 ≡ true)
          × Keeps J max_bytes max_rows frame counters
              (J.counter_row "wardx.internal.frame_rows_dropped" n)
              s
              out.1
    report_is_kept n s s₁ out v rows drops (here free e) = (
      ap (λ (o : Bool × St). o.0) e,
      rw e (take_row-Keeps J max_bytes max_rows frame counters _ _ s s₁ rows drops),
    )
    report_is_kept n s s₁ out v rows drops (next free e) = (
      ap (λ (o : Bool × St). o.0) e,
      rw e (
          take_row-Keeps J max_bytes max_rows frame counters _ _ s _
            (λ l. kept-close_current J max_bytes max_rows frame l s₁ ∙ rows l)
            (λ l. (unfold close_current in drops l))),
    )
    report_is_kept n s s₁ out v rows drops (refused full none_yet e) = cc (
      full,
      fresh_has_room J max_bytes max_rows frame json room some_row _ s₁ (json.bytes-counter_row n)
          none_yet v,
    )
    report_is_kept n s s₁ out v rows drops (refused_next full e) = cc (
      full,
      fresh_has_room J max_bytes max_rows frame json room some_row _
          (close_current J max_bytes max_rows frame s₁) (json.bytes-counter_row n)
          (row_count-close_current J max_bytes max_rows frame json room some_row s₁)
          (close_current-IsValid J max_bytes max_rows frame json room s₁ v),
    )

    record Reported (s s' : St) : Type 0 where
      runs : report_drops J max_bytes max_rows frame s ≡ ok s'
      valid : IsValid J max_bytes max_rows frame s'
      rows :
          (l : Kind)
          → kept J max_bytes max_rows frame l s'
            ≡ kept J max_bytes max_rows frame l s ++ extra counters l (report s.dropped)
      drops : (l : Kind) → dropped_of l s'.dropped ≡ dropped_of l s.dropped

    report_drops-ok : (s : St) → IsValid J max_bytes max_rows frame s → (s' : St) × Reported s s'
    unfolding report_drops add_work
    report_drops-ok s v = elim (Bool-cases (ltb 0 (total s.dropped))) [
      | inr none_lost ↦ (
        s,
        record {
          runs = rw none_lost;
          valid = v;
          rows = λ l. rw (none_lost, extra-nil J max_bytes max_rows frame, append-nil);
          drops = λ l. refl;
        },
      )
      | inl lost ↦
          let (out, e, added, v') =
            add_row-ok J max_bytes max_rows frame json room counters (drop_row s) false s v in
          let (done, one) =
            report_is_kept (total s.dropped) s
              (add_work J max_bytes max_rows frame (J.byte_length (J.stringify_row (drop_row s))) s)
              out
              (add_work-IsValid J max_bytes max_rows frame
                (J.byte_length (J.stringify_row (drop_row s))) s v)
              (λ l. refl) (λ l. refl) added in
          (
            out.1,
            record {
              runs = rw (lost, e, done);
              valid = v';
              rows = λ l. rw lost (one.rows l);
              drops = one.drops;
            },
          )
    ]

    record Finished (s s' : St) : Type 0 where
      runs : finish_last J max_bytes max_rows frame s ≡ ok s'
      parts : AreParts J max_bytes max_rows frame 0 s'.frames
      jsons : s'.jsons ≡ map J.stringify s'.frames
      some_frame : 1 ≤ length s'.frames
      rows : (l : Kind) → collect l s'.frames ≡ kept J max_bytes max_rows frame l s
      drops : (l : Kind) → dropped_of l s'.dropped ≡ dropped_of l s.dropped

    -- the current frame is closed
    closing :
        (s : St)
        → IsValid J max_bytes max_rows frame s
        → finish_last J max_bytes max_rows frame s ≡ finish_current J max_bytes max_rows frame s
        → Finished s (close_current J max_bytes max_rows frame s)
    unfolding close_current
    closing s v e = record {
      runs = e ∙ finish_current-ok J max_bytes max_rows frame json room s v;
      parts = (close_current-IsValid J max_bytes max_rows frame json room s v).parts;
      jsons = (close_current-IsValid J max_bytes max_rows frame json room s v).jsons;
      some_frame = omega (arith, length-append s.frames (s.current ∷ []));
      rows = λ l. simp (collect-append, append-nil);
      drops = λ l. refl;
    }

    finish_last-ok : (s : St) → IsValid J max_bytes max_rows frame s → (s' : St) × Finished s s'
    unfolding finish_last
    finish_last-ok s v =
        elim (Bool-cases (eqb (length s.frames) 0 || ltb 0 (row_count s.current))) [
          | inl more ↦ (close_current J max_bytes max_rows frame s, closing s v (rw more))
          | inr enough ↦ (
            s,
            record {
              runs = rw enough;
              parts = v.parts;
              jsons = v.jsons;
              some_frame = ground (arith, enough);
              rows = λ l. rw (rows_of-nil l s.current (ground (arith, enough)), append-nil);
              drops = λ l. refl;
            },
          )
        ]

    -- The splitter does not throw, and what it returns holds these.
    record Whole (out : St) : Type 0 where
      runs : split_to_max_bytes J max_bytes max_rows frame ≡ ok out
      parts : AreParts J max_bytes max_rows frame 0 out.frames
      jsons : out.jsons ≡ map J.stringify out.frames
      some_frame : 1 ≤ length out.frames
      thins :
          (l : Kind)
          → (taken : List J.Row) × Thins (rows_of l frame) (dropped_of l out.dropped) taken
            × (collect l out.frames ≡ taken ++ extra counters l (report out.dropped))

    kept-start :
        (l : Kind) → kept J max_bytes max_rows frame l (start J max_bytes max_rows frame) ≡ []
    unfolding start
    kept-start l = rows_of-empty_frame l frame.seq frame.from frame.to

    dropped_of-start : (l : Kind) → dropped_of l (start J max_bytes max_rows frame).dropped ≡ 0
    unfolding start
    dropped_of-start counters = refl
    dropped_of-start _ = refl

    Whole-of_parts :
        (s t out : St)
        → Ran J max_bytes max_rows frame json room
            (counters ∷ gauges ∷ histograms ∷ distincts ∷ events ∷ logs ∷ [])
            (start J max_bytes max_rows frame)
            s
        → Reported s t
        → Finished t out
        → Whole out
    unfolding split_to_max_bytes
    Whole-of_parts s t out ran rep fin = record {
      runs =
          rw
            (le→ltb_false max_bytes 1024 room, le→ltb_false max_rows 1 some_row, ran.runs, rep.runs)
            fin.runs;
      parts = fin.parts;
      jsons = fin.jsons;
      some_frame = fin.some_frame;
      thins = λ l.
          let d = ran.finished l (all-IsOnce l) in
          (
            d.taken,
            subst (λ n. Thins (rows_of l frame) n d.taken)
                (sym (
                  fin.drops l
                  ∙ rep.drops l
                  ∙ d.drops
                  ∙ ap (λ n. n + d.lost) (dropped_of-start l)
                  ∙ omega arith))
                d.thins,
            fin.rows l
                ∙ rep.rows l
                ∙ ap (λ xs. xs ++ extra counters l (report s.dropped))
                    (d.rows ∙ ap (λ xs. xs ++ d.taken) (kept-start l))
                ∙ ap (λ e. d.taken ++ extra counters l (report e))
                    (sym (Dropped-ext out.dropped s.dropped (λ k. fin.drops k ∙ rep.drops k))),
          );
    }

    whole : (out : St) × Whole out
    whole =
        let (s, ran) =
          add_kinds-ok J max_bytes max_rows frame json room
            (counters ∷ gauges ∷ histograms ∷ distincts ∷ events ∷ logs ∷ [])
            (start J max_bytes max_rows frame)
            (start-IsValid J max_bytes max_rows frame json room) in
        let (t, rep) = report_drops-ok s ran.valid in
        let (out, fin) = finish_last-ok t rep.valid in (out, Whole-of_parts s t out ran rep fin)

    -- With limits of at least 1024 bytes and one row, the splitter returns. It returns at least one
    -- frame; the frames carry the window of the captured frame and consecutive numbers from its own
    -- on, and each keeps both limits; and the texts are those of the frames.
    pub split_limits :
        (out : St) × (split_to_max_bytes J max_bytes max_rows frame ≡ ok out)
        × AreParts J max_bytes max_rows frame 0 out.frames
        × (out.jsons ≡ map J.stringify out.frames)
        × (1 ≤ length out.frames)
    split_limits = let (out, w) = whole in (out, w.runs, w.parts, w.jsons, w.some_frame)

    -- With the same limits, the rows of each kind over the frames that the splitter returns are the
    -- captured rows of that kind in their order, less as many as are counted as dropped; and where any
    -- row was dropped, the counters end with the row that reports how many.
    pub split_rows :
        (out : St) (l : Kind)
        → split_to_max_bytes J max_bytes max_rows frame ≡ ok out
        → (taken : List J.Row) × Thins (rows_of l frame) (dropped_of l out.dropped) taken
          × (collect l out.frames ≡ taken ++ extra counters l (report out.dropped))
    split_rows out l h =
        let (found, w) = whole in
        subst
          (λ (o : St).
            (taken : List J.Row) × Thins (rows_of l frame) (dropped_of l o.dropped) taken
            × (collect l o.frames ≡ taken ++ extra counters l (report o.dropped)))
          (ok-injective (sym w.runs ∙ h)) (w.thins l)
