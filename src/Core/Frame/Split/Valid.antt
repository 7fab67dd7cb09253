-- ===== src/Core/Frame/Split/Valid.antt =====
-- The invariant of the splitter: no frame passes a limit, and no closing of a frame can fail.
use wardx.Prelude.{
  Option-cases, length, length-append, ok, ℕ, ◌+◌, ◌≤◌, ◌≡◌, refl, ◌∙◌, subst, inl, inr, false,
  List, [], ◌∷◌, ◌++◌, map, map-append, arith,
}
use wardx.Core.Frame.{
  Kind, counters, gauges, histograms, distincts, events, logs, Frame, FrameJson, IsJson,
  empty_frame, row_count, push_row,
}
use wardx.Core.Frame.Split.{State, start, close_current, finish_current, take_row, has_no_room}

row_count-push_row :
    {Row : Type 0} (k : Kind) (row : Row) (f : Frame Row)
    → row_count (push_row k row f) ≡ row_count f + 1
unfolding row_count push_row
row_count-push_row counters row f = omega (arith, length-append {0} f.metrics.counters (row ∷ []))
row_count-push_row gauges row f = omega (arith, length-append {0} f.metrics.gauges (row ∷ []))
row_count-push_row histograms row f =
    omega (arith, length-append {0} f.metrics.histograms (row ∷ []))
row_count-push_row distincts row f = elim (Option-cases f.metrics.distincts) [
  | inl e ↦ rw e (omega arith)
  | inr (rows, e) ↦ rw e (omega (arith, length-append {0} rows (row ∷ [])))
]
row_count-push_row events row f = omega (arith, length-append {0} f.events (row ∷ []))
row_count-push_row logs row f = omega (arith, length-append {0} f.logs (row ∷ []))

stamps-push_row :
    {Row : Type 0} (k : Kind) (row : Row) (f : Frame Row)
    → ((push_row k row f).seq ≡ f.seq)
      × ((push_row k row f).from ≡ f.from)
      × ((push_row k row f).to ≡ f.to)
unfolding push_row
stamps-push_row counters row f = (refl, refl, refl)
stamps-push_row _ row f = (refl, refl, refl)

module _ (J : FrameJson) (max_bytes max_rows : ℕ) (frame : Frame J.Row) where
  -- The `n`th physical frame: within both limits, with the number and the window of its place.
  pub record IsPart (n : ℕ) (f : Frame J.Row) : Type 0 where
    pub bytes : J.byte_length (J.stringify f) ≤ max_bytes
    pub rows : row_count f ≤ max_rows
    pub seq : f.seq ≡ frame.seq + n
    pub from : f.from ≡ frame.from
    pub to : f.to ≡ frame.to

  -- The frames from the `n`th on.
  abbrev pub AreParts : ℕ → List (Frame J.Row) → Type 0
  AreParts n [] = Unit
  AreParts n (f ∷ fs) = IsPart n f × AreParts (n + 1) fs

  AreParts-append :
      (n : ℕ) (fs : List (Frame J.Row)) (f : Frame J.Row)
      → AreParts n fs
      → IsPart (n + length fs) f
      → AreParts n (fs ++ f ∷ [])
  AreParts-append n [] f h p = (subst (λ m. IsPart m f) (omega arith) p, tt)
  AreParts-append n (g ∷ fs) f h p =
      (h.0, AreParts-append (n + 1) fs f h.1 (subst (λ m. IsPart m f) (omega arith) p))

  pub record IsValid (s : State J max_bytes max_rows frame) : Type 0 where
    pub parts : AreParts 0 s.frames
    pub part : IsPart (length s.frames) s.current
    pub jsons : s.jsons ≡ map J.stringify s.frames
    pub measured : s.current_bytes ≡ J.byte_length (J.stringify s.current)
    pub fresh : row_count s.current ≡ 0 → J.byte_length (J.stringify s.current) ≤ 256

  module _ (json : IsJson J) (room : 1024 ≤ max_bytes) where
    empty_frame-IsPart :
        (n seq : ℕ) → seq ≡ frame.seq + n → IsPart n (empty_frame seq frame.from frame.to)
    unfolding empty_frame row_count
    empty_frame-IsPart n seq e = record {
      bytes = omega (arith, json.bytes-empty_frame seq frame.from frame.to);
      rows = omega arith;
      seq = e;
      from = refl;
      to = refl;
    }

    pub start-IsValid : IsValid (start J max_bytes max_rows frame)
    unfolding start
    start-IsValid = record {
      parts = tt;
      part = empty_frame-IsPart 0 frame.seq (omega arith);
      jsons = refl;
      measured = refl;
      fresh = λ _. json.bytes-empty_frame frame.seq frame.from frame.to;
    }

    pub close_current-IsValid :
        (s : State J max_bytes max_rows frame)
        → IsValid s
        → IsValid (close_current J max_bytes max_rows frame s)
    unfolding close_current
    close_current-IsValid s v = record {
      parts =
          AreParts-append 0 s.frames s.current v.parts
            (subst (λ n. IsPart n s.current) (omega arith) v.part);
      part = empty_frame-IsPart (length (s.frames ++ s.current ∷ [])) _ refl;
      jsons = rw (v.jsons, map-append);
      measured = refl;
      fresh = λ _.
          json.bytes-empty_frame (frame.seq + length (s.frames ++ s.current ∷ [])) frame.from
            frame.to;
    }

    -- A frame that is closed never passes the limit.
    pub finish_current-ok :
        (s : State J max_bytes max_rows frame)
        → IsValid s
        → finish_current J max_bytes max_rows frame s
          ≡ ok (close_current J max_bytes max_rows frame s)
    unfolding finish_current
    finish_current-ok s v = ground (arith, v.part.bytes)

    pub take_row-IsValid :
        (k : Kind) (row : J.Row) (s : State J max_bytes max_rows frame)
        → IsValid s
        → has_no_room J max_bytes max_rows frame k (J.byte_length (J.stringify_row row)) s ≡ false
        → IsValid
            (take_row J max_bytes max_rows frame k row (J.byte_length (J.stringify_row row)) s)
    unfolding take_row has_no_room
    take_row-IsValid k row s v h = record {
      parts = v.parts;
      part = record {
        bytes = ground (arith, json.bytes-push_row k row s.current, v.measured);
        rows = ground (arith, row_count-push_row k row s.current);
        seq = stamps.0 ∙ v.part.seq;
        from = stamps.1 ∙ v.part.from;
        to = stamps.2 ∙ v.part.to;
      };
      jsons = v.jsons;
      measured = omega (arith, json.bytes-push_row k row s.current, v.measured);
      fresh = λ e. absurd (omega (arith, row_count-push_row k row s.current));
    }
      where
        stamps :
            ((push_row k row s.current).seq ≡ s.current.seq)
            × ((push_row k row s.current).from ≡ s.current.from)
            × ((push_row k row s.current).to ≡ s.current.to)
        stamps = stamps-push_row k row s.current
