-- ===== src/Core/Frame/Split/Limits.antt =====
-- The splitter always returns, and what it returns keeps both limits.
use wardx.Prelude.{leb, Bool-cases, ok, ℕ, ◌≤◌, ◌≡◌, refl, inl, inr, Bool, true, false, arith}
use wardx.Core.Frame.{Kind, counters, Frame, FrameJson, IsJson, row_count, empty_frame, added_bytes}
use wardx.Core.Frame.Split.{State, close_current, has_no_room, refuse_row, add_work, add_row, pause}
use wardx.Core.Frame.Split.Valid.{IsValid, close_current-IsValid, take_row-IsValid}
use wardx.Core.Frame.Split.Steps.{Added, here, next, refused, refused_next, add_row_bytes-Added}

module _ (J : FrameJson) (max_bytes max_rows : ℕ) (frame : Frame J.Row) where
  abbrev St : Type 0
  St = State J max_bytes max_rows frame

  -- Fields that the invariant does not speak of may change.
  pub add_work-IsValid :
      (n : ℕ) (s : St)
      → IsValid J max_bytes max_rows frame s
      → IsValid J max_bytes max_rows frame (add_work J max_bytes max_rows frame n s)
  unfolding add_work
  add_work-IsValid n s v = record {
    parts = v.parts;
    part = v.part;
    jsons = v.jsons;
    measured = v.measured;
    fresh = v.fresh;
  }

  refuse_row-IsValid :
      (k : Kind) (counted : Bool) (s : St)
      → IsValid J max_bytes max_rows frame s
      → IsValid J max_bytes max_rows frame (refuse_row J max_bytes max_rows frame k counted s).1
  unfolding refuse_row
  refuse_row-IsValid k true s v = record {
    parts = v.parts;
    part = v.part;
    jsons = v.jsons;
    measured = v.measured;
    fresh = v.fresh;
  }
  refuse_row-IsValid k false s v = v

  pub pause-IsValid :
      (s : St)
      → IsValid J max_bytes max_rows frame s
      → IsValid J max_bytes max_rows frame (pause J max_bytes max_rows frame s)
  unfolding pause
  pause-IsValid s v = elim (Bool-cases (leb max_bytes s.work_bytes)) [
    | inl due ↦ rw due (record {
      parts = v.parts;
      part = v.part;
      jsons = v.jsons;
      measured = v.measured;
      fresh = v.fresh;
    })
    | inr early ↦ rw early v
  ]

  module _ (json : IsJson J) (room : 1024 ≤ max_bytes) where
    Added-IsValid :
        (k : Kind) (row : J.Row) (counted : Bool) (s : St) (out : Bool × St)
        → IsValid J max_bytes max_rows frame s
        → Added J max_bytes max_rows frame k row counted s out
        → IsValid J max_bytes max_rows frame out.1
    Added-IsValid k row counted s out v (here free e) =
        rw e (take_row-IsValid J max_bytes max_rows frame json room k row s v free)
    Added-IsValid k row counted s out v (next free e) = rw e (
        take_row-IsValid J max_bytes max_rows frame json room k row _
          (close_current-IsValid J max_bytes max_rows frame json room s v) free)
    Added-IsValid k row counted s out v (refused full none_yet e) =
        rw e (refuse_row-IsValid k counted s v)
    Added-IsValid k row counted s out v (refused_next full e) = rw e (
        refuse_row-IsValid k counted _
          (close_current-IsValid J max_bytes max_rows frame json room s v))

    -- `addRow` never throws, and keeps the invariant.
    pub add_row-ok :
        (k : Kind) (row : J.Row) (counted : Bool) (s : St)
        → IsValid J max_bytes max_rows frame s
        → (out : Bool × St) × (add_row J max_bytes max_rows frame k row counted s ≡ ok out)
          × Added J max_bytes max_rows frame k row counted
              (add_work J max_bytes max_rows frame (J.byte_length (J.stringify_row row)) s)
              out
          × IsValid J max_bytes max_rows frame out.1
    unfolding add_row
    add_row-ok k row counted s v =
        let s' = add_work J max_bytes max_rows frame (J.byte_length (J.stringify_row row)) s in
        let v' = add_work-IsValid (J.byte_length (J.stringify_row row)) s v in
        let (out, e, a) =
          add_row_bytes-Added J max_bytes max_rows frame k row counted s' json room v' in
        (out, e, a, Added-IsValid k row counted s' out v' a)

    -- A row for which an empty frame has room is never turned away.
    module _ (some_row : 1 ≤ max_rows) where
      pub fresh_has_room :
          (n : ℕ) (s : St)
          → n ≤ 128
          → row_count s.current ≡ 0
          → IsValid J max_bytes max_rows frame s
          → has_no_room J max_bytes max_rows frame counters n s ≡ false
      unfolding has_no_room added_bytes
      fresh_has_room n s small empty v = ground (arith, v.fresh empty, v.measured)

      pub row_count-close_current :
          (s : St) → row_count (close_current J max_bytes max_rows frame s).current ≡ 0
      unfolding close_current empty_frame row_count
      row_count-close_current s = refl
