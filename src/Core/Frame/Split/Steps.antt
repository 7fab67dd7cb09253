-- ===== src/Core/Frame/Split/Steps.antt =====
-- What one call of `addRow` does: the row goes into the current frame or into the next one, or no
-- frame takes it. None of these throws.
use wardx.Prelude.{ltb, tests, Bool-cases, ok, ℕ, ◌≤◌, ◌≡◌, refl, inl, inr, Bool, true, false}
use wardx.Core.Frame.{Kind, Frame, FrameJson, IsJson, row_count}
use wardx.Core.Frame.Split.{
  State, close_current, try_add_row, take_row, has_no_room, refuse_row, retry_row, add_row_bytes,
}
use wardx.Core.Frame.Split.Valid.{IsValid, finish_current-ok}

module _ (J : FrameJson) (max_bytes max_rows : ℕ) (frame : Frame J.Row) where
  module _ (k : Kind) (row : J.Row) (counted : Bool) (s : State J max_bytes max_rows frame) where
    abbrev row_bytes : ℕ
    row_bytes = J.byte_length (J.stringify_row row)

    abbrev closed : State J max_bytes max_rows frame
    closed = close_current J max_bytes max_rows frame s

    pub data Added (out : Bool × State J max_bytes max_rows frame) : Type 0 where
      here :
          has_no_room J max_bytes max_rows frame k row_bytes s ≡ false
          → out ≡ (true, take_row J max_bytes max_rows frame k row row_bytes s)
          → Added out
      next :
          has_no_room J max_bytes max_rows frame k row_bytes closed ≡ false
          → out ≡ (true, take_row J max_bytes max_rows frame k row row_bytes closed)
          → Added out
      refused :
          has_no_room J max_bytes max_rows frame k row_bytes s ≡ true
          → row_count s.current ≡ 0
          → out ≡ refuse_row J max_bytes max_rows frame k counted s
          → Added out
      refused_next :
          has_no_room J max_bytes max_rows frame k row_bytes closed ≡ true
          → out ≡ refuse_row J max_bytes max_rows frame k counted closed
          → Added out

    retry_row-Added : Added (retry_row J max_bytes max_rows frame k row row_bytes counted closed)
    unfolding retry_row try_add_row
    retry_row-Added =
        elim (Bool-cases (has_no_room J max_bytes max_rows frame k row_bytes closed)) [
          | inl full ↦ refused_next full (rw (full, retry_row))
          | inr free ↦ next free (rw (free, retry_row))
        ]

    pub add_row_bytes-Added :
        IsJson J
        → 1024 ≤ max_bytes
        → IsValid J max_bytes max_rows frame s
        → (out : Bool × State J max_bytes max_rows frame) × (add_row_bytes J max_bytes max_rows
              frame k row row_bytes counted s
            ≡ ok out)
          × Added out
    unfolding add_row_bytes try_add_row
    add_row_bytes-Added json room v =
        elim (Bool-cases (has_no_room J max_bytes max_rows frame k row_bytes s)) [
          | inr free ↦ (_, rw (free, add_row_bytes), here free refl)
          | inl full ↦ elim (Bool-cases (ltb 0 (row_count s.current))) [
            | inr none_yet ↦
                (_, rw (full, add_row_bytes, none_yet), refused full (omega (tests, none_yet)) refl)
            | inl some_rows ↦ (
              _,
              rw (
                full,
                add_row_bytes,
                some_rows,
                finish_current-ok J max_bytes max_rows frame json room s v,
              ),
              retry_row-Added,
            )
          ]
        ]
