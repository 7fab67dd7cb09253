-- ===== src/Core/Frame/Split.antt =====
-- `_splitToMaxBytesSteps` of packages/core/src/frame/FrameBuilder.js, run to its end as
-- `splitToMaxBytes` does. A `yield` only lets other tasks run, which cannot reach the captured frame:
-- it is counted, with the work that decides on it.
pub mod Valid
pub mod Steps
pub mod Limits
pub mod Rows
pub mod Loops
pub mod Whole
mod Tests
use wardx.Prelude.{
  ltb, leb, eqb, if◌then◌else◌, length, drop, Result, ok, err, ◌>>=◌, ◌>>◌, guard, ℕ, ◌+◌, Bool,
  true, false, not, ◌||◌, Option, none, some, List, [], ◌∷◌, ◌++◌,
}
use wardx.Core.Frame.{
  Kind, counters, gauges, histograms, distincts, events, logs, Frame, FrameJson, empty_frame,
  rows_of, row_count, push_row, added_bytes,
}

-- `dropped`
pub record Dropped : Type 0 where
  pub counters : ℕ
  pub gauges : ℕ
  pub histograms : ℕ
  pub distincts : ℕ
  pub events : ℕ
  pub logs : ℕ

abbrev pub dropped_of : Kind → Dropped → ℕ
dropped_of counters d = d.counters
dropped_of gauges d = d.gauges
dropped_of histograms d = d.histograms
dropped_of distincts d = d.distincts
dropped_of events d = d.events
dropped_of logs d = d.logs

-- `dropped[kind] += 1`
pub count_drop : Kind → Dropped → Dropped
count_drop counters d = record d { counters = d.counters + 1 }
count_drop gauges d = record d { gauges = d.gauges + 1 }
count_drop histograms d = record d { histograms = d.histograms + 1 }
count_drop distincts d = record d { distincts = d.distincts + 1 }
count_drop events d = record d { events = d.events + 1 }
count_drop logs d = record d { logs = d.logs + 1 }

abbrev pub no_drops : Dropped
no_drops = record { counters = 0; gauges = 0; histograms = 0; distincts = 0; events = 0; logs = 0 }

-- `droppedRows`
pub total : Dropped → ℕ
total d = d.counters + d.gauges + d.histograms + d.distincts + d.events + d.logs

module _ (J : FrameJson) (max_frame_bytes max_frame_rows : ℕ) (frame : Frame J.Row) where
  -- The variables of the generator, and how often it has yielded.
  pub record State : Type 0 where
    pub frames : List (Frame J.Row)
    pub jsons : List J.Text
    pub dropped : Dropped
    pub current : Frame J.Row
    pub current_bytes : ℕ
    pub work_bytes : ℕ
    pub yields : ℕ

  abbrev pub measure : Frame J.Row → ℕ
  measure f = J.byte_length (J.stringify f)

  pub start : State
  start = record {
    frames = [];
    jsons = [];
    dropped = no_drops;
    current = empty_frame frame.seq frame.from frame.to;
    current_bytes = measure (empty_frame frame.seq frame.from frame.to);
    work_bytes = 0;
    yields = 0;
  }

  -- The state once `current` is pushed: the next frame has the next number.
  pub close_current : State → State
  close_current s =
      let frames = s.frames ++ s.current ∷ [] in
      let next = empty_frame (frame.seq + length frames) frame.from frame.to in
      record s {
        frames = frames;
        jsons = s.jsons ++ J.stringify s.current ∷ [];
        work_bytes = s.work_bytes + measure s.current;
        current = next;
        current_bytes = measure next;
      }

  pub finish_current : State → Result State
  finish_current s =
      if ltb max_frame_bytes (measure s.current)
      then err "frame splitter produced an oversized frame"
      else ok (close_current s)

  -- The end of `tryAddRow`: the row goes into the current frame.
  pub take_row : Kind → J.Row → ℕ → State → State
  take_row k row row_bytes s = record s {
    current = push_row k row s.current;
    current_bytes = s.current_bytes + added_bytes k row_bytes s.current;
  }

  -- The test of `tryAddRow`, for a row that it turns away.
  pub has_no_room : Kind → ℕ → State → Bool
  has_no_room k row_bytes s =
      ltb max_frame_bytes (s.current_bytes + added_bytes k row_bytes s.current)
      || leb max_frame_rows (row_count s.current)

  -- `tryAddRow`; `none` is its `false`.
  pub try_add_row : Kind → J.Row → ℕ → State → Option State
  try_add_row k row row_bytes s =
      if has_no_room k row_bytes s then none else some (take_row k row row_bytes s)

  -- The end of `addRow`, where no frame takes the row.
  pub refuse_row : Kind → Bool → State → Bool × State
  refuse_row k counted s =
      (false, if counted then record s { dropped = count_drop k s.dropped } else s)

  -- The second attempt of `addRow`, on a new frame.
  pub retry_row : Kind → J.Row → ℕ → Bool → State → Bool × State
  retry_row k row row_bytes counted s = elim (try_add_row k row row_bytes s) [
    | some s' ↦ (true, s')
    | none ↦ refuse_row k counted s
  ]

  -- `addRow`, after `workBytes += rowBytes`.
  pub add_row_bytes : Kind → J.Row → ℕ → Bool → State → Result (Bool × State)
  add_row_bytes k row row_bytes counted s = elim (try_add_row k row row_bytes s) [
    | some s' ↦ ok (true, s')
    | none ↦
        if ltb 0 (row_count s.current)
        then (do s' ← finish_current s; ok (retry_row k row row_bytes counted s'))
        else ok (refuse_row k counted s)
  ]

  -- `workBytes += rowBytes`
  pub add_work : ℕ → State → State
  add_work row_bytes s = record s { work_bytes = s.work_bytes + row_bytes }

  pub add_row : Kind → J.Row → Bool → State → Result (Bool × State)
  add_row k row counted s =
      let row_bytes = J.byte_length (J.stringify_row row) in
      add_row_bytes k row row_bytes counted (add_work row_bytes s)

  -- `if (workBytes >= maxFrameBytes) { workBytes = 0; yield; }`
  pub pause : State → State
  pause s =
      if leb max_frame_bytes s.work_bytes
      then record s { work_bytes = 0; yields = s.yields + 1 }
      else s

  -- `for (const row of rows)`
  pub add_rows : Kind → List J.Row → State → Result State
  add_rows k [] s = ok s
  add_rows k (row ∷ rows) s = do (added, s') ← add_row k row true s; add_rows k rows (pause s')

  -- `for (const kind of Object.keys(dropped))`
  pub add_kinds : List Kind → State → Result State
  add_kinds [] s = ok s
  add_kinds (k ∷ ks) s = do s' ← add_rows k (rows_of k frame) s; add_kinds ks s'

  -- The counter of the rows that no frame took.
  pub report_drops : State → Result State
  report_drops s =
      if ltb 0 (total s.dropped)
      then (do
        (added, s') ←
            add_row counters (J.counter_row "wardx.internal.frame_rows_dropped" (total s.dropped))
              false s
        guard added "maxFrameBytes cannot contain the frame drop metric"
        ok s')
      else ok s

  pub finish_last : State → Result State
  finish_last s =
      if eqb (length s.frames) 0 || ltb 0 (row_count s.current) then finish_current s else ok s

  -- The final state holds what the splitter returns: `frames`, `jsons` and `dropped`.
  pub split_to_max_bytes : Result State
  split_to_max_bytes = do
    guard (not (ltb max_frame_bytes 1024)) "maxFrameBytes must be an integer at least 1024"
    guard (not (ltb max_frame_rows 1)) "maxFrameRows must be an integer at least 1"
    s ← add_kinds (counters ∷ gauges ∷ histograms ∷ distincts ∷ events ∷ logs ∷ []) start
    s' ← report_drops s
    finish_last s'
