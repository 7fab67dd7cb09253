-- ===== src/Core/Frame/Split/Tests.antt =====
-- The splitter on small frames, with a JSON in which a row is its own number of bytes.
use wardx.Prelude.{
  Option-cases, length, Result, ok, err, ℕ, ◌+◌, ◌≤◌, ◌≡◌, refl, inl, inr, Option, none, some, List,
  [], ◌∷◌, ◌++◌, map, arith,
}
use wardx.Core.Frame.{
  Kind, counters, gauges, histograms, distincts, events, logs, Frame, FrameJson, IsJson, row_count,
  empty_frame, added_bytes, rows_of, push_row,
}
use wardx.Core.Frame.Split.{
  State, dropped_of, count_drop, start, close_current, finish_current, try_add_row, take_row,
  has_no_room, refuse_row, retry_row, add_row_bytes, add_work, add_row, pause, add_rows, add_kinds,
  report_drops, finish_last, split_to_max_bytes, total,
}
use wardx.Core.Frame.Split.Valid.{AreParts}
use wardx.Core.Frame.Split.Rows.{extra, collect}
use wardx.Core.Frame.Split.Loops.{Thins}
use wardx.Core.Frame.Split.Whole.{split_limits, split_rows, report}

-- the bytes of the elements of an array, with the commas between them
abbrev array_bytes : List ℕ → ℕ
array_bytes [] = 0
array_bytes (x ∷ []) = x
array_bytes (x ∷ y ∷ xs) = x + 1 + array_bytes (y ∷ xs)

abbrev comma_bytes : List ℕ → ℕ
comma_bytes [] = 0
comma_bytes (x ∷ xs) = 1

array_bytes-append :
    (xs : List ℕ) (x : ℕ) → array_bytes (xs ++ x ∷ []) ≡ array_bytes xs + x + comma_bytes xs
array_bytes-append [] x = omega arith
array_bytes-append (y ∷ []) x = omega arith
array_bytes-append (y ∷ z ∷ ys) x = omega (arith, array_bytes-append (z ∷ ys) x)

abbrev property : Option (List ℕ) → ℕ
property none = 0
property (some xs) = 15 + array_bytes xs

abbrev frame_bytes : Frame ℕ → ℕ
frame_bytes f =
    100
    + array_bytes f.metrics.counters
    + array_bytes f.metrics.gauges
    + array_bytes f.metrics.histograms
    + property f.metrics.distincts
    + array_bytes f.events
    + array_bytes f.logs

abbrev sizes : FrameJson
sizes = record {
  Row = ℕ;
  Text = ℕ;
  byte_length = λ n. n;
  stringify = frame_bytes;
  stringify_row = λ n. n;
  counter_row = λ name n. 60;
}

frame_bytes-push_row :
    (k : Kind) (row : ℕ) (f : Frame ℕ)
    → frame_bytes (push_row k row f) ≡ frame_bytes f + added_bytes k row f
unfolding push_row added_bytes
frame_bytes-push_row counters row f = ground (arith, array_bytes-append f.metrics.counters row)
frame_bytes-push_row gauges row f = ground (arith, array_bytes-append f.metrics.gauges row)
frame_bytes-push_row histograms row f = ground (arith, array_bytes-append f.metrics.histograms row)
frame_bytes-push_row distincts row f = elim (Option-cases f.metrics.distincts) [
  | inl absent ↦ rw absent (omega arith)
  | inr (rows, e) ↦ rw e (ground (arith, array_bytes-append rows row))
]
frame_bytes-push_row events row f = ground (arith, array_bytes-append f.events row)
frame_bytes-push_row logs row f = ground (arith, array_bytes-append f.logs row)

sizes-IsJson : IsJson sizes
sizes-IsJson = record {
  bytes-push_row = frame_bytes-push_row;
  bytes-empty_frame = λ seq from to. unfold empty_frame in omega arith;
  bytes-counter_row = λ n. omega arith;
}

-- Five rows fit; the event of 2000 bytes fits in no frame.
abbrev captured : Frame ℕ
captured = record {
  seq = 7;
  from = 10;
  to = 20;
  metrics = record {
    counters = 400 ∷ 300 ∷ [];
    gauges = [];
    histograms = 500 ∷ [];
    distincts = some (9 ∷ []);
  };
  events = 2000 ∷ 30 ∷ [];
  logs = [];
}

abbrev seqs : Result (State sizes 1024 3 captured) → List ℕ
seqs (ok s) = map (λ f. f.seq) s.frames
seqs (err e) = []

split_captured : seqs (split_to_max_bytes sizes 1024 3 captured) ≡ 7 ∷ 8 ∷ 9 ∷ []
unfolding split_to_max_bytes start add_kinds add_rows add_row add_work add_row_bytes try_add_row
    has_no_room take_row retry_row refuse_row finish_current close_current pause report_drops
    finish_last total count_drop push_row added_bytes row_count empty_frame
split_captured = refl

split_limits_example :
    (out : State sizes 1024 3 captured) × (split_to_max_bytes sizes 1024 3 captured ≡ ok out)
    × AreParts sizes 1024 3 captured 0 out.frames
    × (out.jsons ≡ map sizes.stringify out.frames)
    × (1 ≤ length out.frames)
split_limits_example = split_limits sizes 1024 3 captured sizes-IsJson (omega arith) (omega arith)

abbrev run : State sizes 1024 3 captured
run = (split_limits sizes 1024 3 captured sizes-IsJson (omega arith) (omega arith)).0

split_rows_example :
    (taken : List ℕ) × Thins (rows_of events captured) (dropped_of events run.dropped) taken
    × (collect events run.frames
        ≡ taken ++ extra counters events (report sizes 1024 3 captured run.dropped))
split_rows_example =
    split_rows sizes 1024 3 captured sizes-IsJson (omega arith) (omega arith) run events
      (split_limits sizes 1024 3 captured sizes-IsJson (omega arith) (omega arith)).1
