-- ===== src/Core/Frame.antt =====
-- packages/core/src/frame/FrameBuilder.js: a frame, its rows by kind, and the splitter that cuts a
-- captured frame into physical frames within a limit of bytes and of rows. `JSON.stringify` is a
-- parameter.

pub mod Split
use wardx.Prelude.{
  eqb, length, ℕ, ◌+◌, ◌≤◌, String, ◌≡◌, Bool, Option, none, some, List, [], ◌∷◌, ◌++◌,
}

-- The keys of `dropped`, in the order in which the splitter visits them.
pub data Kind : Type 0 where
  counters gauges histograms distincts events logs : Kind

abbrev pub kind_code : Kind → ℕ
kind_code counters = 0
kind_code gauges = 1
kind_code histograms = 2
kind_code distincts = 3
kind_code events = 4
kind_code logs = 5

abbrev pub same_kind : Kind → Kind → Bool
same_kind k l = eqb (kind_code k) (kind_code l)

pub record Metrics (Row : Type 0) : Type 0 where
  pub counters : List Row
  pub gauges : List Row
  pub histograms : List Row
  -- the property is left out of a frame with no such row
  pub distincts : Option (List Row)

pub record Frame (Row : Type 0) : Type 0 where
  pub seq : ℕ
  pub from : ℕ
  pub to : ℕ
  pub metrics : Metrics Row
  pub events : List Row
  pub logs : List Row

module _ {Row : Type 0} where
  pub empty_frame : ℕ → ℕ → ℕ → Frame Row
  empty_frame seq from to = record {
    seq = seq;
    from = from;
    to = to;
    metrics = record { counters = []; gauges = []; histograms = []; distincts = none };
    events = [];
    logs = [];
  }

  -- `rows || []`
  abbrev pub or_empty : Option (List Row) → List Row
  or_empty none = []
  or_empty (some rows) = rows

  -- `parent[kind]`, with no row where the property is absent.
  abbrev pub rows_of : Kind → Frame Row → List Row
  rows_of counters f = f.metrics.counters
  rows_of gauges f = f.metrics.gauges
  rows_of histograms f = f.metrics.histograms
  rows_of distincts f = or_empty f.metrics.distincts
  rows_of events f = f.events
  rows_of logs f = f.logs

  unfoldable pub row_count : Frame Row → ℕ
  row_count f =
      length f.metrics.counters
      + length f.metrics.gauges
      + length f.metrics.histograms
      + length (or_empty f.metrics.distincts)
      + length f.events
      + length f.logs

  -- `rows.push(row)`, or `parent[kind] = [row]` where the property is absent.
  pub push_row : Kind → Row → Frame Row → Frame Row
  push_row counters row f = record f {
    metrics = record (f.metrics) { counters = f.metrics.counters ++ row ∷ [] };
  }
  push_row gauges row f = record f {
    metrics = record (f.metrics) { gauges = f.metrics.gauges ++ row ∷ [] };
  }
  push_row histograms row f = record f {
    metrics = record (f.metrics) { histograms = f.metrics.histograms ++ row ∷ [] };
  }
  push_row distincts row f = record f {
    metrics = record (f.metrics) { distincts = some (or_empty f.metrics.distincts ++ row ∷ []) };
  }
  push_row events row f = record f { events = f.events ++ row ∷ [] }
  push_row logs row f = record f { logs = f.logs ++ row ∷ [] }

  -- `rows?.length ? 1 : 0`
  abbrev comma : List Row → ℕ
  comma [] = 0
  comma (x ∷ rows) = 1

  -- `',"distincts":[]'.length`, where the first distinct row brings the property.
  abbrev property_bytes : Kind → Option (List Row) → ℕ
  property_bytes distincts none = 15
  property_bytes k o = 0

  -- The bytes that a row of `row_bytes` bytes adds to a frame.
  pub added_bytes : Kind → ℕ → Frame Row → ℕ
  added_bytes k row_bytes f = row_bytes + comma (rows_of k f) + property_bytes k f.metrics.distincts

-- What the splitter needs of JSON: the text of a frame and of a row, the length of a text in bytes,
-- and the row `[name, null, value]` of a counter.
pub record FrameJson : Type 1 where
  pub Row : Type 0
  pub Text : Type 0
  pub byte_length : Text → ℕ
  pub stringify : Frame Row → Text
  pub stringify_row : Row → Text
  pub counter_row : String → ℕ → Row

-- Documented behaviour of `JSON.stringify`: the elements of an array are joined by commas, a
-- property that is absent takes no text, and a number takes at most 24 characters.
pub record IsJson (J : FrameJson) : Type 0 where
  pub bytes-push_row :
      (k : Kind) (row : J.Row) (f : Frame J.Row)
      → J.byte_length (J.stringify (push_row k row f))
        ≡ J.byte_length (J.stringify f) + added_bytes k (J.byte_length (J.stringify_row row)) f
  pub bytes-empty_frame :
      (seq from to : ℕ) → J.byte_length (J.stringify (empty_frame seq from to)) ≤ 256
  pub bytes-counter_row :
      (n : ℕ)
      → J.byte_length (J.stringify_row (J.counter_row "wardx.internal.frame_rows_dropped" n)) ≤ 128
