-- ===== src/Server/Recent/Events.antt =====
-- packages/server/src/events/RecentEvents.js: a ring of the last events. An unused place of the array
-- is `none`. `same` is `===` on the values of attributes, and `sort_by_ts` is `Array.prototype.sort`
-- with the comparison of the class; both belong to the language.
pub mod Ring
mod Tests
use wardx.Prelude.{
  ltb, if◌then◌else◌, get_elem?, set, take, ℕ, zero, suc, ◌+◌, ◌-◌, ◌%◌, max, String, Bool, true,
  false, ◌&&◌, ◌||◌, Option, none, some, List, [], ◌∷◌, ◌++◌, ◌==◌,
}

-- `inspectEvents.includes(name)`
pub includes : List String → String → Bool
includes [] k = false
includes (x ∷ xs) k = (x == k) || includes xs k

-- `filter.name && row.name !== filter.name`, negated.
pub text_matches : Option String → String → Bool
text_matches none actual = true
text_matches (some wanted) actual = (wanted == "") || (actual == wanted)

module _ (V : Type 0) where
  abbrev pub Attrs : Type 0
  Attrs = Option (List (String × V))

  pub record Row : Type 0 where
    pub ts : ℕ
    pub name : String
    pub attrs : Attrs
    pub instance_id : String
    pub role : String

  pub record RecentEvents : Type 0 where
    pub max : ℕ
    pub buf : List (Option Row)
    pub next : ℕ
    pub size : ℕ

  -- A row of a frame's events.
  pub record Event : Type 0 where
    pub ts : ℕ
    pub name : String
    pub attrs : Attrs

  pub record Filter : Type 0 where
    pub name : Option String
    pub role : Option String
    pub attrs : Attrs
    pub limit : Option ℕ

module _ {V : Type 0} where
  -- `new Array(max)`
  abbrev pub empty_array : ℕ → List (Option (Row V))
  empty_array zero = []
  empty_array (suc n) = none ∷ empty_array n

  pub create : ℕ → RecentEvents V
  create max = record { max = max; buf = empty_array max; next = 0; size = 0 }

  -- `this.buf[this.next] = …` and what follows it.
  pub store : Row V → RecentEvents V → RecentEvents V
  store row s = record s {
    buf = set s.buf s.next (some row);
    next = (s.next + 1) % s.max;
    size = if ltb s.size s.max then s.size + 1 else s.size;
  }

  -- `_push`; the checks of types are those of the arguments.
  pub push : Row V → RecentEvents V → RecentEvents V
  push row s = if row.name == "" then s else store row s

  push_events : List (Event V) → List String → String → String → RecentEvents V → RecentEvents V
  push_events [] inspect_events instance_id role s = s
  push_events (e ∷ es) inspect_events instance_id role s =
      push_events es inspect_events instance_id role (
        if includes inspect_events e.name
        then push
            (record {
              ts = e.ts;
              name = e.name;
              attrs = e.attrs;
              instance_id = instance_id;
              role = role;
            })
            s
        else s)

  -- `ingest`, on the events of each frame of the envelope.
  pub ingest :
      List (List (Event V)) → List String → String → String → RecentEvents V → RecentEvents V
  ingest [] inspect_events instance_id role s = s
  ingest (events ∷ frames) inspect_events instance_id role s =
      ingest frames inspect_events instance_id role
        (push_events events inspect_events instance_id role s)

  -- `(this.next - offset + this.max) % this.max`
  abbrev pub index : RecentEvents V → ℕ → ℕ
  index s offset = (s.next + s.max - offset) % s.max

  abbrev pub or_skip : Option (Option (Row V)) → List (Row V) → List (Row V)
  or_skip (some (some row)) rows = row ∷ rows
  or_skip _ rows = rows

  -- The rows at `count` offsets from `offset` on: the newest first.
  pub rows_from : RecentEvents V → ℕ → ℕ → List (Row V)
  rows_from s offset zero = []
  rows_from s offset (suc count) =
      or_skip (get_elem? s.buf (index s offset)) (rows_from s (offset + 1) count)

  -- `for (let offset = 1; offset <= this.size; offset++)`
  pub newest_first : RecentEvents V → List (Row V)
  newest_first s = rows_from s 1 s.size

  value_of : String → List (String × V) → Option V
  value_of key [] = none
  value_of key ((k, v) ∷ attrs) = if k == key then some v else value_of key attrs

  module _ (same : V → V → Bool) where
    abbrev same_value : Option V → V → Bool
    same_value none wanted = false
    same_value (some actual) wanted = same actual wanted

    has_all : List (String × V) → List (String × V) → Bool
    has_all row_attrs [] = true
    has_all row_attrs ((key, value) ∷ wanted) =
        same_value (value_of key row_attrs) value && has_all row_attrs wanted

    pub attrs_match : Attrs V → Attrs V → Bool
    attrs_match row_attrs none = true
    attrs_match none (some wanted) = false
    attrs_match (some row_attrs) (some wanted) = has_all row_attrs wanted

    matches : Filter V → Row V → Bool
    matches filter row =
        text_matches filter.name row.name
        && (text_matches filter.role row.role && attrs_match row.attrs filter.attrs)

    select : Filter V → List (Row V) → List (Row V)
    select filter [] = []
    select filter (row ∷ rows) =
        if matches filter row then row ∷ select filter rows else select filter rows

    abbrev limited : Option ℕ → List (Row V) → List (Row V)
    limited none rows = rows
    limited (some limit) rows = take limit rows

    pub query : (List (Row V) → List (Row V)) → Filter V → RecentEvents V → List (Row V)
    query sort_by_ts filter s = limited filter.limit (sort_by_ts (select filter (newest_first s)))

  -- The rows of another name, oldest first as `forget` collects them.
  retained : String → List (Row V) → List (Row V)
  retained name [] = []
  retained name (row ∷ rows) = retained name rows ++ (if row.name == name then [] else row ∷ [])

  push_rows : List (Row V) → RecentEvents V → RecentEvents V
  push_rows [] s = s
  push_rows (row ∷ rows) s = push_rows rows (push row s)

  pub forget : String → RecentEvents V → RecentEvents V
  forget name s = push_rows (retained name (newest_first s)) (create s.max)
