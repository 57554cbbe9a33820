-- ===== src/Temporal/Moves.antt =====
-- `return_moves` of src/kdiff/analysis/temporal.py.
use knowledge_diffusion.Base.{
  Bool, Key, List, Option, Result, [], false, if◌then◌else◌, leb, length, ltb, none, not, ok,
  permutations_3, raise_if, some, sub_ℕ, true, ◌&&◌, ◌-◌, ◌==◌, ◌>>=◌, ◌>>◌, ◌||◌, ◌∷◌,
}
use knowledge_diffusion.Time
use knowledge_diffusion.Time.{Date, TimeRange, Window, ordinal}
use knowledge_diffusion.Graph.{Assertion, Entity}
use knowledge_diffusion.Values.{TraceEvent, ReturnMove, Returns}
use knowledge_diffusion.Temporal.Trace.{TraceError, event_budget, event_trace}

-- The bounds of an event whose start is known on both sides.
pub record Dated : Type 0 where
  pub event : TraceEvent
  pub lower : Date
  pub upper : Date

abbrev pub dated_event : TraceEvent → Option Date → Option Date → Option Dated
dated_event e (some lower) (some upper) = some (record { event = e; lower = lower; upper = upper })
dated_event e _ _ = none

abbrev pub is_out : TraceEvent → Window → Bool
is_out e w = Time.known_after e.start.lower w.end || Time.known_before e.start.upper w.start

abbrev pub all_known : Option Dated → Option Dated → Option Dated → Option (Dated × Dated × Dated)
all_known (some x) (some y) (some z) = some (x, y, z)
all_known _ _ _ = none

abbrev pub all_dated : TraceEvent × TraceEvent × TraceEvent → Option (Dated × Dated × Dated)
all_dated (a, b, c) =
    all_known (dated_event a a.start.lower a.start.upper)
      (dated_event b b.start.lower b.start.upper) (dated_event c c.start.lower c.start.upper)

-- `end.upper and end.upper < start.lower`
abbrev pub left_before : Dated → Dated → Bool
left_before x y = Time.known_before x.event.end.upper y.lower

abbrev pub is_certain : Window → Dated → Dated → Dated → Bool
is_certain w x y z =
    ltb (ordinal x.upper) (ordinal y.lower)
    && ltb (ordinal y.upper) (ordinal z.lower)
    && left_before x y
    && left_before y z
    && leb (ordinal w.start) (ordinal x.lower)
    && leb (ordinal z.upper) (ordinal w.end)

abbrev pub move_of : Dated → Dated → Dated → ReturnMove
move_of x y z = record {
  institutions = x.event.institution_id ∷ y.event.institution_id ∷ z.event.institution_id ∷ [];
  assertions = x.event.assertion_id ∷ y.event.assertion_id ∷ z.event.assertion_id ∷ [];
  minimum_days = ordinal z.lower - ordinal x.upper;
  maximum_days = sub_ℕ (ordinal z.upper) (ordinal x.lower);
}

-- A return to another institution's predecessor.
abbrev pub comes_back : TraceEvent × TraceEvent × TraceEvent → Bool
comes_back (a, b, c) =
    a.institution_id == c.institution_id && not (b.institution_id == a.institution_id)

-- Certainly not in order, or two attestations of one appointment.
abbrev pub is_excluded : Dated → Dated → Dated → Bool
is_excluded x y z =
    ltb (ordinal y.upper) (ordinal x.lower)
    || ltb (ordinal z.upper) (ordinal y.lower)
    || ordinal x.lower == ordinal z.lower && ordinal x.upper == ordinal z.upper

-- What a triple of known bounds shows: nothing, or a move and whether it is certain.
abbrev pub judge : Window → Option (Dated × Dated × Dated) → Option (Bool × ReturnMove)
judge w none = none
judge w (some (x, y, z)) =
    if is_excluded x y z then none else some (is_certain w x y z, move_of x y z)

-- The body of the loop.
unfoldable pub consider : Window → TraceEvent × TraceEvent × TraceEvent → Option (Bool × ReturnMove)
consider w (a, b, c) =
    if not (comes_back (a, b, c)) || is_out a w || is_out b w || is_out c w
    then none
    else judge w (all_dated (a, b, c))

abbrev pub sort_in :
    Option (Bool × ReturnMove)
    → List ReturnMove × List ReturnMove
    → List ReturnMove × List ReturnMove
sort_in none (certain, uncertain) = (certain, uncertain)
sort_in (some (true, m)) (certain, uncertain) = (m ∷ certain, uncertain)
sort_in (some (false, m)) (certain, uncertain) = (certain, m ∷ uncertain)

unfoldable pub find_moves :
    Window → List (TraceEvent × TraceEvent × TraceEvent) → List ReturnMove × List ReturnMove
find_moves w [] = ([], [])
find_moves w (triple ∷ triples) = sort_in (consider w triple) (find_moves w triples)

unfoldable pub return_moves :
    List Entity → List Assertion → Key → Window → Result TraceError Returns
return_moves entities edges author w = do
  trace ← event_trace entities edges author w
  raise_if (ltb 100 (length trace.events)) event_budget
  let found = find_moves w (permutations_3 trace.events)
  ok (record {
    author_id = author;
    returns = found.0;
    ambiguous_candidates = found.1;
    input_ids = trace.input_ids;
    window = w;
  })
