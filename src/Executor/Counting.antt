-- ===== src/Executor/Counting.antt =====
-- `Executor.aggregate` of src/kdiff/analysis/graph_program.py.
pub mod Loops
pub mod Exactness
use knowledge_diffusion.Base.{
  Bool, Key, List, Option, Result, [], all, any, err, false, first_seen, if◌then◌else◌, is_key,
  length, map, member, none, not, ok, or_raise, raise_if, select, some, sorted, true, ℕ, ◌&&◌, ◌+◌,
  ◌==◌, ◌>>=◌, ◌>>◌, ◌||◌, ◌∷◌,
}
use knowledge_diffusion.Time
use knowledge_diffusion.Time.{Date, Window, Membership, membership}
use knowledge_diffusion.Graph
use knowledge_diffusion.Graph.{Assertion, Relation}
use knowledge_diffusion.Values
use knowledge_diffusion.Values.{Value, EdgesValue, AggregateValue, same_relation, same_window}
use knowledge_diffusion.Claims.{Pool}
use knowledge_diffusion.Program
use knowledge_diffusion.Program.{AggregateArgs, Metric, by_authorship}
use knowledge_diffusion.Temporal.Trace.{TraceError, event_trace}
use knowledge_diffusion.Temporal.Moves.{return_moves}
use knowledge_diffusion.Executor.{
  Executor, Source, ExecError, edge_at, edges_at, window_at, rows_of, target_of, is_entity_of,
  type_error, wrong_events, wrong_unit, windows_disagree, source_absent, not_authorship,
  topic_absent, undated_aggregate, ambiguous_year, trace_failed, is_inside,
}

-- The guard on the events of a trace.
abbrev pub check_events : Executor → Option Key → List Key → Result ExecError (Unit {0})
check_events x subject [] = ok tt
check_events x subject (id ∷ ids) = do
  a ← or_raise (edge_at x id) type_error
  raise_if (not (is_key a.head_id subject) || not (same_relation a.relation Graph.affiliated_with))
      wrong_events
  check_events x subject ids

abbrev pub traced {ℓ} : {A : Type ℓ} → Result TraceError A → Result ExecError A
traced (ok a) = ok a
traced (err e) = err trace_failed

-- `function(self.graph, args.subject_id, …)`
abbrev pub measure : Executor → Metric → Key → Window → Result ExecError Value
measure x Program.mobility_returns subject w = do
  r ← traced (return_moves x.graph.entities x.graph.assertions subject w)
  ok (Values.mobility_returns r)
measure x _ subject w = do
  t ← traced (event_trace x.graph.entities x.graph.assertions subject w)
  ok (Values.event_trace t)

-- `source.get('filter_input_ids', source['ids'])`
abbrev pub input_ids_of : EdgesValue → List Key
input_ids_of e = elim e.filter_input_ids [ none ↦ e.ids | some ids ↦ ids ]

abbrev pub windows_differ : Option Window → Window → Bool
windows_differ none w = false
windows_differ (some v) w = not (same_window v w)

abbrev pub from_source : Option Key → List Assertion → List Assertion
from_source none rows = rows
from_source (some s) rows = select (λ r. r.source == s) rows

abbrev pub lacks_source : Option Key → List Source → Bool
lacks_source none sources = false
lacks_source (some s) sources = not (any (λ r. r.source == s) sources)

abbrev pub has_topic : Executor → Option Key → Key → Bool
has_topic x none object = true
has_topic x (some topic) object =
    any
      (λ a.
        a.head_id == object && same_relation a.relation Graph.classified_as && a.tail_id == topic)
      x.edges

abbrev pub lacks_topic : Executor → Option Key → Bool
lacks_topic x none = false
lacks_topic x (some topic) = not (is_entity_of x topic)

abbrev pub at_institution : Option Key → Assertion → Bool
at_institution none a = false
at_institution (some i) a = member i a.qualifiers.institution_ids

-- Whether a row is of the attribution that is asked for.
abbrev pub is_attributed : AggregateArgs → Assertion → Bool
is_attributed args a = not (by_authorship args.attribution) || at_institution args.institution_id a

-- The loop that groups the rows: the rows that it keeps.
unfoldable pub kept_rows :
    Executor → AggregateArgs → Bool → List Assertion → Result ExecError (List Assertion)
kept_rows x args is_tail [] = ok []
kept_rows x args is_tail (a ∷ rows) = do
  raise_if
      (by_authorship args.attribution
        && (not (same_relation a.relation Graph.author_of) || not is_tail))
      not_authorship
  raise_if (is_attributed args a && lacks_topic x args.topic_id) topic_absent
  rest ← kept_rows x args is_tail rows
  ok (
      if is_attributed args a && has_topic x args.topic_id (target_of is_tail a)
      then a ∷ rest
      else rest)

-- `by_object[obj]`
abbrev pub group_of : Bool → List Assertion → Key → List Assertion
group_of is_tail rows object = select (λ a. target_of is_tail a == object) rows

abbrev pub objects_of : Bool → List Assertion → List Key
objects_of is_tail rows = first_seen (map (target_of is_tail) rows)

abbrev pub is_outside : Membership → Bool
is_outside Time.outside = true
is_outside _ = false

abbrev pub all_inside : Window → List Assertion → Bool
all_inside w group = all (λ a. is_inside (membership a.valid_time w)) group

abbrev pub all_outside : Window → List Assertion → Bool
all_outside w group = all (λ a. is_outside (membership a.valid_time w)) group

abbrev pub in_year : ℕ → Option Date → Bool
in_year y none = false
in_year y (some d) = d.year == y

-- The year of a group of dated rows, where it has one.
abbrev pub year_of : List Assertion → Option ℕ
year_of [] = none
year_of (a ∷ group) = elim a.valid_time.lower [
  | none ↦ none
  | some d ↦
      if all (λ r. in_year d.year r.valid_time.lower && in_year d.year r.valid_time.upper)
        (a ∷ group)
      then some d.year
      else none
]

-- `series[year] = series.get(year, 0) + 1`
abbrev pub count_year : ℕ → List (ℕ × ℕ) → List (ℕ × ℕ)
count_year y [] = (y, 1) ∷ []
count_year y ((z, n) ∷ series) =
    let rest = count_year y series in if z == y then (z, n + 1) ∷ series else (z, n) ∷ rest

abbrev pub with_year : Bool → List Assertion → List (ℕ × ℕ) → Result ExecError (List (ℕ × ℕ))
with_year false group series = ok series
with_year true group series = do
  y ← or_raise (year_of group) ambiguous_year
  ok (count_year y series)

-- The loop over the groups: the selected objects and the series.
unfoldable pub tally :
    Bool
    → (Key → List Assertion)
    → Window
    → List Key
    → List (ℕ × ℕ)
    → Result ExecError (List Key × List (ℕ × ℕ))
tally by_year group w [] series = ok ([], series)
tally by_year group w (object ∷ objects) series =
    if all_inside w (group object)
    then (with_year by_year (group object) series >>= λ series'.
        tally by_year group w objects series' >>= λ rest. ok (object ∷ rest.0, rest.1))
    else if all_outside w (group object)
    then tally by_year group w objects series
    else err undated_aggregate

-- The branch for a count, over edges and a window.
unfoldable pub count_rows :
    Executor → AggregateArgs → EdgesValue → Window → Result ExecError AggregateValue
count_rows x args e w = do
  raise_if (windows_differ e.window w) windows_disagree
  rows ← rows_of x (input_ids_of e)
  raise_if (lacks_source args.source x.graph.sources) source_absent
  kept ← kept_rows x args e.target_is_tail (from_source args.source rows)
  counted ←
      tally args.by_year (group_of e.target_is_tail kept) w (objects_of e.target_is_tail kept) []
  ok (record {
    value = length counted.0;
    ids = sorted counted.0;
    input_ids = sorted (input_ids_of e);
    unit = args.unit;
    attribution = args.attribution;
    institution_id = args.institution_id;
    topic_id = args.topic_id;
    source = args.source;
    window = w;
    series = counted.1;
  })

abbrev pub count_edges : Executor → AggregateArgs → Pool → EdgesValue → Result ExecError Value
count_edges x args values e = do
  raise_if (not (Graph.same_kind e.kind args.unit)) wrong_unit
  w ← window_at values args.window
  a ← count_rows x args e w
  ok (Values.aggregate a)

abbrev pub trace_edges : Executor → AggregateArgs → Pool → EdgesValue → Result ExecError Value
trace_edges x args values e = do
  check_events x args.subject_id e.ids
  subject ← or_raise args.subject_id type_error
  w ← window_at values args.window
  measure x args.metric subject w

unfoldable pub aggregate : Executor → AggregateArgs → Pool → Result ExecError Value
aggregate x args values = do
  e ← edges_at values args.input
  if Program.is_count args.metric then count_edges x args values e else trace_edges x args values e
