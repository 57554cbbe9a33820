-- ===== src/Executor/Paths.antt =====
-- `Executor.paths` of src/kdiff/analysis/graph_program.py.
-- An entry of the queue holds the assertions of its path, where the source holds their identifiers.
pub mod Walks
pub mod Visits
pub mod Growth
pub mod Exactness
use knowledge_diffusion.Base.{
  Bool, Key, List, Option, Result, [], add_key, any, err, false, if◌then◌else◌, leb, length, ltb,
  map, member, none, not, ok, or_raise, raise_if, some, sort_by, sorted, suc, true, zero, ℕ, ◌&&◌,
  ◌++◌, ◌-◌, ◌==◌, ◌>>=◌, ◌>>◌, ◌∷◌,
}
use knowledge_diffusion.Time
use knowledge_diffusion.Time.{Date, TimeRange, Window, Membership, membership, ordinal}
use knowledge_diffusion.Graph.{Assertion}
use knowledge_diffusion.Values
use knowledge_diffusion.Values.{Value, FoundPath, PathsValue, TemporalRule, same_relation}
use knowledge_diffusion.Claims.{Pool}
use knowledge_diffusion.Program.{PathArgs}
use knowledge_diffusion.Executor.{
  Executor, ExecError, value_at, window_at, target_of, is_entity_of, type_error, target_missing,
  state_budget, undated_path, endpoint_missing, ambiguous_order, path_budget,
}

-- An entry of the queue.
pub record Item : Type 0 where
  pub at : Key
  pub trail : List Assertion
  pub vertices : List Key
  pub previous : Option Date

pub record Search : Type 0 where
  pub queue : List Item
  pub found : List FoundPath
  pub inspected : List Key

pub record Span : Type 0 where
  pub lower : Date
  pub upper : Date

abbrev pub span_of : Option Date → Option Date → Option Span
span_of (some lower) (some upper) = some (record { lower = lower; upper = upper })
span_of _ _ = none

abbrev pub span_at : TimeRange → Option Span
span_at t = span_of t.lower t.upper

-- `a[origin]==current` and the relation is asked for.
abbrev pub leaves : PathArgs → Item → Assertion → Bool
leaves args item a =
    target_of (not args.out) a == item.at && any (same_relation a.relation) args.relations

abbrev pub is_ordered_rule : TemporalRule → Bool
is_ordered_rule Values.nondecreasing = true
is_ordered_rule _ = false

-- `previous and interval.lower < previous`, where the order is asked for.
abbrev pub comes_early : PathArgs → Option Date → Span → Bool
comes_early args none t = false
comes_early args (some p) t =
    is_ordered_rule args.temporal_rule && ltb (ordinal t.lower) (ordinal p)

-- `interval.upper >= previous`
abbrev pub overlaps : Option Date → Span → Bool
overlaps none t = false
overlaps (some p) t = leb (ordinal p) (ordinal t.upper)

-- The days from the first event of a path to its last.
abbrev pub elapsed : List Assertion → Span → Result ExecError (ℕ × ℕ)
elapsed [] t = ok (0, 0)
elapsed (first ∷ rest) t = do
  s ← or_raise (span_at first.valid_time) type_error
  ok (ordinal t.lower - ordinal s.upper, ordinal t.upper - ordinal s.lower)

abbrev pub ids_of : List Assertion → List Key
ids_of trail = map (λ a. a.assertion_id) trail

abbrev pub path_of : PathArgs → Item → Assertion → Span → Result ExecError FoundPath
path_of args item a t = do
  days ← elapsed item.trail t
  ok (record {
    assertions = ids_of (item.trail ++ a ∷ []);
    entities = item.vertices ++ target_of args.out a ∷ [];
    minimum_days = days.0;
    maximum_days = days.1;
  })

abbrev pub next_item : PathArgs → Item → Assertion → Span → Item
next_item args item a t = record {
  at = target_of args.out a;
  trail = item.trail ++ a ∷ [];
  vertices = item.vertices ++ target_of args.out a ∷ [];
  previous = some t.upper;
}

abbrev pub inspect : Assertion → Search → Search
inspect a s = record s { inspected = add_key a.assertion_id s.inspected }

abbrev pub report : PathArgs → Item → Assertion → Span → Search → Result ExecError Search
report args item a t s = do
  p ← path_of args item a t
  raise_if (ltb args.max_paths (length (s.found ++ p ∷ []))) path_budget
  ok (record s { found = s.found ++ p ∷ [] })

-- The end of the loop's body: a path to the target, another vertex, or one that was visited.
unfoldable pub arrive : PathArgs → Item → Assertion → Span → Search → Result ExecError Search
arrive args item a t s =
    if target_of args.out a == args.target_id
    then report args item a t s
    else if member (target_of args.out a) item.vertices
    then ok s
    else ok (record s { queue = s.queue ++ next_item args item a t ∷ [] })

-- An assertion inside the window.
unfoldable pub cross : Executor → PathArgs → Item → Assertion → Search → Result ExecError Search
cross x args item a s = do
  raise_if (not (is_entity_of x (target_of args.out a))) endpoint_missing
  t ← or_raise (span_at a.valid_time) type_error
  raise_if (comes_early args item.previous t && overlaps item.previous t) ambiguous_order
  if comes_early args item.previous t then ok s else arrive args item a t s

abbrev pub cross_if :
    Membership → Executor → PathArgs → Item → Assertion → Search → Result ExecError Search
cross_if Time.indeterminate x args item a s = err undated_path
cross_if Time.outside x args item a s = ok s
cross_if Time.inside x args item a s = cross x args item a s

-- The body of the loop over the assertions.
unfoldable pub visit :
    Executor → PathArgs → Window → Item → Assertion → Search → Result ExecError Search
visit x args w item a s =
    if leaves args item a
    then cross_if (membership a.valid_time w) x args item a (inspect a s)
    else ok s

unfoldable pub visit_all :
    Executor → PathArgs → Window → Item → List Assertion → Search → Result ExecError Search
visit_all x args w item [] s = ok s
visit_all x args w item (a ∷ as') s =
    visit x args w item a s >>= λ s'. visit_all x args w item as' s'

abbrev pub sorted_edges : Executor → List Assertion
sorted_edges x = sort_by (λ a. a.assertion_id) x.edges

-- An entry that may go on.
abbrev pub expand_item : Executor → PathArgs → Window → Item → Search → Result ExecError Search
expand_item x args w item s =
    if leb args.max_hops (length item.trail)
    then ok s
    else visit_all x args w item (sorted_edges x) s

-- The loop over the queue of `s`, with the number of entries that it may still take.
unfoldable pub search :
    ℕ → Executor → PathArgs → Window → List Item → Search → Result ExecError Search
search budget x args w [] s = ok s
search zero x args w (item ∷ items) s = err state_budget
search (suc budget) x args w (item ∷ items) s = do
  s' ← expand_item x args w item (record s { queue = items })
  search budget x args w s'.queue s'

abbrev pub state_limit : ℕ
state_limit = 10000

abbrev pub item_at : Key → Item
item_at id = record { at = id; trail = []; vertices = id ∷ []; previous = none }

abbrev pub ids_in : Value → Result ExecError (List Key)
ids_in (Values.entities ids kind inputs) = ok ids
ids_in (Values.edges e) = ok e.ids
ids_in (Values.aggregate a) = ok a.ids
ids_in _ = err type_error

abbrev pub opening : List Key → Search
opening ids = record { queue = map item_at ids; found = []; inspected = [] }

unfoldable pub find_paths : Executor → PathArgs → Pool → Result ExecError Value
find_paths x args values = do
  raise_if (not (is_entity_of x args.target_id)) target_missing
  w ← window_at values args.window
  v ← value_at values args.input
  ids ← ids_in v
  s ← search state_limit x args w (map item_at ids) (opening ids)
  ok (
      Values.paths (record {
        found = s.found;
        input_ids = sorted s.inspected;
        max_hops = args.max_hops;
        temporal_rule = args.temporal_rule;
        window = w;
      }))
