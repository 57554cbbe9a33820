-- ===== src/Values.antt =====
-- The results that the steps of a graph program return (the dictionaries that
-- src/kdiff/analysis/graph_program.py and temporal.py build), and their equality.
use knowledge_diffusion.Base.{
  ==→eq, Bool, Key, List, Option, ap, decided, some, sym, true, ℕ, ℕ_discrete, ℤ, ◌==◌, ◌∙◌, ◌≡◌,
}
use knowledge_diffusion.Time.{Date, TimeRange, EndKind, Window}
use knowledge_diffusion.Graph.{EntityType, EntityType-discrete, Relation, rank, ranked, ranked-rank}

pub data Attribution : Type 0 where
  recorded_relation publication_authorship : Attribution

pub data Operation : Type 0 where
  ratio difference : Operation

pub data TemporalRule : Type 0 where
  nondecreasing within_window : TemporalRule

pub record AggregateValue : Type 0 where
  pub value : ℕ
  pub ids : List Key
  pub input_ids : List Key
  pub unit : EntityType
  pub attribution : Attribution
  pub institution_id : Option Key
  pub topic_id : Option Key
  pub source : Option Key
  pub window : Window
  pub series : List (ℕ × ℕ)

pub record ComparisonValue : Type 0 where
  pub operation : Operation
  pub numerator : ℤ
  pub denominator : ℕ
  pub before : AggregateValue
  pub after : AggregateValue

pub record EdgesValue : Type 0 where
  pub ids : List Key
  pub target_is_tail : Bool
  pub kind : EntityType
  pub filter_input_ids : Option (List Key)
  pub window : Option Window

pub record FoundPath : Type 0 where
  pub assertions : List Key
  pub entities : List Key
  pub minimum_days : ℕ
  pub maximum_days : ℕ

pub record PathsValue : Type 0 where
  pub found : List FoundPath
  pub input_ids : List Key
  pub max_hops : ℕ
  pub temporal_rule : TemporalRule
  pub window : Window

pub record TraceEvent : Type 0 where
  pub assertion_id : Key
  pub institution_id : Key
  pub relation : Relation
  pub start : TimeRange
  pub end : TimeRange
  pub end_kind : EndKind

pub record TraceState : Type 0 where
  pub at : Date
  pub active_affiliations : List Key
  pub uncertain_affiliations : List Key
  pub papers : List Key
  pub uncertain_papers : List Key
  pub collaborators : List Key
  pub topics : List Key
  pub grants : List Key
  pub patents : List Key

pub record Trace : Type 0 where
  pub author_id : Key
  pub events : List TraceEvent
  pub states : List TraceState
  pub input_ids : List Key
  pub bibliometric_affiliation_ids : List Key
  pub window : Window

pub record ReturnMove : Type 0 where
  pub institutions : List Key
  pub assertions : List Key
  pub minimum_days : ℕ
  pub maximum_days : ℤ

pub record Returns : Type 0 where
  pub author_id : Key
  pub returns : List ReturnMove
  pub ambiguous_candidates : List ReturnMove
  pub input_ids : List Key
  pub window : Window

pub data StateValue : Type 0 where
  id_list : List Key → StateValue
  one_id : Key → StateValue
  a_window : Window → StateValue
  a_date : Date → StateValue

pub data StateKey : Type 0 where
  resolved_ids window_key topic_id reference_date prior_witnesses : StateKey

pub data Value : Type 0 where
  entities : List Key → EntityType → List Key → Value
  window : Window → Value
  edges : EdgesValue → Value
  paths : PathsValue → Value
  aggregate : AggregateValue → Value
  comparison : ComparisonValue → Value
  event_trace : Trace → Value
  mobility_returns : Returns → Value
  state : StateKey → StateValue → Value
  provenance : Value → List Key → Key → Value

Relation-discrete : Discrete Relation
Relation-discrete = hlevel

-- `==` of relations, by their positions in the registry.
abbrev pub same_relation : Relation → Relation → Bool
same_relation a b = rank a == rank b

pub same_relation-eq : (a b : Relation) → same_relation a b ≡ true → a ≡ b
same_relation-eq a b h =
    let same : some a ≡ some b =
      sym (ranked-rank a) ∙ ap ranked (==→eq (rank a) (rank b) h) ∙ ranked-rank b in
    cc

pub Date-discrete : Discrete Date
Date-discrete = hlevel ℕ_discrete

TimeRange-discrete : Discrete TimeRange
TimeRange-discrete = hlevel (ℕ_discrete, Date-discrete)

pub Window-discrete : Discrete Window
Window-discrete = hlevel (ℕ_discrete, Date-discrete)

abbrev pub same_window : Window → Window → Bool
same_window a b = decided (Window-discrete a b)

-- `==` of two results.
pub Value-discrete : Discrete Value
Value-discrete = hlevel (
  ℕ_discrete, Date-discrete, TimeRange-discrete, Window-discrete, Relation-discrete,
  EntityType-discrete,
)
