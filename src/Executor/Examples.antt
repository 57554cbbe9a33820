-- ===== src/Executor/Examples.antt =====
-- The theorems on the operators of graph programs at a release with two papers of one author.
use knowledge_diffusion.Base.{In, Key, [], false, none, ok, pos, refl, some, true, ℕ, ◌↔◌, ◌∷◌, ◌≡◌}
use knowledge_diffusion.Time
use knowledge_diffusion.Time.{Date, TimeRange, Window, ordinal, membership}
use knowledge_diffusion.Graph
use knowledge_diffusion.Graph.{Assertion, Entity, EntityType, Relation}
use knowledge_diffusion.Values
use knowledge_diffusion.Values.{
  Value, EdgesValue, PathsValue, FoundPath, AggregateValue, ComparisonValue,
}
use knowledge_diffusion.Claims.{Pool}
use knowledge_diffusion.Program
use knowledge_diffusion.Program.{
  Call, Step, GraphProgram, ResultType, ExpandArgs, FilterArgs, PathArgs, AggregateArgs,
  CompareArgs, Scope, valid_program, check_steps, check_step, valid_call, typed_call,
}
use knowledge_diffusion.Executor
use knowledge_diffusion.Executor.{
  Executor, Export, Dialogue, new_executor, expand, filter_interval, overlap,
}
use knowledge_diffusion.Executor.Counting.{count_rows, kept_rows, tally}
use knowledge_diffusion.Executor.Counting.Exactness.{Counted, count_rows-Counted}
use knowledge_diffusion.Executor.Comparing.{compare}
use knowledge_diffusion.Executor.Comparing.Ratios.{Compared, compare-Compared}
use knowledge_diffusion.Executor.Expansion.{
  Expanded, Filtered, expand-Expanded, filter_interval-Filtered,
}
use knowledge_diffusion.Executor.Paths.{
  find_paths, search, visit_all, visit, cross, arrive, item_at,
}
use knowledge_diffusion.Executor.Paths.Walks.{Leads}
use knowledge_diffusion.Executor.Paths.Exactness.{find_paths-Leads}

abbrev pub date : ℕ → ℕ → ℕ → Date
date y m d = record { year = y; month = m; day = d }

abbrev pub on : Date → TimeRange
on d = record {
  lower = some d;
  upper = some d;
  precision = Time.day;
  end_kind = Time.bounded;
  raw = none;
}

abbrev pub year : ℕ → Window
year y = record {
  start = date y 1 1;
  end = date y 12 31;
  reference_date = date 2024 1 1;
  normalization = Time.explicit_inclusive;
}

abbrev pub entity : Key → EntityType → Entity
entity id kind = record { canonical_id = id; namespace = 7; kind = kind; is_site = false }

abbrev pub edge : Key → Key → Relation → Key → Date → Assertion
edge id head relation tail d = record {
  assertion_id = id;
  head_id = head;
  relation = relation;
  tail_id = tail;
  valid_time = on d;
  observation_kind = Graph.publication;
  source = 5;
  raw_artifact_pointer = 9;
  qualifiers = record {
    date_basis = false;
    contributing_ids = false;
    role = none;
    role_title = none;
    institution_ids = [];
    start_uncertainty = none;
    end_uncertainty = none;
  };
}

abbrev pub release : Executor
release = record {
  graph = record {
    entities = [];
    observations = [];
    assertions = [];
    identities = [];
    sources = record { source = 5; sha256 = 9 } ∷ [];
  };
  release_id = 3;
  entities =
      entity 1 Graph.author
      ∷ entity 10 Graph.paper
      ∷ entity 11 Graph.paper
      ∷ entity 20 Graph.topic
      ∷ [];
  edges =
      edge 100 1 Graph.author_of 10 (date 2020 3 1)
      ∷ edge 101 1 Graph.author_of 11 (date 2021 3 1)
      ∷ edge 102 10 Graph.classified_as 20 (date 2020 3 11)
      ∷ [];
}

abbrev pub papers_args : ExpandArgs
papers_args = record {
  input = 0;
  relation = Graph.author_of;
  out = true;
  head_kind = Graph.author;
  tail_kind = Graph.paper;
  max_edges = 1000;
}

abbrev pub subject : Value
subject = Values.entities (1 ∷ []) Graph.author []

abbrev pub authorships : EdgesValue
authorships = record {
  ids = 100 ∷ 101 ∷ [];
  target_is_tail = true;
  kind = Graph.paper;
  filter_input_ids = none;
  window = none;
}

abbrev pub values : Pool
values = (2, Values.edges authorships) ∷ (1, Values.window (year 2020)) ∷ (0, subject) ∷ []

expand-papers : expand release papers_args values ≡ ok (Values.edges authorships)
unfolding expand
expand-papers = refl

expand-Expanded_example : Expanded release papers_args (1 ∷ []) authorships
expand-Expanded_example =
    expand-Expanded release papers_args values subject (1 ∷ []) Graph.author authorships refl refl
      expand-papers

abbrev pub filter_args : FilterArgs
filter_args = record { input = 2; window = 1; contained = true }

abbrev pub in_2020 : EdgesValue
in_2020 = record authorships {
  ids = 100 ∷ [];
  filter_input_ids = some (100 ∷ 101 ∷ []);
  window = some (year 2020);
}

filter_interval_2020 : filter_interval release filter_args values ≡ ok (Values.edges in_2020)
unfolding filter_interval Executor.filtered membership ordinal Time.days_before_year
    Time.days_before_month
filter_interval_2020 = refl

filter_interval-Filtered_example : Filtered release filter_args (year 2020) authorships in_2020
filter_interval-Filtered_example =
    filter_interval-Filtered release filter_args values authorships in_2020 (year 2020) refl refl
      filter_interval_2020

abbrev pub path_args : PathArgs
path_args = record {
  input = 0;
  target_id = 20;
  relations = Graph.author_of ∷ Graph.classified_as ∷ [];
  out = true;
  window = 1;
  max_hops = 3;
  max_paths = 10;
  temporal_rule = Values.nondecreasing;
}

abbrev pub to_topic : FoundPath
to_topic = record {
  assertions = 100 ∷ 102 ∷ [];
  entities = 1 ∷ 10 ∷ 20 ∷ [];
  minimum_days = 10;
  maximum_days = 10;
}

abbrev pub found_paths : PathsValue
found_paths = record {
  found = to_topic ∷ [];
  input_ids = 100 ∷ 101 ∷ 102 ∷ [];
  max_hops = 3;
  temporal_rule = Values.nondecreasing;
  window = year 2020;
}

find_paths_topic : find_paths release path_args values ≡ ok (Values.paths found_paths)
unfolding find_paths search visit_all visit cross arrive membership ordinal Time.days_before_year
    Time.days_before_month
find_paths_topic = refl

find_paths-Leads_example :
    In to_topic found_paths.found
    ↔ ((id : Key) × In id (1 ∷ []) × Leads release path_args (year 2020) (item_at id) to_topic)
find_paths-Leads_example =
    find_paths-Leads release path_args values (year 2020) (1 ∷ []) Graph.author [] found_paths
      to_topic refl refl find_paths_topic

abbrev pub count_args : AggregateArgs
count_args = record {
  input = 2;
  window = 1;
  unit = Graph.paper;
  attribution = Values.recorded_relation;
  institution_id = none;
  topic_id = none;
  source = some 5;
  by_year = true;
  metric = Program.count;
  subject_id = none;
}

abbrev pub one_paper : AggregateValue
one_paper = record {
  value = 1;
  ids = 10 ∷ [];
  input_ids = 100 ∷ 101 ∷ [];
  unit = Graph.paper;
  attribution = Values.recorded_relation;
  institution_id = none;
  topic_id = none;
  source = some 5;
  window = year 2020;
  series = (2020, 1) ∷ [];
}

count_rows_2020 : count_rows release count_args authorships (year 2020) ≡ ok one_paper
unfolding count_rows kept_rows tally membership ordinal Time.days_before_year Time.days_before_month
count_rows_2020 = refl

count_rows-Counted_example :
    Counted release count_args true
      (edge 100 1 Graph.author_of 10 (date 2020 3 1)
        ∷ edge 101 1 Graph.author_of 11 (date 2021 3 1)
        ∷ [])
      (year 2020)
      one_paper
count_rows-Counted_example =
    count_rows-Counted release count_args authorships (year 2020)
      (edge 100 1 Graph.author_of 10 (date 2020 3 1)
        ∷ edge 101 1 Graph.author_of 11 (date 2021 3 1)
        ∷ [])
      one_paper refl count_rows_2020

abbrev pub six_papers : AggregateValue
six_papers = record one_paper { value = 6; window = year 2020 }

abbrev pub four_papers : AggregateValue
four_papers = record one_paper { value = 4; window = year 2021 }

abbrev pub ratio_args : CompareArgs
ratio_args = record { left = 0; right = 1; operation = Values.ratio; matched_year_windows = true }

abbrev pub counts : Pool
counts = (0, Values.aggregate six_papers) ∷ (1, Values.aggregate four_papers) ∷ []

abbrev pub two_thirds : ComparisonValue
two_thirds = record {
  operation = Values.ratio;
  numerator = pos 2;
  denominator = 3;
  before = six_papers;
  after = four_papers;
}

compare_years : compare ratio_args counts ≡ ok (Values.comparison two_thirds)
unfolding compare ordinal Time.days_before_year Time.days_before_month
compare_years = refl

compare-Compared_example : Compared ratio_args six_papers four_papers two_thirds
compare-Compared_example =
    compare-Compared ratio_args counts six_papers four_papers two_thirds refl refl compare_years
