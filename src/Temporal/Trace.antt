-- ===== src/Temporal/Trace.antt =====
-- `event_trace` of src/kdiff/analysis/temporal.py.
use knowledge_diffusion.Base.{
  Bool, Key, List, Option, Result, [], all, any, concat_map, dict, distinct, err, false,
  if◌then◌else◌, leb, map, member, none, not, ok, raise_if, select, some, sort_by, sorted, true,
  ◌&&◌, ◌++◌, ◌==◌, ◌>>=◌, ◌>>◌, ◌||◌, ◌∷◌,
}
use knowledge_diffusion.Time
use knowledge_diffusion.Time.{Date, TimeRange, TimeError, Window, ordinal}
use knowledge_diffusion.Graph
use knowledge_diffusion.Graph.{Assertion, Relation, Entity}
use knowledge_diffusion.Values.{TraceEvent, TraceState, Trace, same_relation}
use knowledge_diffusion.Temporal.{
  Endpoints, endpoints, Activity, active, unknown_activity, active_status, reached,
}

pub data TraceError : Type 0 where
  unknown_author event_budget : TraceError
  in_range : TimeError → TraceError

abbrev pub is_affiliation : Relation → Bool
is_affiliation Graph.affiliated_with = true
is_affiliation Graph.visiting_at = true
is_affiliation Graph.emeritus_at = true
is_affiliation _ = false

abbrev pub is_employment : Graph.ObservationKind → Bool
is_employment Graph.employment = true
is_employment _ = false

abbrev pub is_publication : Graph.ObservationKind → Bool
is_publication Graph.publication = true
is_publication _ = false

abbrev pub affiliations_of : Key → List Assertion → List Assertion
affiliations_of author edges =
    select
      (λ a. a.head_id == author && is_affiliation a.relation && is_employment a.observation_kind)
      edges

abbrev pub authorships_of : Key → List Assertion → List Assertion
authorships_of author edges =
    select (λ a. a.head_id == author && same_relation a.relation Graph.author_of) edges

abbrev pub bibliometric_of : Key → List Assertion → List Key
bibliometric_of author edges =
    map (λ a. a.assertion_id)
      (select
        (λ a.
          a.head_id == author
          && same_relation a.relation Graph.affiliated_with
          && is_publication a.observation_kind)
        edges)

-- The dates of a list that are known and in the window.
abbrev pub dated : Window → List (Option Date) → List Date
dated w [] = []
dated w (none ∷ ds) = dated w ds
dated w (some d ∷ ds) =
    let rest = dated w ds in
    if leb (ordinal w.start) (ordinal d) && leb (ordinal d) (ordinal w.end) then d ∷ rest else rest

abbrev pub event_of : Assertion → Endpoints → TraceEvent
event_of a e = record {
  assertion_id = a.assertion_id;
  institution_id = a.tail_id;
  relation = a.relation;
  start = e.start;
  end = e.end;
  end_kind = e.end_kind;
}

-- The events of the affiliations, and the dates of their endpoints.
unfoldable pub collect_events :
    Window → List Assertion → Result TimeError (List TraceEvent × List Date)
unfolding endpoints
collect_events w [] = ok ([], [])
collect_events w (a ∷ as') = do
  e ← endpoints a
  rest ← collect_events w as'
  ok (
    event_of a e ∷ rest.0,
    dated w (e.start.lower ∷ e.start.upper ∷ e.end.lower ∷ e.end.upper ∷ []) ++ rest.1,
  )

abbrev pub publication_dates : Window → List Assertion → List Date
publication_dates w authorships =
    concat_map (λ a. dated w (a.valid_time.lower ∷ a.valid_time.upper ∷ [])) authorships

pub data Recording : Type 0 where
  recorded future unclear : Recording

abbrev pub recording : TimeRange → Date → Recording
recording t at =
    if reached t.upper at then recorded else if Time.known_after t.lower at then future else unclear

abbrev pub is_recorded : Recording → Bool
is_recorded recorded = true
is_recorded _ = false

abbrev pub is_future : Recording → Bool
is_future future = true
is_future _ = false

-- `by_paper[paper]`
abbrev pub recordings : Key → Date → List Assertion → List Recording
recordings paper at authorships =
    map (λ a. recording a.valid_time at) (select (λ a. a.tail_id == paper) authorships)

abbrev pub papers_by : Date → List Assertion → List Key
papers_by at authorships =
    select (λ p. all is_recorded (recordings p at authorships))
      (distinct (map (λ a. a.tail_id) authorships))

abbrev pub unknown_papers_by : Date → List Assertion → List Key
unknown_papers_by at authorships =
    select
      (λ p.
        not (all is_recorded (recordings p at authorships))
        && not (all is_future (recordings p at authorships)))
      (distinct (map (λ a. a.tail_id) authorships))

-- The institutions whose affiliation has an activity at a date.
abbrev pub with_activity :
    (Activity → Bool) → Date → Date → List Assertion → Result TimeError (List Key)
with_activity wanted at reference [] = ok []
with_activity wanted at reference (a ∷ as') = do
  status ← active_status a at reference
  rest ← with_activity wanted at reference as'
  ok (if wanted status then a.tail_id ∷ rest else rest)

abbrev pub is_active : Activity → Bool
is_active active = true
is_active _ = false

abbrev pub is_unknown : Activity → Bool
is_unknown unknown_activity = true
is_unknown _ = false

-- Authors of the recorded papers, but for the subject.
abbrev pub is_collaboration : Key → List Key → Assertion → Bool
is_collaboration author papers a =
    same_relation a.relation Graph.author_of && member a.tail_id papers && not (a.head_id == author)

abbrev pub about_paper : Relation → List Key → Assertion → Bool
about_paper relation papers a = member a.head_id papers && same_relation a.relation relation

abbrev pub tails : List Assertion → List Key
tails as' = sorted (distinct (map (λ a. a.tail_id) as'))

abbrev pub state_at : Key → Window → List Assertion → Date → Result TimeError TraceState
state_at author w edges at = do
  let authorships = authorships_of author edges
  let papers = papers_by at authorships
  certain ← with_activity is_active at w.reference_date (affiliations_of author edges)
  uncertain ← with_activity is_unknown at w.reference_date (affiliations_of author edges)
  ok (record {
    at = at;
    active_affiliations = sorted (distinct certain);
    uncertain_affiliations = sorted (distinct uncertain);
    papers = sorted papers;
    uncertain_papers = sorted (unknown_papers_by at authorships);
    collaborators =
        sorted (distinct (map (λ a. a.head_id) (select (is_collaboration author papers) edges)));
    topics = tails (select (about_paper Graph.classified_as papers) edges);
    grants = tails (select (about_paper Graph.funded_by papers) edges);
    patents = tails (
        select (λ a. about_paper Graph.cited_by_patent papers a && reached a.valid_time.upper at)
          edges);
  })

-- The assertions that the state at a date reads besides affiliations and authorships.
abbrev pub state_inputs : Key → List Assertion → Date → List Key
state_inputs author edges at =
    let papers = papers_by at (authorships_of author edges) in
    map (λ a. a.assertion_id)
      (select
        (λ a.
          is_collaboration author papers a
          || about_paper Graph.classified_as papers a
          || about_paper Graph.funded_by papers a
          || about_paper Graph.cited_by_patent papers a)
        edges)

abbrev pub states_at :
    Key → Window → List Assertion → List Date → Result TimeError (List TraceState)
states_at author w edges [] = ok []
states_at author w edges (at ∷ dates) = do
  state ← state_at author w edges at
  rest ← states_at author w edges dates
  ok (state ∷ rest)

abbrev pub ranged {ℓ} : {A : Type ℓ} → Result TimeError A → Result TraceError A
ranged (ok a) = ok a
ranged (err e) = err (in_range e)

abbrev pub is_author : Key → Entity → Bool
is_author id e = e.canonical_id == id && Graph.same_kind e.kind Graph.author

unfoldable pub event_trace : List Entity → List Assertion → Key → Window → Result TraceError Trace
event_trace entities edges author w = do
  raise_if (not (any (is_author author) entities)) unknown_author
  let affiliations = affiliations_of author edges
  let authorships = authorships_of author edges
  collected ← ranged (collect_events w affiliations)
  let dates =
      sort_by ordinal
        (dict ordinal (w.start ∷ w.end ∷ collected.1 ++ publication_dates w authorships))
  states ← ranged (states_at author w edges dates)
  ok (record {
    author_id = author;
    events = sort_by (λ e. e.assertion_id) collected.0;
    states = states;
    input_ids = sorted (
        distinct (
          map (λ a. a.assertion_id) (affiliations ++ authorships)
          ++ concat_map (state_inputs author edges) dates));
    bibliometric_affiliation_ids = sorted (bibliometric_of author edges);
    window = w;
  })
