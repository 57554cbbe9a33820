-- ===== src/Temporal/Examples.antt =====
-- The theorems on affiliations at an author who returns to a first institution, and runs.
use knowledge_diffusion.Base.{
  In, Key, List, Option, [], arith, false, inl, none, ok, pos, refl, some, true, ℕ, ◌∷◌, ◌≡◌,
}
use knowledge_diffusion.Time
use knowledge_diffusion.Time.{Date, TimeRange, Window, ordinal, is_date, make_date, valid_range}
use knowledge_diffusion.Time.Placement.{Admits}
use knowledge_diffusion.Graph
use knowledge_diffusion.Graph.{Assertion, Entity}
use knowledge_diffusion.Values.{TraceEvent, TraceState, ReturnMove, Trace, Returns}
use knowledge_diffusion.Temporal
use knowledge_diffusion.Temporal.{Endpoints, activity, iso_text, endpoints}
use knowledge_diffusion.Temporal.Trace.{event_trace, collect_events}
use knowledge_diffusion.Temporal.Moves.{consider, find_moves, return_moves}
use knowledge_diffusion.Temporal.Status.{Says, activity-Says}
use knowledge_diffusion.Temporal.Printing.{exactly}
use knowledge_diffusion.Temporal.Itineraries.{Dates, stay_of, Returned, return_moves-Returned}

abbrev date : ℕ → ℕ → ℕ → Date
date y m d = record { year = y; month = m; day = d }

abbrev years : Window
years = record {
  start = date 2010 1 1;
  end = date 2020 12 31;
  reference_date = date 2021 1 1;
  normalization = Time.explicit_inclusive;
}

leap_day : is_date 2024 2 29 ≡ true
unfolding is_date
leap_day = refl

abbrev or_date : Option Date → Date
or_date none = date 2000 1 1
or_date (some d) = d

-- An employment from one day to another.
abbrev stay : Date → Date → Endpoints
stay start end = record { start = exactly start; end = exactly end; end_kind = Time.bounded }

-- A date as its own range admits it.
admitted : (d : Date) → Admits (exactly d) d
admitted d = (omega arith, omega arith)

admitted_pair : (d e : Date) → Admits (exactly d) d × Admits (exactly e) e
admitted_pair d e = (admitted d, admitted e)

activity-Says_example :
    Says
      (activity (stay (date 2012 1 1) (date 2014 6 30)) (date 2013 5 5) (date 2021 1 1))
      (stay (date 2012 1 1) (date 2014 6 30))
      (date 2013 5 5)
      (date 2021 1 1)
      (date 2012 1 1)
      (date 2014 6 30)
activity-Says_example =
    activity-Says (stay (date 2012 1 1) (date 2014 6 30)) (date 2013 5 5) (date 2021 1 1)
      (date 2012 1 1) (date 2014 6 30) (admitted (date 2012 1 1)) (admitted (date 2014 6 30))

abbrev event : Key → Key → Date → Date → TraceEvent
event id institution start end = record {
  assertion_id = id;
  institution_id = institution;
  relation = Graph.affiliated_with;
  start = exactly start;
  end = exactly end;
  end_kind = Time.bounded;
}

abbrev first : TraceEvent
first = event 100 2 (date 2012 1 1) (date 2013 12 31)

abbrev away : TraceEvent
away = event 101 3 (date 2014 2 1) (date 2015 12 31)

abbrev back : TraceEvent
back = event 102 2 (date 2016 2 1) (date 2018 12 31)

abbrev move : ReturnMove
move = record {
  institutions = 2 ∷ 3 ∷ 2 ∷ [];
  assertions = 100 ∷ 101 ∷ 102 ∷ [];
  minimum_days = 1492;
  maximum_days = pos 1492;
}

considered : consider years (first, away, back) ≡ some (true, move)
unfolding consider ordinal Time.days_before_year Time.days_before_month
considered = refl

abbrev appointment : Key → Key → Date → Date → Assertion
appointment id institution start end = record {
  assertion_id = id;
  head_id = 1;
  relation = Graph.affiliated_with;
  tail_id = institution;
  valid_time = record {
    lower = some start;
    upper = some end;
    precision = Time.interval;
    end_kind = Time.bounded;
    raw = none;
  };
  observation_kind = Graph.employment;
  source = 5;
  raw_artifact_pointer = 9;
  qualifiers = record {
    date_basis = false;
    contributing_ids = false;
    role = none;
    role_title = none;
    institution_ids = [];
    start_uncertainty = some (exactly start);
    end_uncertainty = some (exactly end);
  };
}

abbrev people : List Entity
people = record { canonical_id = 1; namespace = 7; kind = Graph.author; is_site = false } ∷ []

abbrev appointments : List Assertion
appointments =
    appointment 100 2 (date 2012 1 1) (date 2013 12 31)
    ∷ appointment 101 3 (date 2014 2 1) (date 2015 12 31)
    ∷ appointment 102 2 (date 2016 2 1) (date 2018 12 31)
    ∷ []

abbrev returns : Returns
returns = record {
  author_id = 1;
  returns = move ∷ [];
  ambiguous_candidates = [];
  input_ids = 100 ∷ 101 ∷ 102 ∷ [];
  window = years;
}

returned : return_moves people appointments 1 years ≡ ok returns
unfolding return_moves event_trace collect_events endpoints activity Temporal.active_status
    find_moves consider ordinal Time.days_before_year Time.days_before_month
returned = refl

abbrev state : Date → List Key → TraceState
state at active = record {
  at = at;
  active_affiliations = active;
  uncertain_affiliations = [];
  papers = [];
  uncertain_papers = [];
  collaborators = [];
  topics = [];
  grants = [];
  patents = [];
}

abbrev trace : Trace
trace = record {
  author_id = 1;
  events = first ∷ away ∷ back ∷ [];
  states =
      state (date 2010 1 1) []
      ∷ state (date 2012 1 1) (2 ∷ [])
      ∷ state (date 2013 12 31) (2 ∷ [])
      ∷ state (date 2014 2 1) (3 ∷ [])
      ∷ state (date 2015 12 31) (3 ∷ [])
      ∷ state (date 2016 2 1) (2 ∷ [])
      ∷ state (date 2018 12 31) (2 ∷ [])
      ∷ state (date 2020 12 31) []
      ∷ [];
  input_ids = 100 ∷ 101 ∷ 102 ∷ [];
  bibliometric_affiliation_ids = [];
  window = years;
}

abbrev actual : Dates
actual = record { start = λ e. or_date e.start.lower; end = λ e. or_date e.end.lower }

traced : event_trace people appointments 1 years ≡ ok trace
unfolding event_trace collect_events endpoints activity Temporal.active_status ordinal
    Time.days_before_year Time.days_before_month
traced = refl

return_moves-Returned_example :
    (a : TraceEvent) × (b : TraceEvent) × (c : TraceEvent) × (In a trace.events
      × In b trace.events
      × In c trace.events)
    × Returned years a b c move (stay_of actual a b c)
return_moves-Returned_example =
    return_moves-Returned people appointments 1 years trace returns move actual traced returned
      (inl refl)
      (
        admitted_pair (date 2012 1 1) (date 2013 12 31),
        (
          admitted_pair (date 2014 2 1) (date 2015 12 31),
          (admitted_pair (date 2016 2 1) (date 2018 12 31), tt),
        ),
      )
