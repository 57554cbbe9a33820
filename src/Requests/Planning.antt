-- ===== src/Requests/Planning.antt =====
-- `plan_request` of src/kdiff/analysis/requests.py.
use knowledge_diffusion.Base.{
  Bool, Key, List, Option, Result, [], err, false, if◌then◌else◌, is_some, none, ok, or_raise, some,
  true, ◌++◌, ◌>>=◌, ◌||◌, ◌∷◌,
}
use knowledge_diffusion.Time.{Window}
use knowledge_diffusion.Graph
use knowledge_diffusion.Graph.{EntityType, Relation}
use knowledge_diffusion.Values
use knowledge_diffusion.Values.{Attribution, TemporalRule}
use knowledge_diffusion.Program
use knowledge_diffusion.Program.{
  Call, Step, GraphProgram, ProgramError, Metric, AggregateArgs, valid_program, within,
}
use knowledge_diffusion.Requests.{
  Family, Request, RequestError, is_institution, count, comparison, sites, path, timeline, state,
  returns, identity, no_windows, no_target, bad_program,
}
use knowledge_diffusion.Requests.Names.{
  subject_step, window_step, paths_step, authors_step, papers_step, after_step, before_window_step,
  before_step, comparison_step, relations_step, sites_step, announcements_step, trace_step,
  timeline_step, provenance_step,
}

-- `add`
abbrev pub add : Key → Call → List Key → Step
add id call deps = record { id = id; call = call; depends_on = deps }

-- `Expand` with the defaults of its direction and limit.
abbrev pub expansion : Key → Relation → Bool → EntityType → EntityType → Call
expansion input relation out head tail = Program.expand (record {
  input = input;
  relation = relation;
  out = out;
  head_kind = head;
  tail_kind = tail;
  max_edges = 1000;
})

-- `Aggregate` with the defaults of a count.
abbrev pub recorded : Key → EntityType → AggregateArgs
recorded input unit = record {
  input = input;
  window = window_step;
  unit = unit;
  attribution = Values.recorded_relation;
  institution_id = none;
  topic_id = none;
  source = none;
  by_year = false;
  metric = Program.count;
  subject_id = none;
}

-- `request.institution_id or …`
abbrev pub or_else : Option Key → Option Key → Option Key
or_else none k = k
or_else (some j) k = some j

abbrev pub by_publication : Request → Bool
by_publication r = is_institution r.kind || is_some r.institution_id

-- The arguments of the counts of papers.
abbrev pub papers_args : Request → Key → AggregateArgs
papers_args r window = record (recorded papers_step Graph.paper) {
  window = window;
  topic_id = r.topic_id;
  attribution =
      if by_publication r then Values.publication_authorship else Values.recorded_relation;
  institution_id = or_else r.institution_id (if is_institution r.kind then r.identifier else none);
}

abbrev pub opening_steps : Request → List Step
opening_steps r =
    add subject_step
      (Program.resolve (record {
        kind = r.kind;
        identifier = r.identifier;
        name = r.name;
        institution_id = r.institution;
        role = r.role;
        source_id = r.source;
      }))
      []
    ∷ add window_step (Program.normalize r.window) []
    ∷ []

abbrev pub papers_from : Key → Step
papers_from start =
    add papers_step (expansion start Graph.author_of true Graph.author Graph.paper) (start ∷ [])

abbrev pub count_steps : Request → List Step
count_steps r =
    (if is_institution r.kind
      then add authors_step
          (expansion subject_step Graph.affiliated_with false Graph.author Graph.institution)
          (subject_step ∷ [])
        ∷ papers_from authors_step
        ∷ []
      else papers_from subject_step ∷ [])
    ++ add after_step (Program.aggregate (papers_args r window_step))
        (papers_step ∷ window_step ∷ [])
      ∷ []

abbrev pub comparison_steps : Request → Window → List Step
comparison_steps r before =
    add before_window_step (Program.normalize before) []
    ∷ add before_step (Program.aggregate (papers_args r before_window_step))
        (papers_step ∷ before_window_step ∷ [])
    ∷ add comparison_step
        (Program.compare (record {
          left = before_step;
          right = after_step;
          operation = Values.ratio;
          matched_year_windows = true;
        }))
        (before_step ∷ after_step ∷ [])
    ∷ []

abbrev pub path_steps : Request → Key → List Step
path_steps r target =
    add paths_step
      (Program.path_search (record {
        input = subject_step;
        target_id = target;
        relations = r.relations;
        out = r.out;
        window = window_step;
        max_hops = r.max_hops;
        max_paths = 100;
        temporal_rule = r.temporal_rule;
      }))
      (subject_step ∷ window_step ∷ [])
    ∷ []

abbrev pub relation_steps : Request → Relation → List Step
relation_steps r relation =
    add relations_step (expansion subject_step relation true r.kind Graph.institution)
      (subject_step ∷ [])
    ∷ []

abbrev pub site_steps : List Step
site_steps =
    add sites_step (Program.aggregate (recorded relations_step Graph.institution))
      (relations_step ∷ window_step ∷ [])
    ∷ add announcements_step
        (expansion subject_step Graph.announced_site true Graph.institution Graph.institution)
        (subject_step ∷ [])
    ∷ []

abbrev pub trace_steps : Request → Metric → List Step
trace_steps r metric =
    add trace_step
      (Program.aggregate (record (recorded relations_step Graph.institution) {
        subject_id = r.identifier;
        metric = metric;
      }))
      (relations_step ∷ window_step ∷ [])
    ∷ []

abbrev pub timeline_steps : List Step
timeline_steps =
    add timeline_step
      (Program.filter_interval
        (record { input = relations_step; window = window_step; contained = false }))
      (relations_step ∷ window_step ∷ [])
    ∷ []

-- The steps of a family after the first two, and the output.
unfoldable pub family_steps : Family → Request → Result RequestError (List Step × Key)
family_steps identity r = ok ([], subject_step)
family_steps path r = do
  target ← or_raise r.target_id no_target
  ok (path_steps r target, paths_step)
family_steps count r = ok (count_steps r, after_step)
family_steps comparison r = do
  before ← or_raise r.before no_windows
  ok (count_steps r ++ comparison_steps r before, comparison_step)
family_steps sites r = ok (relation_steps r Graph.has_site ++ site_steps, sites_step)
family_steps state r =
    ok (relation_steps r Graph.affiliated_with ++ trace_steps r Program.event_trace, trace_step)
family_steps returns r =
    ok
      (relation_steps r Graph.affiliated_with ++ trace_steps r Program.mobility_returns, trace_step)
family_steps timeline r =
    ok (relation_steps r Graph.affiliated_with ++ timeline_steps, timeline_step)

abbrev pub validated : GraphProgram → Result RequestError GraphProgram
validated p = elim (valid_program p) [ ok q ↦ ok q | err e ↦ err (bad_program e) ]

unfoldable pub plan_request : Request → Key → Result RequestError GraphProgram
plan_request r release_id = do
  planned ← family_steps r.family r
  validated (record {
    release_id = release_id;
    steps =
        opening_steps r
        ++ planned.0
        ++ add provenance_step (Program.project planned.1) (planned.1 ∷ []) ∷ [];
    output = planned.1;
  })
