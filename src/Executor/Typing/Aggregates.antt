-- ===== src/Executor/Typing/Aggregates.antt =====
-- `Executor.aggregate` of src/kdiff/analysis/graph_program.py over bindings of the right type.
use knowledge_diffusion.Base.{
  All, Bool, Bool-cases, Key, List, Option, Option-cases, Result, [], arith, err, false, inl, inr,
  is_key, is_some, none, not, ok, refl, some, true, ℕ, ◌&&◌, ◌||◌, ◌∷◌, ◌≡◌, ◌⊎◌,
}
use mathlib.Core.Path.{subst}
use knowledge_diffusion.Time.{Window}
use knowledge_diffusion.Graph
use knowledge_diffusion.Graph.{Assertion}
use knowledge_diffusion.Values.{EdgesValue, same_relation}
use knowledge_diffusion.Claims.{Pool}
use knowledge_diffusion.Program
use knowledge_diffusion.Program.{
  Scope, type_in, AggregateArgs, Metric, output_of_metric, is_count, by_authorship,
}
use knowledge_diffusion.Temporal.Trace.{TraceError, event_trace}
use knowledge_diffusion.Temporal.Moves.{return_moves}
use knowledge_diffusion.Executor
use knowledge_diffusion.Executor.{Executor, ExecError, trace_failed}
use knowledge_diffusion.Executor.Counting.{
  check_events, traced, measure, kept_rows, tally, count_rows, count_edges, trace_edges, aggregate,
  with_year, input_ids_of, year_of, all_inside, all_outside, is_attributed, lacks_topic,
  lacks_source, windows_differ, from_source, group_of, objects_of,
}
use knowledge_diffusion.Executor.Typing.{
  Safe, answers, fails, Anything, Safe->>=, Safe-raise_if, Safe-or_raise, HasType, Typed, Known,
  KnownInputs, KnownEdges, window_at-Safe, rows_of-Safe, edges_at-Safe,
}

count_output : (m : Metric) → is_count m ≡ true → Program.aggregate_type ≡ output_of_metric m
count_output m h = ground arith

traced-Safe : {A : Type 0} (r : Result TraceError A) → Safe Anything (traced r)
traced-Safe (ok a) = answers a tt
traced-Safe (err e) = fails trace_failed refl

with_year-Safe :
    (by_year : Bool) (group : List Assertion) (series : List (ℕ × ℕ))
    → Safe Anything (with_year by_year group series)
with_year-Safe false group series = answers series tt
with_year-Safe true group series =
    Safe->>= (Safe-or_raise (year_of group) Executor.ambiguous_year refl) (λ y _. answers _ tt)

tally-Safe :
    (by_year : Bool) (group : Key → List Assertion) (w : Window) (objects : List Key)
    (series : List (ℕ × ℕ))
    → Safe Anything (tally by_year group w objects series)
unfolding tally
tally-Safe by_year group w [] series = answers _ tt
tally-Safe by_year group w (object ∷ objects) series =
    elim (Bool-cases (all_inside w (group object))) [
      | inl e ↦ rw e (
          Safe->>= (with_year-Safe by_year (group object) series) (λ series' _.
            Safe->>= (tally-Safe by_year group w objects series') (λ rest _. answers _ tt)))
      | inr e ↦ elim (Bool-cases (all_outside w (group object))) [
        | inl f ↦ rw (e, f) (tally-Safe by_year group w objects series)
        | inr f ↦ rw (e, f) (fails _ refl)
      ]
    ]

module _ (x : Executor) where
  check_events-Safe :
      (subject : Option Key) (ids : List Key)
      → All (Known x) ids
      → Safe {A = Unit {0}} Anything (check_events x subject ids)
  check_events-Safe subject [] h = answers tt tt
  check_events-Safe subject (id ∷ ids) ((a, e), h) = rw e (
      Safe-raise_if
        (not (is_key a.head_id subject) || not (same_relation a.relation Graph.affiliated_with))
        Executor.wrong_events refl (λ _. check_events-Safe subject ids h))

  measure-Safe :
      (metric : Metric) (subject : Key) (w : Window)
      → is_count metric ≡ false
      → Safe (HasType x (output_of_metric metric)) (measure x metric subject w)
  measure-Safe Program.count subject w h = cc
  measure-Safe Program.event_trace subject w h =
      Safe->>= (traced-Safe (event_trace x.graph.entities x.graph.assertions subject w))
        (λ t _. answers _ (refl, tt))
  measure-Safe Program.mobility_returns subject w h =
      Safe->>= (traced-Safe (return_moves x.graph.entities x.graph.assertions subject w))
        (λ t _. answers _ (refl, tt))

  kept_rows-Safe :
      (args : AggregateArgs) (is_tail : Bool) (rows : List Assertion)
      → Safe Anything (kept_rows x args is_tail rows)
  unfolding kept_rows
  kept_rows-Safe args is_tail [] = answers [] tt
  kept_rows-Safe args is_tail (a ∷ rows) =
      Safe-raise_if
        (by_authorship args.attribution
          && (not (same_relation a.relation Graph.author_of) || not is_tail))
        Executor.not_authorship refl
        (λ _.
          Safe-raise_if (is_attributed args a && lacks_topic x args.topic_id) Executor.topic_absent
            refl (λ _. Safe->>= (kept_rows-Safe args is_tail rows) (λ rest _. answers _ tt)))

  known_inputs :
      (filtered : Option (List Key)) (ids : List Key)
      → All (Known x) ids
      → KnownInputs x filtered
      → All (Known x) (elim filtered [ none ↦ ids | some inputs ↦ inputs ])
  known_inputs none ids h k = h
  known_inputs (some inputs) ids h k = k

  inputs-Known : (e : EdgesValue) → KnownEdges x e → All (Known x) (input_ids_of e)
  inputs-Known e h = known_inputs e.filter_input_ids e.ids h.0 h.1

  count_rows-Safe :
      (args : AggregateArgs) (e : EdgesValue) (w : Window)
      → KnownEdges x e
      → Safe Anything (count_rows x args e w)
  unfolding count_rows
  count_rows-Safe args e w h =
      Safe-raise_if (windows_differ e.window w) Executor.windows_disagree refl (λ _.
        Safe->>= (rows_of-Safe x (input_ids_of e) (inputs-Known e h)) (λ rows _.
          Safe-raise_if (lacks_source args.source x.graph.sources) Executor.source_absent refl (λ _.
            Safe->>= (kept_rows-Safe args e.target_is_tail (from_source args.source rows))
              (λ kept _.
                Safe->>=
                  (tally-Safe args.by_year (group_of e.target_is_tail kept) w
                    (objects_of e.target_is_tail kept) [])
                  (λ counted _. answers _ tt)))))

  module _ (scope : Scope) (values : Pool) (typed : Typed x scope values)
      (args : AggregateArgs) where
    count_edges-Safe :
        (e : EdgesValue)
        → type_in scope args.window ≡ some Program.window_type
        → KnownEdges x e
        → Safe (HasType x Program.aggregate_type) (count_edges x args values e)
    count_edges-Safe e h g =
        Safe-raise_if (not (Graph.same_kind e.kind args.unit)) Executor.wrong_unit refl (λ _.
          Safe->>= (window_at-Safe x scope values typed args.window h)
            (λ w _. Safe->>= (count_rows-Safe args e w g) (λ a _. answers _ (refl, tt))))

    trace_edges-Safe :
        (e : EdgesValue) (subject : Key)
        → args.subject_id ≡ some subject
        → is_count args.metric ≡ false
        → type_in scope args.window ≡ some Program.window_type
        → KnownEdges x e
        → Safe (HasType x (output_of_metric args.metric)) (trace_edges x args values e)
    trace_edges-Safe e subject f c h g =
        Safe->>= (check_events-Safe args.subject_id e.ids g.0) (λ _ _. rw f (
          Safe->>= (window_at-Safe x scope values typed args.window h)
            (λ w _. measure-Safe args.metric subject w c)))

    pub aggregate-Safe :
        (is_count args.metric ≡ true) ⊎ (is_some args.subject_id ≡ true)
        → type_in scope args.window ≡ some Program.window_type
        → type_in scope args.input ≡ some Program.edges_type
        → Safe (HasType x (output_of_metric args.metric)) (aggregate x args values)
    unfolding aggregate
    aggregate-Safe v h k = Safe->>= (edges_at-Safe x scope values typed args.input k) (λ e g.
        elim (Bool-cases (is_count args.metric)) [
          | inl c ↦ rw c (
              subst (λ t. Safe (HasType x t) (count_edges x args values e))
                (count_output args.metric c) (count_edges-Safe e h g))
          | inr c ↦ elim (Option-cases args.subject_id) [
            | inl n ↦ absurd (ground (arith, v, c, n))
            | inr (subject, f) ↦ rw c (trace_edges-Safe e subject f c h g)
          ]
        ])
