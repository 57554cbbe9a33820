-- ===== src/Executor/Typing/Searches.antt =====
-- `Executor.paths` of src/kdiff/analysis/graph_program.py over bindings of
-- the right type.
use knowledge_diffusion.Base.{
  All, All-append, Bool-cases, Key, List, Option, [], arith, if◌then◌else◌, inl, inr, leb, length,
  ltb, map, member, none, not, ok, refl, some, suc, true, zero, ℕ, ◌&&◌, ◌++◌, ◌==◌, ◌∷◌, ◌≡◌,
}
use knowledge_diffusion.Time
use knowledge_diffusion.Time.{Date, TimeRange, Window, Membership, membership}
use knowledge_diffusion.Graph.{Assertion}
use knowledge_diffusion.Values
use knowledge_diffusion.Values.{Value, EdgesValue}
use knowledge_diffusion.Claims.{Pool}
use knowledge_diffusion.Program
use knowledge_diffusion.Program.{Scope, type_in, PathArgs, AggregateArgs}
use knowledge_diffusion.Executor
use knowledge_diffusion.Executor.{Executor, target_of, is_entity_of, value_at}
use knowledge_diffusion.Executor.Paths.{
  leaves, opening, state_limit, Item, Search, Span, span_of, span_at, elapsed, path_of, next_item,
  report, arrive, cross, cross_if, visit, visit_all, expand_item, search, find_paths, comes_early,
  overlaps, sorted_edges, inspect, item_at, ids_in,
}
use knowledge_diffusion.Executor.Typing.{
  Safe, answers, fails, Anything, Safe->>=, Safe-raise_if, HasType, Typed, type_of, window_at-Safe,
}

-- The days of a path can be counted once its first assertion is dated.
abbrev pub Dated : List Assertion → Type 0
Dated [] = Unit
Dated (first ∷ rest) = (s : Span) × (span_at first.valid_time ≡ some s)

abbrev pub AllDated : Search → Type 0
AllDated s = All (λ (i : Item). Dated i.trail) s.queue

Dated-append :
    (trail : List Assertion) (a : Assertion) (t : Span)
    → Dated trail
    → span_at a.valid_time ≡ some t
    → Dated (trail ++ a ∷ [])
Dated-append [] a t h e = (t, e)
Dated-append (first ∷ rest) a t h e = h

membership-span :
    (lower upper : Option Date) (w : Window)
    → Time.contained lower upper w ≡ true
    → (s : Span) × (span_of lower upper ≡ some s)
membership-span none upper w h = cc
membership-span (some a) none w h = cc
membership-span (some a) (some b) w h = (record { lower = a; upper = b }, refl)

membership-contained :
    (t : TimeRange) (w : Window)
    → membership t w ≡ Time.inside
    → Time.contained t.lower t.upper w ≡ true
unfolding membership
membership-contained t w h = ground arith

module _ (x : Executor) (args : PathArgs) (w : Window) (item : Item)
    (dated : Dated item.trail) where
  elapsed-Safe : (trail : List Assertion) (t : Span) → Dated trail → Safe Anything (elapsed trail t)
  elapsed-Safe [] t h = answers _ tt
  elapsed-Safe (first ∷ rest) t (s, e) = rw e (answers _ tt)

  path_of-Safe : (a : Assertion) (t : Span) → Safe Anything (path_of args item a t)
  path_of-Safe a t = Safe->>= (elapsed-Safe item.trail t dated) (λ days _. answers _ tt)

  report-Safe :
      (a : Assertion) (t : Span) (s : Search) → AllDated s → Safe AllDated (report args item a t s)
  report-Safe a t s h = Safe->>= (path_of-Safe a t) (λ p _.
      Safe-raise_if (ltb args.max_paths (length (s.found ++ p ∷ []))) Executor.path_budget refl
        (λ _. answers _ h))

  arrive-Safe :
      (a : Assertion) (t : Span) (s : Search)
      → span_at a.valid_time ≡ some t
      → AllDated s
      → Safe AllDated (arrive args item a t s)
  unfolding arrive
  arrive-Safe a t s e h = elim (Bool-cases (target_of args.out a == args.target_id)) [
    | inl b ↦ rw b (report-Safe a t s h)
    | inr b ↦ elim (Bool-cases (member (target_of args.out a) item.vertices)) [
      | inl c ↦ rw (b, c) (answers s h)
      | inr c ↦
          rw (b, c)
            (answers (record s { queue = s.queue ++ next_item args item a t ∷ [] })
              (All-append (λ (i : Item). Dated i.trail) s.queue (next_item args item a t ∷ []) h
                (Dated-append item.trail a t dated e, tt)))
    ]
  ]

  ordered-Safe :
      (a : Assertion) (t : Span) (s : Search)
      → span_at a.valid_time ≡ some t
      → AllDated s
      → Safe AllDated (if comes_early args item.previous t then ok s else arrive args item a t s)
  ordered-Safe a t s e h = elim (Bool-cases (comes_early args item.previous t)) [
    | inl b ↦ rw b (answers s h)
    | inr b ↦ rw b (arrive-Safe a t s e h)
  ]

  cross-Safe :
      (a : Assertion) (s : Search)
      → membership a.valid_time w ≡ Time.inside
      → AllDated s
      → Safe AllDated (cross x args item a s)
  unfolding cross
  cross-Safe a s e h =
      let (t, f) =
        membership-span a.valid_time.lower a.valid_time.upper w
          (membership-contained a.valid_time w e) in
      Safe-raise_if (not (is_entity_of x (target_of args.out a))) Executor.endpoint_missing refl
        (λ _. rw f (
          Safe-raise_if (comes_early args item.previous t && overlaps item.previous t)
            Executor.ambiguous_order refl (λ _. ordered-Safe a t s f h)))

  cross_if-Safe :
      (m : Membership) (a : Assertion) (s : Search)
      → membership a.valid_time w ≡ m
      → AllDated s
      → Safe AllDated (cross_if m x args item a s)
  cross_if-Safe Time.inside a s e h = cross-Safe a s e h
  cross_if-Safe Time.outside a s e h = answers s h
  cross_if-Safe Time.indeterminate a s e h = fails _ refl

  visit-Safe : (a : Assertion) (s : Search) → AllDated s → Safe AllDated (visit x args w item a s)
  unfolding visit
  visit-Safe a s h = elim (Bool-cases (leaves args item a)) [
    | inl b ↦ rw b (cross_if-Safe (membership a.valid_time w) a (inspect a s) refl h)
    | inr b ↦ rw b (answers s h)
  ]

  visit_all-Safe :
      (as' : List Assertion) (s : Search)
      → AllDated s
      → Safe AllDated (visit_all x args w item as' s)
  unfolding visit_all
  visit_all-Safe [] s h = answers s h
  visit_all-Safe (a ∷ as') s h = Safe->>= (visit-Safe a s h) (λ s' k. visit_all-Safe as' s' k)

  expand_item-Safe : (s : Search) → AllDated s → Safe AllDated (expand_item x args w item s)
  expand_item-Safe s h = elim (Bool-cases (leb args.max_hops (length item.trail))) [
    | inl e ↦ rw e (answers s h)
    | inr e ↦ rw e (visit_all-Safe (sorted_edges x) s h)
  ]

search-Safe :
    (x : Executor) (args : PathArgs) (w : Window) (budget : ℕ) (items : List Item) (s : Search)
    → All (λ (i : Item). Dated i.trail) items
    → Safe Anything (search budget x args w items s)
unfolding search
search-Safe x args w budget [] s h = answers s tt
search-Safe x args w zero (item ∷ items) s h = fails _ refl
search-Safe x args w (suc budget) (item ∷ items) s (d, h) =
    Safe->>= (expand_item-Safe x args w item d (record s { queue = items }) h)
      (λ s' k. search-Safe x args w budget s'.queue s' k)

module _ (x : Executor) (scope : Scope) (values : Pool) (typed : Typed x scope values) where
  fresh-Dated : (ids : List Key) → All (λ (i : Item). Dated i.trail) (map item_at ids)
  fresh-Dated [] = tt
  fresh-Dated (id ∷ ids) = (tt, fresh-Dated ids)

  ids_in-Safe : (v : Value) → type_of v ≡ Program.entities_type → Safe Anything (ids_in v)
  ids_in-Safe (Values.entities ids kind inputs) h = answers ids tt
  ids_in-Safe (Values.edges e) h = answers _ tt
  ids_in-Safe (Values.aggregate a) h = answers _ tt
  ids_in-Safe (Values.window _) h = cc
  ids_in-Safe (Values.paths _) h = cc
  ids_in-Safe (Values.comparison _) h = cc
  ids_in-Safe (Values.event_trace _) h = cc
  ids_in-Safe (Values.mobility_returns _) h = cc
  ids_in-Safe (Values.state _ _) h = cc
  ids_in-Safe (Values.provenance _ _ _) h = cc

  pub find_paths-Safe :
      (args : PathArgs)
      → type_in scope args.window ≡ some Program.window_type
      → type_in scope args.input ≡ some Program.entities_type
      → Safe (HasType x Program.paths_type) (find_paths x args values)
  unfolding find_paths
  find_paths-Safe args h k =
      let (v, e, (t, g)) = typed args.input Program.entities_type k in
      Safe-raise_if (not (is_entity_of x args.target_id)) Executor.target_missing refl (λ _.
        Safe->>= (window_at-Safe x scope values typed args.window h) (λ w _. rw e (
          Safe->>= (ids_in-Safe v t) (λ ids _.
            Safe->>=
              (search-Safe x args w state_limit (map item_at ids) (opening ids) (fresh-Dated ids))
              (λ s _. answers _ (refl, tt))))))
