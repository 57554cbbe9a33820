-- ===== src/Executor/Typing/Operators.antt =====
-- The operators of `Executor` in src/kdiff/analysis/graph_program.py over bindings of the right
-- type: resolution, expansion, filtering and comparison.
use knowledge_diffusion.Base.{
  All, Bool, Bool-cases, In, In-select, Key, List, String, [], any, ap, arith, inl, inr,
  insert_sorted, leb, length, ltb, map, not, refl, row_at, select, some, sorted, ◌&&◌, ◌==◌, ◌||◌,
  ◌∷◌, ◌≡◌, ◌⊎◌,
}
use knowledge_diffusion.Time.{Window}
use knowledge_diffusion.Graph.{Assertion, EntityType}
use knowledge_diffusion.Values
use knowledge_diffusion.Values.{Value, EdgesValue}
use knowledge_diffusion.Claims.{Pool}
use knowledge_diffusion.Program
use knowledge_diffusion.Program.{
  Scope, type_in, ResultType, ResolveArgs, ExpandArgs, FilterArgs, CompareArgs,
}
use knowledge_diffusion.Executor
use knowledge_diffusion.Executor.{
  Executor, ExecError, edge_at, resolve, expand, expanded, filter_interval, filtered, rows_of,
  unique_match, matches_of, starts_of, is_inside, status_of, is_undated, is_entity_of, value_at,
  leads_from,
}
use knowledge_diffusion.Executor.Comparing.{
  compare, as_aggregate, same_policy, follows, matched, is_ratio,
}
use knowledge_diffusion.Executor.Typing.{
  Safe, answers, fails, Anything, Safe->>=, Safe-raise_if, HasType, Typed, Known, Grounded, type_of,
  rows_of-Safe, edges_at-Safe, window_at-Safe,
}

module _ (P : Key → Type 0) where
  All-insert_sorted : (k : Key) (xs : List Key) → P k → All P xs → All P (insert_sorted k xs)
  All-insert_sorted k [] p h = (p, tt)
  All-insert_sorted k (y ∷ ys) p (q, h) = elim (Bool-cases (leb k y)) [
    | inl e ↦ rw e (p, (q, h))
    | inr e ↦ rw e (q, All-insert_sorted k ys p h)
  ]

  All-sorted : (xs : List Key) → All P xs → All P (sorted xs)
  All-sorted [] h = tt
  All-sorted (x ∷ xs) (p, h) = All-insert_sorted x (sorted xs) p (All-sorted xs h)

edge_of :
    (edges : List Assertion) (a : Assertion)
    → In a edges
    → (b : Assertion) × (row_at (λ r. r.assertion_id) edges a.assertion_id ≡ some b)
edge_of [] a h = absurd h
edge_of (b ∷ edges) a h = elim (Bool-cases (b.assertion_id == a.assertion_id)) [
  | inl e ↦ (b, rw e refl)
  | inr e ↦ elim h [
    | inl same ↦ absurd (ground (arith, e, ap (λ r. r.assertion_id) same))
    | inr k ↦ let (c, f) = edge_of edges a k in (c, rw e f)
  ]
]

module _ (x : Executor) where
  graph_rows :
      (rows : List Assertion)
      → ((a : Assertion) → In a rows → In a x.edges)
      → All (Known x) (map (λ a. a.assertion_id) rows)
  graph_rows [] h = tt
  graph_rows (a ∷ rows) h =
      (edge_of x.edges a (h a (inl refl)), graph_rows rows (λ b k. h b (inr k)))

  unique_match-Safe :
      (casefold : String → String) (kind : EntityType) (matches : List Key)
      → Safe (HasType x Program.entities_type) (unique_match casefold x kind matches)
  unique_match-Safe casefold kind [] = fails _ refl
  unique_match-Safe casefold kind (id ∷ []) = answers _ (refl, tt)
  unique_match-Safe casefold kind (id ∷ j ∷ ids) = fails _ refl

  pub resolve-Safe :
      (casefold : String → String) (args : ResolveArgs)
      → Safe (HasType x Program.entities_type) (resolve casefold x args)
  unfolding resolve
  resolve-Safe casefold args = unique_match-Safe casefold args.kind (matches_of casefold x args)

  starts_of-Safe :
      (v : Value)
      → (type_of v ≡ Program.entities_type) ⊎ (type_of v ≡ Program.edges_type)
      → Grounded x v
      → Safe Anything (starts_of x v)
  starts_of-Safe (Values.entities ids kind inputs) h g = answers _ tt
  starts_of-Safe (Values.edges e) h g = Safe->>= (rows_of-Safe x e.ids g.0) (λ rows _. answers _ tt)
  starts_of-Safe (Values.window _) h g = ground arith
  starts_of-Safe (Values.paths _) h g = ground arith
  starts_of-Safe (Values.aggregate _) h g = ground arith
  starts_of-Safe (Values.comparison _) h g = ground arith
  starts_of-Safe (Values.event_trace _) h g = ground arith
  starts_of-Safe (Values.mobility_returns _) h g = ground arith
  starts_of-Safe (Values.state _ _) h g = ground arith
  starts_of-Safe (Values.provenance _ _ _) h g = ground arith

  expanded-Safe :
      (args : ExpandArgs) (rows : List Assertion)
      → ((a : Assertion) → In a rows → In a x.edges)
      → Safe (HasType x Program.edges_type) (expanded x args rows)
  expanded-Safe args rows h =
      let known = All-sorted (Known x) (map (λ a. a.assertion_id) rows) (graph_rows rows h) in
      Safe-raise_if (ltb args.max_edges (length rows)) Executor.edge_limit refl (λ _.
        Safe-raise_if
          (any (λ a. not (is_entity_of x a.head_id) || not (is_entity_of x a.tail_id)) rows)
          Executor.endpoint_missing refl (λ _. answers _ (refl, (known, tt))))

  filtered-Safe :
      (contained : Bool) (w : Window) (ids : List Key)
      → All (Known x) ids
      → Safe (All (Known x)) (filtered x contained w ids)
  unfolding filtered
  filtered-Safe contained w [] h = answers [] tt
  filtered-Safe contained w (id ∷ ids) ((a, e), h) = rw e (
      Safe-raise_if (is_undated (status_of contained a.valid_time w)) Executor.undated_filter refl
        (λ _. Safe->>= (filtered-Safe contained w ids h) (λ rest k.
          elim (Bool-cases (is_inside (status_of contained a.valid_time w))) [
            | inl b ↦ rw b (answers (id ∷ rest) ((a, e), k))
            | inr b ↦ rw b (answers rest k)
          ])))

  module _ (scope : Scope) (values : Pool) (typed : Typed x scope values) where
    initial-Safe :
        (id : Key)
        → (type_in scope id ≡ some Program.entities_type)
          ⊎ (type_in scope id ≡ some Program.edges_type)
        → Safe
            (λ v.
              ((type_of v ≡ Program.entities_type) ⊎ (type_of v ≡ Program.edges_type))
              × Grounded x v)
            (value_at values id)
    initial-Safe id (inl h) =
        let (v, e, (t, g)) = typed id Program.entities_type h in rw e (answers v (inl t, g))
    initial-Safe id (inr h) =
        let (v, e, (t, g)) = typed id Program.edges_type h in rw e (answers v (inr t, g))

    pub expand-Safe :
        (args : ExpandArgs)
        → (type_in scope args.input ≡ some Program.entities_type)
          ⊎ (type_in scope args.input ≡ some Program.edges_type)
        → Safe (HasType x Program.edges_type) (expand x args values)
    unfolding expand
    expand-Safe args h = Safe->>= (initial-Safe args.input h) (λ v k.
        Safe->>= (starts_of-Safe v k.0 k.1) (λ starts _.
          Safe-raise_if _ Executor.wrong_endpoint refl (λ _.
            expanded-Safe args (select (leads_from args starts.0) x.edges)
              (λ a i. (In-select (leads_from args starts.0) a x.edges i).0))))

    pub filter_interval-Safe :
        (args : FilterArgs)
        → type_in scope args.window ≡ some Program.window_type
        → type_in scope args.input ≡ some Program.edges_type
        → Safe (HasType x Program.edges_type) (filter_interval x args values)
    unfolding filter_interval
    filter_interval-Safe args h k =
        Safe->>= (edges_at-Safe x scope values typed args.input k) (λ e g.
          Safe->>= (window_at-Safe x scope values typed args.window h) (λ w _.
            Safe->>= (filtered-Safe args.contained w e.ids g.0)
              (λ ids j. answers _ (refl, (j, g.0)))))

  as_aggregate-Safe :
      (v : Value) → type_of v ≡ Program.aggregate_type → Safe Anything (as_aggregate v)
  as_aggregate-Safe (Values.aggregate a) h = answers a tt
  as_aggregate-Safe (Values.entities _ _ _) h = cc
  as_aggregate-Safe (Values.window _) h = cc
  as_aggregate-Safe (Values.edges _) h = cc
  as_aggregate-Safe (Values.paths _) h = cc
  as_aggregate-Safe (Values.comparison _) h = cc
  as_aggregate-Safe (Values.event_trace _) h = cc
  as_aggregate-Safe (Values.mobility_returns _) h = cc
  as_aggregate-Safe (Values.state _ _) h = cc
  as_aggregate-Safe (Values.provenance _ _ _) h = cc

  module _ (scope : Scope) (values : Pool) (typed : Typed x scope values) where
    typed_value :
        (id : Key) (t : ResultType)
        → type_in scope id ≡ some t
        → Safe (λ v. type_of v ≡ t) (value_at values id)
    typed_value id t h = let (v, e, (k, g)) = typed id t h in rw e (answers v k)

    pub compare-Safe :
        (args : CompareArgs)
        → type_in scope args.left ≡ some Program.aggregate_type
        → type_in scope args.right ≡ some Program.aggregate_type
        → Safe (HasType x Program.comparison_type) (compare args values)
    unfolding compare
    compare-Safe args h k = Safe->>= (typed_value args.left Program.aggregate_type h) (λ l p.
        Safe->>= (typed_value args.right Program.aggregate_type k) (λ r q.
          Safe->>= (as_aggregate-Safe l p) (λ left _. Safe->>= (as_aggregate-Safe r q) (λ right _.
            Safe-raise_if (not (same_policy left right)) Executor.incompatible_policies refl (λ _.
              Safe-raise_if (not (follows left.window right.window)) Executor.incomparable_windows
                refl
                (λ _.
                  Safe-raise_if
                    (args.matched_year_windows && not (matched left.window right.window))
                    Executor.unmatched_windows refl
                    (λ _.
                      Safe-raise_if (is_ratio args.operation && left.value == 0)
                        Executor.zero_denominator refl (λ _. answers _ (refl, tt)))))))))
