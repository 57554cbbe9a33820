-- ===== src/Executor/Expansion.antt =====
-- What `Executor.expand` and the step 'FilterInterval' of src/kdiff/analysis/graph_program.py select.
use knowledge_diffusion.Base.{
  >>=-eq-ok, All, Bool, In, In-select, Key, List, Option, [], any, ap, arith, false, if◌then◌else◌,
  inl, inr, length, length-sorted, ltb, ltb→le, map, member, member-map, member-sorted, none, not,
  ok, ok-injective, or_raise, raise_if, raise_if-eq-ok, refl, select, select-In, some, sorted, suc,
  sym, true, ◌||◌, ◌↔◌, ◌∙◌, ◌∷◌, ◌≡◌, ◌≤◌, ◌⊎◌,
}
use mathlib.Core.Option
use knowledge_diffusion.Time
use knowledge_diffusion.Time.{Window, Membership}
use knowledge_diffusion.Graph
use knowledge_diffusion.Graph.{Assertion, EntityType, rank}
use knowledge_diffusion.Values
use knowledge_diffusion.Values.{Value, EdgesValue, same_relation-eq}
use knowledge_diffusion.Claims.{Pool, pool_get}
use knowledge_diffusion.Program.{ExpandArgs, FilterArgs}
use knowledge_diffusion.Executor
use knowledge_diffusion.Executor.{
  Executor, value_at, window_at, edges_at, starts_of, leads_from, expanded, expand, filtered,
  filter_interval, target_of, edge_at, status_of, is_undated, is_inside, is_entity_of,
}

-- An assertion that the expansion of some entities asks for.
pub record Asked (x : Executor) (args : ExpandArgs) (starts : List Key) (a : Assertion)
    : Type 0 where
  pub recorded : In a x.edges
  pub relation : a.relation ≡ args.relation
  pub from_start : member (target_of (not args.out) a) starts ≡ true

-- A complete expansion: the assertions asked for and no others, no more than the limit, and with both
-- endpoints in the graph.
pub record Expanded (x : Executor) (args : ExpandArgs) (starts : List Key) (e : EdgesValue)
    : Type 0 where
  pub exact :
      (id : Key)
      → (member id e.ids ≡ true) ↔ ((a : Assertion) × Asked x args starts a × (a.assertion_id ≡ id))
  pub within_limit : length e.ids ≤ args.max_edges
  pub endpoints :
      (a : Assertion)
      → Asked x args starts a
      → (is_entity_of x a.head_id ≡ true) × (is_entity_of x a.tail_id ≡ true)

any-none :
    {A : Type 0} (p : A → Bool) (xs : List A) → any p xs ≡ false → (x : A) → In x xs → p x ≡ false
any-none p [] h x i = absurd i
any-none p (y ∷ ys) h x (inl e) = ground (arith, h, ap p e)
any-none p (y ∷ ys) h x (inr i) = any-none p ys (ground (arith, h)) x i

length-map : {A : Type 0} (f : A → Key) (xs : List A) → length (map f xs) ≡ length xs
length-map f [] = refl
length-map f (x ∷ xs) = ap suc (length-map f xs)

module _ (x : Executor) (args : ExpandArgs) (starts : List Key) where
  asked : (a : Assertion) → In a (select (leads_from args starts) x.edges) ↔ Asked x args starts a
  asked a = (
    λ i.
        let (r, l) = In-select (leads_from args starts) a x.edges i in
        record {
          recorded = r;
          relation = same_relation-eq a.relation args.relation (ground (arith, l));
          from_start = ground (arith, l);
        },
    λ k.
        select-In (leads_from args starts) a x.edges k.recorded
          (ground (arith, ap rank k.relation, k.from_start)),
  )

  expanded-Expanded :
      (e : EdgesValue)
      → expanded x args (select (leads_from args starts) x.edges) ≡ ok (Values.edges e)
      → Expanded x args starts e
  expanded-Expanded e h =
      let rows : List Assertion = select (leads_from args starts) x.edges in
      let missing : Assertion → Bool =
        λ a. not (is_entity_of x a.head_id) || not (is_entity_of x a.tail_id) in
      let (u, f, h1) =
        >>=-eq-ok (raise_if (ltb args.max_edges (length rows)) Executor.edge_limit) _ h in
      let (v, g, h2) = >>=-eq-ok (raise_if (any missing rows) Executor.endpoint_missing) _ h1 in
      let ids : e.ids ≡ sorted (map (λ a. a.assertion_id) rows) = ground (arith, h2) in
      let found : (id : Key) → member id e.ids ≡ member id (map (λ a. a.assertion_id) rows) =
        λ id. ap (member id) ids ∙ member-sorted id (map (λ a. a.assertion_id) rows) in
      record {
        exact = λ id. (
          λ m.
              let (a, i, s) = (member-map (λ a. a.assertion_id) id rows).0 (sym (found id) ∙ m) in
              (a, (asked a).0 i, s),
          λ (a, k, s).
              found id ∙ (member-map (λ a. a.assertion_id) id rows).1 (a, (asked a).1 k, s),
        );
        within_limit = omega (
          arith,
          ap length ids
              ∙ length-sorted (map (λ a. a.assertion_id) rows)
              ∙ length-map (λ a. a.assertion_id) rows,
          ltb→le args.max_edges (length rows) (raise_if-eq-ok _ Executor.edge_limit u f),
        );
        endpoints = λ a k.
            let present : missing a ≡ false =
              any-none missing rows (raise_if-eq-ok _ Executor.endpoint_missing v g) a
                ((asked a).1 k) in
            (ground (arith, present), ground (arith, present));
      }

-- An expansion that ends with an answer names exactly the assertions of the asked relation that
-- leave, or reach, one of the input's entities; they are no more than the limit, and both endpoints
-- of each are entities of the graph.
pub expand-Expanded :
    (x : Executor) (args : ExpandArgs) (values : Pool) (v : Value) (starts : List Key)
    (kind : EntityType) (e : EdgesValue)
    → pool_get values args.input ≡ some v
    → starts_of x v ≡ ok (starts, kind)
    → expand x args values ≡ ok (Values.edges e)
    → Expanded x args starts e
unfolding expand
expand-Expanded x args values v starts kind e hv hs h =
    let (u, _, h1) =
      >>=-eq-ok
        (raise_if (not (Graph.same_kind kind (if args.out then args.head_kind else args.tail_kind)))
          Executor.wrong_endpoint)
        _ (rw (hv, hs) at h) in
    expanded-Expanded x args starts e h1

-- Where the dates of an assertion lie, by the rule of a filter.
abbrev pub place : Executor → FilterArgs → Window → Key → Option Membership
place x args w id = Option.map (λ a. status_of args.contained a.valid_time w) (edge_at x id)

abbrev pub lies_inside : Option Membership → Bool
lies_inside none = false
lies_inside (some m) = is_inside m

-- A complete filter: every edge of the input lies inside or outside, and those inside are kept, in
-- their order.
pub record Filtered (x : Executor) (args : FilterArgs) (w : Window) (prior e : EdgesValue)
    : Type 0 where
  pub kept : e.ids ≡ select (λ id. lies_inside (place x args w id)) prior.ids
  pub decided :
      All
        (λ id. (place x args w id ≡ some Time.inside) ⊎ (place x args w id ≡ some Time.outside))
        prior.ids
  pub inputs : e.filter_input_ids ≡ some prior.ids
  pub window : e.window ≡ some w

decided_cases :
    (m : Membership)
    → is_undated m ≡ false
    → (some m ≡ some Time.inside) ⊎ (some m ≡ some Time.outside)
decided_cases Time.inside h = inl refl
decided_cases Time.outside h = inr refl
decided_cases Time.indeterminate h = cc

module _ (x : Executor) (args : FilterArgs) (w : Window) where
  filtered-select :
      (ids selected : List Key)
      → filtered x args.contained w ids ≡ ok selected
      → (selected ≡ select (λ id. lies_inside (place x args w id)) ids)
        × All
            (λ id. (place x args w id ≡ some Time.inside) ⊎ (place x args w id ≡ some Time.outside))
            ids
  unfolding filtered
  filtered-select [] selected h = (sym (ok-injective h), tt)
  filtered-select (id ∷ ids) selected h =
      let (a, e, h1) = >>=-eq-ok (or_raise (edge_at x id) Executor.type_error) _ h in
      let (u, f, h2) =
        >>=-eq-ok
          (raise_if (is_undated (status_of args.contained a.valid_time w)) Executor.undated_filter)
          _ h1 in
      let (rest, g, last) = >>=-eq-ok (filtered x args.contained w ids) _ h2 in
      let recorded : edge_at x id ≡ some a = ground (arith, e) in
      let (kept, decided) = filtered-select ids rest g in
      (
        rw recorded (
            sym (ok-injective last)
            ∙ ap (λ l. if is_inside (status_of args.contained a.valid_time w) then id ∷ l else l)
                kept),
        (
          rw recorded (
              decided_cases (status_of args.contained a.valid_time w)
                (raise_if-eq-ok _ Executor.undated_filter u f)),
          decided,
        ),
      )

-- A filter that ends with an answer has placed every edge of its input inside or outside the window,
-- names those inside in their order, and records the window and the whole input.
pub filter_interval-Filtered :
    (x : Executor) (args : FilterArgs) (values : Pool) (prior e : EdgesValue) (w : Window)
    → edges_at values args.input ≡ ok prior
    → window_at values args.window ≡ ok w
    → filter_interval x args values ≡ ok (Values.edges e)
    → Filtered x args w prior e
unfolding filter_interval
filter_interval-Filtered x args values prior e w hp hw h =
    let (ids, f, last) = >>=-eq-ok (filtered x args.contained w prior.ids) _ (rw (hp, hw) at h) in
    let (kept, decided) = filtered-select x args w prior.ids ids f in
    record {
      kept = ground (arith, last) ∙ kept;
      decided = decided;
      inputs = ground (arith, last);
      window = ground (arith, last);
    }
