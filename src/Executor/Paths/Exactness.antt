-- ===== src/Executor/Paths/Exactness.antt =====
-- That the queue of `Executor.paths` in src/kdiff/analysis/graph_program.py finds the paths of Walks,
-- all of them and no others.
use knowledge_diffusion.Base.{
  >>=-eq-ok, Bool-cases, Gains, Gains-none, In, In-map, In-sort_by, Key, List, [], ap, arith, inl,
  inr, leb, leb→le, leb→lt, length, map, map-In, not, ok, ok-injective, raise_if, refl, some,
  sort_by-In, suc, sym, zero, ℕ, ◌<◌, ◌↔◌, ◌∷◌, ◌≡◌, ◌⊎◌,
}
use mathlib.Core.Path.{subst}
use knowledge_diffusion.Time.{Window}
use knowledge_diffusion.Graph.{EntityType}
use knowledge_diffusion.Values
use knowledge_diffusion.Values.{FoundPath, PathsValue}
use knowledge_diffusion.Claims.{Pool, pool_get}
use knowledge_diffusion.Program.{PathArgs}
use knowledge_diffusion.Executor
use knowledge_diffusion.Executor.{Executor, target_of, is_entity_of, window_at, value_at}
use knowledge_diffusion.Executor.Paths.{
  Item, Search, next_item, expand_item, search, sorted_edges, find_paths, item_at, opening,
  state_limit,
}
use knowledge_diffusion.Executor.Paths.Walks.{Leads, arrives, goes_on}
use knowledge_diffusion.Executor.Paths.Growth.{Extends, Ends, Among, visit_all-Grows}

module _ (x : Executor) (args : PathArgs) (w : Window) where
  -- What an entry adds when it may go on, and nothing else.
  abbrev pub May : Item → Type 0
  May item = length item.trail < args.max_hops

  abbrev pub Finds : Item → FoundPath → Type 0
  Finds item p = May item × Among x args w item FoundPath (Ends x args w item) x.edges p

  abbrev pub Spawns : Item → Item → Type 0
  Spawns item i = May item × Among x args w item Item (Extends x args w item) x.edges i

  expand_item-Gains :
      (item : Item) (s s' : Search)
      → expand_item x args w item s ≡ ok s'
      → Gains (Finds item) s.found s'.found × Gains (Spawns item) s.queue s'.queue
  expand_item-Gains item s s' h = elim (Bool-cases (leb args.max_hops (length item.trail))) [
    | inl e ↦
        let same = ok-injective (rw e at h) in
        let stop : ¬ (May item) =
          λ m. omega (arith, m, leb→le args.max_hops (length item.trail) e) in
        (
          Gains-none (Finds item) s.found s'.found (λ p f. stop f.0) (ap (λ r. r.found) (sym same)),
          Gains-none (Spawns item) s.queue s'.queue (λ i f. stop f.0)
              (ap (λ r. r.queue) (sym same)),
        )
    | inr e ↦
        let may : May item = leb→lt args.max_hops (length item.trail) e in
        let (p, q) = visit_all-Grows x args w item (sorted_edges x) s s' (rw e at h) in
        (
          λ y. (
            λ k. elim ((p y).0 k) [
              | inl m ↦ inl m
              | inr (a, i, f) ↦ inr (may, (a, In-sort_by (λ r. r.assertion_id) a x.edges i, f))
            ],
            λ k. (p y).1 (elim k [
              | inl m ↦ inl m
              | inr (_, (a, i, f)) ↦ inr (a, sort_by-In (λ r. r.assertion_id) a x.edges i, f)
            ]),
          ),
          λ y. (
            λ k. elim ((q y).0 k) [
              | inl m ↦ inl m
              | inr (a, i, f) ↦ inr (may, (a, In-sort_by (λ r. r.assertion_id) a x.edges i, f))
            ],
            λ k. (q y).1 (elim k [
              | inl m ↦ inl m
              | inr (_, (a, i, f)) ↦ inr (a, sort_by-In (λ r. r.assertion_id) a x.edges i, f)
            ]),
          ),
        )
  ]

  Finds-Leads : (item : Item) (p : FoundPath) → Finds item p → Leads x args w item p
  Finds-Leads item p (may, (a, k, e)) = arrives a e.span may k e.continues e.at_target e.reported

  Spawns-Leads :
      (item i : Item) (p : FoundPath) → Spawns item i → Leads x args w i p → Leads x args w item p
  Spawns-Leads item i p (may, (a, k, e)) h =
      goes_on a e.span may k e.continues e.no_target e.new_vertex
        (subst (λ j. Leads x args w j p) e.extended h)

  Leads-cases :
      (item : Item) (p : FoundPath)
      → Leads x args w item p
      → Finds item p ⊎ ((i : Item) × Spawns item i × Leads x args w i p)
  Leads-cases item p (arrives a t may k c b e) =
      inl (may, (a, k, record { span = t; continues = c; at_target = b; reported = e }))
  Leads-cases item p (goes_on a t may k c b m h) = inr (
    next_item args item a t,
    (
      may,
      (a, k, record { span = t; continues = c; no_target = b; new_vertex = m; extended = refl }),
    ),
    h,
  )

  -- A path that the search may still find: found, or ahead of an entry of the queue.
  abbrev pub Ahead : List Item → FoundPath → Type 0
  Ahead items p = (i : Item) × In i items × Leads x args w i p

  search-exact :
      (budget : ℕ) (items : List Item) (s r : Search)
      → search budget x args w items s ≡ ok r
      → (p : FoundPath) → In p r.found ↔ (In p s.found ⊎ Ahead items p)
  unfolding search
  search-exact budget [] s r h p =
      let same : r.found ≡ s.found = ap (λ u. u.found) (sym (ok-injective h)) in
      (
        λ k. inl (subst (λ l. In p l) same k),
        λ k. elim k [ inl m ↦ subst (λ l. In p l) (sym same) m | inr (i, m, l) ↦ absurd m ],
      )
  search-exact zero (item ∷ items) s r h p = cc
  search-exact (suc budget) (item ∷ items) s r h p =
      let (s', e, rest) = >>=-eq-ok (expand_item x args w item (record s { queue = items })) _ h in
      let (finds, spawns) = expand_item-Gains item (record s { queue = items }) s' e in
      let later = search-exact budget s'.queue s' r rest p in
      (
        λ k. elim (later.0 k) [
          | inl m ↦ elim ((finds p).0 m) [
            | inl n ↦ inl n
            | inr f ↦ inr (item, inl refl, Finds-Leads item p f)
          ]
          | inr (i, m, l) ↦ elim ((spawns i).0 m) [
            | inl n ↦ inr (i, inr n, l)
            | inr f ↦ inr (item, inl refl, Spawns-Leads item i p f l)
          ]
        ],
        λ k. later.1 (elim k [
          | inl m ↦ inl ((finds p).1 (inl m))
          | inr (i, inl same, l) ↦
              elim (Leads-cases item p (subst (λ j. Leads x args w j p) same l)) [
                | inl f ↦ inl ((finds p).1 (inr f))
                | inr (j, f, t) ↦ inr (j, (spawns j).1 (inr f), t)
              ]
          | inr (i, inr m, l) ↦ inr (i, (spawns i).1 (inl m), l)
        ]),
      )

  Ahead-fresh :
      (ids : List Key) (p : FoundPath)
      → Ahead (map item_at ids) p ↔ ((id : Key) × In id ids × Leads x args w (item_at id) p)
  Ahead-fresh ids p = (
    λ (i, m, l).
        let (id, k, e) = In-map item_at i ids m in (id, k, subst (λ j. Leads x args w j p) e l),
    λ (id, k, l). (item_at id, map-In item_at id ids k, l),
  )

-- A path search that ends with an answer has found exactly the paths from one of the input's
-- entities to the target: the walks along the assertions asked for, that have no more assertions
-- than the limit of hops, stay in the window, visit no entity twice before they reach the target for
-- the first time and, where that is asked for, are in order of time. A walk that returns to the
-- target where it started counts.
pub find_paths-Leads :
    (x : Executor) (args : PathArgs) (values : Pool) (w : Window) (ids : List Key)
    (kind : EntityType) (inputs : List Key) (r : PathsValue) (p : FoundPath)
    → window_at values args.window ≡ ok w
    → pool_get values args.input ≡ some (Values.entities ids kind inputs)
    → find_paths x args values ≡ ok (Values.paths r)
    → In p r.found ↔ ((id : Key) × In id ids × Leads x args w (item_at id) p)
unfolding find_paths
find_paths-Leads x args values w ids kind inputs r p hw hi h =
    let (u, _, h1) =
      >>=-eq-ok (raise_if (not (is_entity_of x args.target_id)) Executor.target_missing) _ h in
    let (s, e, last) =
      >>=-eq-ok (search state_limit x args w (map item_at ids) (opening ids)) _
        (rw (hw, hi) at h1) in
    let same : s.found ≡ r.found = ground (arith, last) in
    let exact = search-exact x args w state_limit (map item_at ids) (opening ids) s e p in
    let ahead = Ahead-fresh x args w ids p in
    (
      λ k. elim (exact.0 (subst (λ l. In p l) (sym same) k)) [
        | inl m ↦ absurd m
        | inr m ↦ ahead.0 m
      ],
      λ k. subst (λ l. In p l) same (exact.1 (inr (ahead.1 k))),
    )
