-- ===== src/Executor/Paths/Growth.antt =====
-- What the inner loop of `Executor.paths` in src/kdiff/analysis/graph_program.py adds for one entry
-- of the queue, as a description of the list's elements.
use knowledge_diffusion.Base.{
  >>=-eq-ok, Gains, Gains-both, Gains-none, Gains-one, In, List, [], ap, arith, false, inl, inr,
  member, ok, ok-injective, refl, sym, true, ◌==◌, ◌↔◌, ◌∙◌, ◌∷◌, ◌≡◌, ◌⊎◌,
}
use mathlib.Core.Path.{subst}
use knowledge_diffusion.Time.{Window}
use knowledge_diffusion.Graph.{Assertion}
use knowledge_diffusion.Values.{FoundPath}
use knowledge_diffusion.Program.{PathArgs}
use knowledge_diffusion.Executor.{Executor, target_of}
use knowledge_diffusion.Executor.Paths.{Item, Search, Span, path_of, next_item, visit, visit_all}
use knowledge_diffusion.Executor.Paths.Walks.{Continues}
use knowledge_diffusion.Executor.Paths.Visits.{
  Outcome, passes, adds, ends, revisits, queues, visit-Outcome,
}

module _ (x : Executor) (args : PathArgs) (w : Window) (item : Item) where
  -- A queue's entry that an assertion has extended.
  pub record Extends (a : Assertion) (i : Item) : Type 0 where
    pub span : Span
    pub continues : Continues args w item a span
    pub no_target : (target_of args.out a == args.target_id) ≡ false
    pub new_vertex : member (target_of args.out a) item.vertices ≡ false
    pub extended : i ≡ next_item args item a span

  pub record Ends (a : Assertion) (p : FoundPath) : Type 0 where
    pub span : Span
    pub continues : Continues args w item a span
    pub at_target : (target_of args.out a == args.target_id) ≡ true
    pub reported : path_of args item a span ≡ ok p

  same_span :
      (a : Assertion) (t u : Span) → Continues args w item a t → Continues args w item a u → t ≡ u
  same_span a t u c d = ground (arith, c.dated, d.dated)

  goes_past :
      (a : Assertion) (t : Span)
      → Continues args w item a t
      → (target_of args.out a == args.target_id) ≡ false
      → (p : FoundPath) → ¬ (Ends a p)
  goes_past a t c b p e = ground (arith, b, e.at_target)

  stops_there :
      (a : Assertion) (i : Item)
      → ((target_of args.out a == args.target_id) ≡ true)
        ⊎ (member (target_of args.out a) item.vertices ≡ true)
      → ¬ (Extends a i)
  stops_there a i (inl b) e = ground (arith, b, e.no_target)
  stops_there a i (inr m) e = ground (arith, m, e.new_vertex)

  only_path :
      (a : Assertion) (t : Span) (o p : FoundPath)
      → Continues args w item a t
      → path_of args item a t ≡ ok o
      → Ends a p
      → p ≡ o
  only_path a t o p c f e =
      let same : t ≡ e.span = same_span a t e.span c e.continues in
      ok-injective (sym e.reported ∙ subst (λ u. path_of args item a u ≡ ok o) same f)

  only_item :
      (a : Assertion) (t : Span) (i : Item)
      → Continues args w item a t
      → Extends a i
      → i ≡ next_item args item a t
  only_item a t i c e = e.extended ∙ ap (next_item args item a) (same_span a e.span t e.continues c)

  -- What a list of assertions, visited in order, adds to the paths and to the queue.
  abbrev pub Grows : (FoundPath → Type 0) → (Item → Type 0) → Search → Search → Type 0
  Grows P Q s s' = Gains P s.found s'.found × Gains Q s.queue s'.queue

  Outcome-Grows :
      (a : Assertion) (s s' : Search)
      → Outcome x args w item a s s'
      → Grows (Ends a) (Extends a) s s'
  Outcome-Grows a s s' (passes never (q, r)) = (
    Gains-none (Ends a) s.found s'.found (λ p e. never e.span e.continues) r,
    Gains-none (Extends a) s.queue s'.queue (λ i e. never e.span e.continues) q,
  )
  Outcome-Grows a s s' (adds t c (ends o b e q r)) = (
    Gains-one (Ends a) s.found s'.found o
        (record { span = t; continues = c; at_target = b; reported = e })
        (λ p k. only_path a t o p c e k) r,
    Gains-none (Extends a) s.queue s'.queue (λ i. stops_there a i (inl b)) q,
  )
  Outcome-Grows a s s' (adds t c (revisits b m (q, r))) = (
    Gains-none (Ends a) s.found s'.found (goes_past a t c b) r,
    Gains-none (Extends a) s.queue s'.queue (λ i. stops_there a i (inr m)) q,
  )
  Outcome-Grows a s s' (adds t c (queues b m q r)) = (
    Gains-none (Ends a) s.found s'.found (goes_past a t c b) r,
    Gains-one (Extends a) s.queue s'.queue (next_item args item a t)
        (record { span = t; continues = c; no_target = b; new_vertex = m; extended = refl })
        (λ i. only_item a t i c) q,
  )

  abbrev pub Among : (B : Type 0) → (Assertion → B → Type 0) → List Assertion → B → Type 0
  Among B Q as' y = (a : Assertion) × In a as' × Q a y

  first_or_later :
      (B : Type 0) (Q : Assertion → B → Type 0) (a : Assertion) (as' : List Assertion) (y : B)
      → Among B Q (a ∷ as') y ↔ (Q a y ⊎ Among B Q as' y)
  first_or_later B Q a as' y = (
    λ (b, k, q). elim k [ inl same ↦ inl (subst (λ c. Q c y) same q) | inr m ↦ inr (b, m, q) ],
    λ h. elim h [ inl q ↦ (a, inl refl, q) | inr (b, m, q) ↦ (b, inr m, q) ],
  )

  pub visit_all-Grows :
      (as' : List Assertion) (s s' : Search)
      → visit_all x args w item as' s ≡ ok s'
      → Grows (Among FoundPath Ends as') (Among Item Extends as') s s'
  unfolding visit_all
  visit_all-Grows [] s s' h =
      let same = ok-injective h in
      (
        Gains-none (Among FoundPath Ends []) s.found s'.found (λ y (a, k, q). k)
            (ap (λ r. r.found) (sym same)),
        Gains-none (Among Item Extends []) s.queue s'.queue (λ y (a, k, q). k)
            (ap (λ r. r.queue) (sym same)),
      )
  visit_all-Grows (a ∷ as') s s' h =
      let (m, e, rest) = >>=-eq-ok (visit x args w item a s) _ h in
      let (p, q) = Outcome-Grows a s m (visit-Outcome x args w item a s m e) in
      let (p', q') = visit_all-Grows as' m s' rest in
      (
        Gains-both (Ends a) (Among FoundPath Ends as') (Among FoundPath Ends (a ∷ as')) s.found
            m.found s'.found (first_or_later FoundPath Ends a as') p p',
        Gains-both (Extends a) (Among Item Extends as') (Among Item Extends (a ∷ as')) s.queue
            m.queue s'.queue (first_or_later Item Extends a as') q q',
      )
