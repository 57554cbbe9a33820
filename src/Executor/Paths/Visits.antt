-- ===== src/Executor/Paths/Visits.antt =====
-- What one round of the inner loop of `Executor.paths` in src/kdiff/analysis/graph_program.py adds to
-- the queue and to the paths.
use knowledge_diffusion.Base.{
  ==→eq, >>=-eq-ok, Bool-cases, Result, [], ap, arith, false, if◌then◌else◌, inl, inr, length, ltb,
  member, not, ok, ok-injective, or_raise, raise_if, refl, some, sym, true, ◌&&◌, ◌++◌, ◌==◌, ◌∷◌,
  ◌≡◌,
}
use mathlib.Core.Path.{subst}
use knowledge_diffusion.Time
use knowledge_diffusion.Time.{Window, Membership, membership}
use knowledge_diffusion.Graph.{Assertion}
use knowledge_diffusion.Values.{FoundPath}
use knowledge_diffusion.Program.{PathArgs}
use knowledge_diffusion.Executor
use knowledge_diffusion.Executor.{Executor, ExecError, target_of, is_entity_of, is_inside}
use knowledge_diffusion.Executor.Paths.{
  Item, Search, Span, span_at, path_of, next_item, arrive, cross, cross_if, visit, comes_early,
  overlaps, inspect, leaves,
}
use knowledge_diffusion.Executor.Paths.Walks.{Continues}

module _ (x : Executor) (args : PathArgs) (w : Window) (item : Item) (a : Assertion) where
  abbrev pub Same : Search → Search → Type 0
  Same s s' = (s'.queue ≡ s.queue) × (s'.found ≡ s.found)

  -- What is added for an assertion that continues the entry's path.
  pub data Added (t : Span) (s s' : Search) : Type 0 where
    ends :
        (p : FoundPath)
        → (target_of args.out a == args.target_id) ≡ true
        → path_of args item a t ≡ ok p
        → s'.queue ≡ s.queue
        → s'.found ≡ s.found ++ p ∷ []
        → Added t s s'
    revisits :
        (target_of args.out a == args.target_id) ≡ false
        → member (target_of args.out a) item.vertices ≡ true
        → Same s s'
        → Added t s s'
    queues :
        (target_of args.out a == args.target_id) ≡ false
        → member (target_of args.out a) item.vertices ≡ false
        → s'.queue ≡ s.queue ++ next_item args item a t ∷ []
        → s'.found ≡ s.found
        → Added t s s'

  pub data Outcome (s s' : Search) : Type 0 where
    passes : ((t : Span) → ¬ (Continues args w item a t)) → Same s s' → Outcome s s'
    adds : (t : Span) → Continues args w item a t → Added t s s' → Outcome s s'

  unchanged : (s s' : Search) → ◌≡◌ {A = Result ExecError Search} (ok s) (ok s') → Same s s'
  unchanged s s' h =
      let e = ok-injective h in (ap (λ r. r.queue) (sym e), ap (λ r. r.found) (sym e))

  arrive-Added : (t : Span) (s s' : Search) → arrive args item a t s ≡ ok s' → Added t s s'
  unfolding arrive
  arrive-Added t s s' h = elim (Bool-cases (target_of args.out a == args.target_id)) [
    | inl b ↦
        let (p, e, rest) = >>=-eq-ok (path_of args item a t) _ (rw b at h) in
        let (u, f, last) =
          >>=-eq-ok
            (raise_if (ltb args.max_paths (length (s.found ++ p ∷ []))) Executor.path_budget) _
            rest in
        let (q, r) = unchanged (record s { found = s.found ++ p ∷ [] }) s' last in ends p b e q r
    | inr b ↦ elim (Bool-cases (member (target_of args.out a) item.vertices)) [
      | inl c ↦ revisits b c (unchanged s s' (rw (b, c) at h))
      | inr c ↦
          let (q, r) =
            unchanged (record s { queue = s.queue ++ next_item args item a t ∷ [] }) s'
              (rw (b, c) at h) in
          queues b c q r
    ]
  ]

  continue :
      (t : Span)
      → leaves args item a ≡ true
      → membership a.valid_time w ≡ Time.inside
      → span_at a.valid_time ≡ some t
      → comes_early args item.previous t ≡ false
      → Continues args w item a t
  continue t l m e b = record {
    from_end = ==→eq (target_of (not args.out) a) item.at (ground (arith, l));
    asked = ground (arith, l);
    in_window = m;
    dated = e;
    in_time = b;
  }

  Continues-leaves : (t : Span) → Continues args w item a t → leaves args item a ≡ true
  Continues-leaves t c = ground (arith, c.from_end, c.asked)

  -- An assertion has one span.
  same_time :
      (t u : Span)
      → span_at a.valid_time ≡ some t
      → Continues args w item a u
      → comes_early args item.previous t ≡ false
  same_time t u e c =
      let same : u ≡ t = ground (arith, e, c.dated) in
      subst (λ v. comes_early args item.previous v ≡ false) same c.in_time

  ordered-Outcome :
      (t : Span) (s s' : Search)
      → (comes_early args item.previous t ≡ false → Continues args w item a t)
      → ((u : Span) → Continues args w item a u → comes_early args item.previous t ≡ false)
      → (if comes_early args item.previous t then ok s else arrive args item a t s) ≡ ok s'
      → Outcome s s'
  ordered-Outcome t s s' make unmake h = elim (Bool-cases (comes_early args item.previous t)) [
    | inl b ↦ passes (λ u c. ground (arith, unmake u c, b)) (unchanged s s' (rw b at h))
    | inr b ↦ adds t (make b) (arrive-Added t s s' (rw b at h))
  ]

  cross-Outcome :
      (s s' : Search)
      → leaves args item a ≡ true
      → membership a.valid_time w ≡ Time.inside
      → cross x args item a s ≡ ok s'
      → Outcome s s'
  unfolding cross
  cross-Outcome s s' l m h =
      let (u, e, rest) =
        >>=-eq-ok (raise_if (not (is_entity_of x (target_of args.out a))) Executor.endpoint_missing)
          _ h in
      let (t, f, later) = >>=-eq-ok (or_raise (span_at a.valid_time) Executor.type_error) _ rest in
      let (v, g, last) =
        >>=-eq-ok
          (raise_if (comes_early args item.previous t && overlaps item.previous t)
            Executor.ambiguous_order)
          _ later in
      let dated : span_at a.valid_time ≡ some t = ground (arith, f) in
      ordered-Outcome t s s' (continue t l m dated) (λ b c. same_time t b dated c) last

  cross_if-Outcome :
      (m : Membership) (s s' : Search)
      → leaves args item a ≡ true
      → membership a.valid_time w ≡ m
      → cross_if m x args item a s ≡ ok s'
      → Outcome s s'
  cross_if-Outcome Time.inside s s' l m h = cross-Outcome s s' l m h
  cross_if-Outcome Time.outside s s' l m h =
      passes (λ t c. ground (arith, m, c.in_window)) (unchanged s s' h)
  cross_if-Outcome Time.indeterminate s s' l m h = cc

  Outcome-inspect : (s s' : Search) → Outcome (inspect a s) s' → Outcome s s'
  Outcome-inspect s s' (passes none_does same) = passes none_does same
  Outcome-inspect s s' (adds t c (ends p b e q r)) = adds t c (ends p b e q r)
  Outcome-inspect s s' (adds t c (revisits b m same)) = adds t c (revisits b m same)
  Outcome-inspect s s' (adds t c (queues b m q r)) = adds t c (queues b m q r)

  -- One round of the inner loop.
  pub visit-Outcome : (s s' : Search) → visit x args w item a s ≡ ok s' → Outcome s s'
  unfolding visit
  visit-Outcome s s' h = elim (Bool-cases (leaves args item a)) [
    | inl l ↦
        Outcome-inspect s s'
          (cross_if-Outcome (membership a.valid_time w) (inspect a s) s' l refl (rw l at h))
    | inr l ↦ passes (λ t c. ground (arith, l, Continues-leaves t c)) (unchanged s s' (rw l at h))
  ]
