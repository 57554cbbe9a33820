-- ===== src/Executor/Counting/Loops.antt =====
-- What the two loops of `Executor.aggregate` in src/kdiff/analysis/graph_program.py keep and select.
use knowledge_diffusion.Base.{
  ==→eq, >>=-eq-ok, Bool, Bool-cases, Key, List, [], ap, arith, false, if◌then◌else◌, inl, inr,
  member, not, ok, ok-injective, raise_if, select, sym, true, ℕ, ◌&&◌, ◌==◌, ◌||◌, ◌∙◌, ◌∷◌, ◌≡◌,
}
use mathlib.Core.Path.{subst}
use knowledge_diffusion.Time.{Window}
use knowledge_diffusion.Graph
use knowledge_diffusion.Graph.{Assertion}
use knowledge_diffusion.Values.{same_relation}
use knowledge_diffusion.Program.{AggregateArgs, by_authorship}
use knowledge_diffusion.Executor
use knowledge_diffusion.Executor.{Executor, ExecError, target_of, rows_of, is_inside}
use knowledge_diffusion.Executor.Counting.{
  kept_rows, tally, all_inside, all_outside, is_attributed, lacks_topic, has_topic, with_year,
}

module _ (x : Executor) (args : AggregateArgs) (is_tail : Bool) where
  abbrev pub is_kept : Assertion → Bool
  is_kept a = is_attributed args a && has_topic x args.topic_id (target_of is_tail a)

  -- The grouping loop keeps the rows of the attribution and the topic.
  pub kept_rows-select :
      (rows kept : List Assertion)
      → kept_rows x args is_tail rows ≡ ok kept
      → kept ≡ select is_kept rows
  unfolding kept_rows
  kept_rows-select [] kept h = sym (ok-injective h)
  kept_rows-select (a ∷ rows) kept h =
      let (u, _, h1) =
        >>=-eq-ok
          (raise_if
            (by_authorship args.attribution
              && (not (same_relation a.relation Graph.author_of) || not is_tail))
            Executor.not_authorship)
          _ h in
      let (v, _, h2) =
        >>=-eq-ok
          (raise_if (is_attributed args a && lacks_topic x args.topic_id) Executor.topic_absent) _
          h1 in
      let (rest, e, last) = >>=-eq-ok (kept_rows x args is_tail rows) _ h2 in
      sym (ok-injective last)
      ∙ ap (λ l. if is_kept a then a ∷ l else l) (kept_rows-select rows rest e)

-- The loop over the groups selects those inside, and every group is inside or outside.
pub tally-select :
    (by_year : Bool) (group : Key → List Assertion) (w : Window) (objects : List Key)
    (series : List (ℕ × ℕ)) (r : List Key × List (ℕ × ℕ))
    → tally by_year group w objects series ≡ ok r
    → (r.0 ≡ select (λ o. all_inside w (group o)) objects)
      × ((o : Key)
          → member o objects ≡ true
          → all_inside w (group o) ≡ false
          → all_outside w (group o) ≡ true)
unfolding tally
tally-select by_year group w [] series r h = (ground (arith, h), λ o m. cc)
tally-select by_year group w (object ∷ objects) series r h =
    elim (Bool-cases (all_inside w (group object))) [
      | inl e ↦
          let (s, _, h1) = >>=-eq-ok (with_year by_year (group object) series) _ (rw e at h) in
          let (rest, f, last) = >>=-eq-ok (tally by_year group w objects s) _ h1 in
          let (same, others) = tally-select by_year group w objects s rest f in
          (
            rw e (ap (λ t. t.0) (sym (ok-injective last)) ∙ ap (λ l. object ∷ l) same),
            λ o m n. elim (Bool-cases (object == o)) [
              | inl b ↦ absurd (
                  ground
                    (arith, subst (λ k. all_inside w (group k) ≡ true) (==→eq object o b) e, n))
              | inr b ↦ others o (ground (arith, m, b)) n
            ],
          )
      | inr e ↦ elim (Bool-cases (all_outside w (group object))) [
        | inl f ↦
            let (same, others) = tally-select by_year group w objects series r (rw (e, f) at h) in
            (
              rw e same,
              λ o m n. elim (Bool-cases (object == o)) [
                | inl b ↦ subst (λ k. all_outside w (group k) ≡ true) (==→eq object o b) f
                | inr b ↦ others o (ground (arith, m, b)) n
              ],
            )
        | inr f ↦ absurd (ground (arith, rw (e, f) at h))
      ]
    ]
