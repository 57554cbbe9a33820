-- ===== src/Executor/Comparing/Ratios.antt =====
-- What the step 'CompareWindows' of src/kdiff/analysis/graph_program.py says of two aggregates.
use knowledge_diffusion.Base.{
  >>=-eq-ok, ap, arith, false, gcd, gcd_proportion, gcd_reduced, not, ok, pos, raise_if,
  raise_if-eq-ok, refl, some, sub_ℕ, true, ℕ, ℤ, ◌&&◌, ◌*◌, ◌/◌, ◌<◌, ◌==◌, ◌∙◌, ◌∣◌, ◌≡◌,
}
use mathlib.Core.Path.{subst}
use knowledge_diffusion.Time.{ordinal}
use knowledge_diffusion.Values
use knowledge_diffusion.Values.{AggregateValue, ComparisonValue, Operation}
use knowledge_diffusion.Claims.{Pool, pool_get}
use knowledge_diffusion.Program.{CompareArgs}
use knowledge_diffusion.Executor
use knowledge_diffusion.Executor.Comparing.{
  compare, same_policy, follows, matched, is_ratio, quotient,
}

-- The number that an operation asks for: the proportion of the later count to the earlier one, as a
-- fraction in lowest terms, or the later count less the earlier.
abbrev pub Relates : Operation → ℕ → ℕ → ℤ → ℕ → Type 0
Relates Values.ratio left right numerator denominator =
    (0 < left)
    × ((n : ℕ) × (numerator ≡ pos n)
        × (n * left ≡ right * denominator)
        × ((d : ℕ) → d ∣ n → d ∣ denominator → d ≡ 1))
Relates Values.difference left right numerator denominator =
    (numerator ≡ sub_ℕ right left) × (denominator ≡ 1)

pub record Compared (args : CompareArgs) (l r : AggregateValue) (c : ComparisonValue) : Type 0 where
  pub policy : same_policy l r ≡ true
  pub in_order : ordinal l.window.end < ordinal r.window.start
  pub reference : ordinal l.window.reference_date ≡ ordinal r.window.reference_date
  pub same_span : args.matched_year_windows ≡ true → matched l.window r.window ≡ true
  pub value : Relates args.operation l.value r.value c.numerator c.denominator
  pub sides : (c.before ≡ l) × (c.after ≡ r)

related :
    (o : Operation) (left right : ℕ)
    → (is_ratio o && left == 0) ≡ false
    → Relates o left right (quotient o left right).0 (quotient o left right).1
related Values.ratio left right h =
    let positive : 0 < left = ground (arith, h) in
    (
      positive,
      (
        right / gcd right left,
        refl,
        gcd_proportion right left,
        λ d. gcd_reduced d right left positive,
      ),
    )
related Values.difference left right h = (refl, refl)

-- A comparison that ends with an answer is of two counts of one policy, over windows that follow
-- each other and have one reference date, and gives their exact proportion or difference.
pub compare-Compared :
    (args : CompareArgs) (values : Pool) (l r : AggregateValue) (c : ComparisonValue)
    → pool_get values args.left ≡ some (Values.aggregate l)
    → pool_get values args.right ≡ some (Values.aggregate r)
    → compare args values ≡ ok (Values.comparison c)
    → Compared args l r c
unfolding compare
compare-Compared args values l r c hl hr h =
    let (_, p, h1) =
      >>=-eq-ok (raise_if (not (same_policy l r)) Executor.incompatible_policies) _
        (rw (hl, hr) at h) in
    let (_, f, h2) =
      >>=-eq-ok (raise_if (not (follows l.window r.window)) Executor.incomparable_windows) _ h1 in
    let (_, m, h3) =
      >>=-eq-ok
        (raise_if (args.matched_year_windows && not (matched l.window r.window))
          Executor.unmatched_windows)
        _ h2 in
    let (_, z, last) =
      >>=-eq-ok (raise_if (is_ratio args.operation && l.value == 0) Executor.zero_denominator) _
        h3 in
    let q =
      related args.operation l.value r.value (raise_if-eq-ok _ Executor.zero_denominator _ z) in
    let numerator : (quotient args.operation l.value r.value).0 ≡ c.numerator =
      ground (arith, last) in
    let denominator : (quotient args.operation l.value r.value).1 ≡ c.denominator =
      ground (arith, last) in
    record {
      policy = ground (arith, p);
      in_order = ground (arith, f);
      reference = ground (arith, f);
      same_span = λ k. ground (arith, m, k);
      value =
          subst (λ (t : ℤ × ℕ). Relates args.operation l.value r.value t.0 t.1)
            (ap (λ n. (n, (quotient args.operation l.value r.value).1)) numerator
              ∙ ap (λ n. (c.numerator, n)) denominator)
            q;
      sides = (ground (arith, last), ground (arith, last));
    }
