-- ===== src/Witness/Covered.antt =====
-- What `proof_selection` of src/kdiff/analysis/general_witness.py covers.
use knowledge_diffusion.Base.{
  >>=-eq-ok, All, All-append, Bool, Key, List, Option, Option-cases, [], any, arith, concat_map,
  distinct, false, inl, inr, is_some, ltb, map, member, member-append, member-distinct,
  member-sorted, none, ok, ok-injective, or_raise, refl, select, some, sort_by, sym, true, ℕ, ◌++◌,
  ◌==◌, ◌||◌, ◌∙◌, ◌∷◌, ◌≡◌,
}
use mathlib.Core.Path.{subst}
use knowledge_diffusion.Values.{Value}
use knowledge_diffusion.Claims.{Pool, pool_get}
use knowledge_diffusion.Claims.Cover.{Offer}
use knowledge_diffusion.Claims.Coverage.{coverable, covered_by, greedy_cover-covered_by}
use knowledge_diffusion.Program.{Step}
use knowledge_diffusion.Witness.Counts.{FrozenGraph}
use knowledge_diffusion.Witness.Selections
use knowledge_diffusion.Witness.Selections.{
  Obligation, Card, Bundle, Selection, Sources, operands, source_of, add_operands, collect_sources,
  obligations, cards, offer_of, fixed_cards, fixed_obligations, step_card, step_obligations,
  source_card, facts, step_ids, proof_selection, chosen, selection_of,
}

-- Every operand of a result is a record of the graph.
abbrev pub Recorded : FrozenGraph → Option Value → Type 0
Recorded g none = ⊥
Recorded g (some v) = All (λ id. is_some (source_of g id) ≡ true) (operands v)

abbrev pub AllRecorded : FrozenGraph → Pool → List Step → Type 0
AllRecorded g pool steps = All (λ s. Recorded g (pool_get pool s.id)) steps

add_operands-is_ok :
    (g : FrozenGraph) (ids : List Key) (sources : Sources)
    → All (λ id. is_some (source_of g id) ≡ true) ids
    → (more : Sources) × (add_operands g ids sources ≡ ok more)
unfolding add_operands
add_operands-is_ok g [] sources h = (sources, refl)
add_operands-is_ok g (id ∷ ids) sources h = elim (Option-cases (source_of g id)) [
  | inl e ↦ ground (arith, h.0, e)
  | inr (s, e) ↦ rw e (add_operands-is_ok g ids _ h.1)
]

collect_sources-is_ok :
    (g : FrozenGraph) (pool : Pool) (steps : List Step) (sources : Sources)
    → AllRecorded g pool steps
    → (more : Sources) × (collect_sources g pool steps sources ≡ ok more)
unfolding collect_sources
collect_sources-is_ok g pool [] sources h = (sources, refl)
collect_sources-is_ok g pool (s ∷ steps) sources h = elim (Option-cases (pool_get pool s.id)) [
  | inl e ↦ absurd (subst (Recorded g) e h.0)
  | inr (v, e) ↦
      let (next, f) = add_operands-is_ok g (operands v) sources (subst (Recorded g) e h.0) in
      let (more, m) = collect_sources-is_ok g pool steps next h.1 in (more, rw (e, f) m)
]

any-append :
    {A : Type 0} (p : A → Bool) (xs ys : List A) → any p (xs ++ ys) ≡ (any p xs || any p ys)
any-append p [] ys = refl
any-append p (x ∷ xs) ys = ground (arith, any-append p xs ys)

members-All : (P : Key → Type 0) (xs : List Key) → ((x : Key) → member x xs ≡ true → P x) → All P xs
members-All P [] h = tt
members-All P (x ∷ xs) h = (h x (ground arith), members-All P xs (λ y m. h y (ground (arith, m))))

All-weaken : (P Q : Key → Type 0) → ((x : Key) → P x → Q x) → (xs : List Key) → All P xs → All Q xs
All-weaken P Q step [] h = tt
All-weaken P Q step (x ∷ xs) h = (step x h.0, All-weaken P Q step xs h.1)

-- An obligation on some card of a list.
abbrev on_card : Key → List (Key × Bundle) → Bool
on_card k cs = any (λ c. member k c.1.covers) cs

-- Cards that are made of the same obligations as a list.
on_card-map :
    {A : Type 0} (made : A → Key × Bundle) (needs : A → List Key) (k : Key) (xs : List A)
    → ((x : A) → member k (made x).1.covers ≡ member k (needs x))
    → on_card k (map made xs) ≡ member k (concat_map needs xs)
on_card-map made needs k [] same = refl
on_card-map made needs k (x ∷ xs) same = ground (
  arith,
  same x,
  member-append k (needs x) (concat_map needs xs),
  on_card-map made needs k xs same,
)

one_each :
    {A : Type 0} (made : A → Key × Bundle) (xs : List A)
    → ((x : A) → (made x).1.cost ≡ 1)
    → All (λ c. c.1.cost ≡ 1) (map made xs)
one_each made [] same = tt
one_each made (x ∷ xs) same = (same x, one_each made xs same)

-- An obligation on a selected card.
abbrev pub selects : Selection → Key → Bool
selects s k = any (λ c. member k c.1.covers) s.bundles

module _ (obligation_text : Obligation → Key) (card_text : Card → Key) where
  on_card-obligations :
      (claim_id k : Key) (ids : List Key) (sources : Sources)
      → on_card k (cards obligation_text card_text claim_id ids sources)
        ≡ member k (obligations obligation_text card_text ids sources)
  on_card-obligations claim_id k ids sources =
      let ot = obligation_text in
      let by_step = map (step_card ot card_text) ids in
      let by_source = map (source_card ot card_text) sources in
      let of_steps = concat_map (step_obligations ot card_text) ids in
      let of_sources = concat_map (facts ot card_text) sources in
      let all_of = fixed_obligations ot card_text ++ (of_steps ++ of_sources) in
      let split = any-append (λ (c : Key × Bundle). member k c.1.covers) by_step by_source in
      let steps =
        on_card-map (step_card ot card_text) (step_obligations ot card_text) k ids (λ x. refl) in
      let facts_too =
        on_card-map (source_card ot card_text) (facts ot card_text) k sources (λ x. refl) in
      let all_sorted = member-sorted k (distinct all_of) in
      let all_distinct = member-distinct k all_of in
      let parts = member-append k of_steps of_sources in
      ground (arith, split, steps, facts_too, all_sorted, all_distinct, parts)

  coverable-offers :
      (k : Key) (cs : List (Key × Bundle))
      → coverable (map (offer_of obligation_text card_text) cs) k ≡ on_card k cs
  coverable-offers k [] = refl
  coverable-offers k (c ∷ cs) = ground (arith, coverable-offers k cs)

  -- The cards that are chosen are those of the selected offers.
  covered_by-cons :
      (j k : Key) (ks : List Key) (cs : List (Key × Bundle))
      → covered_by (map (offer_of obligation_text card_text) cs) (j ∷ ks) k ≡ (
          on_card k (select (λ o. o.0 == j) cs)
          || covered_by (map (offer_of obligation_text card_text) cs) ks k)
  covered_by-cons j k ks [] = refl
  covered_by-cons j k ks (c ∷ cs) = ground (arith, covered_by-cons j k ks cs)

  covered_by-nil :
      (k : Key) (cs : List (Key × Bundle))
      → covered_by (map (offer_of obligation_text card_text) cs) [] k ≡ false
  covered_by-nil k [] = refl
  covered_by-nil k (c ∷ cs) = ground (arith, covered_by-nil k cs)

  chosen-covered :
      (k : Key) (cs : List (Key × Bundle)) (selected : List Key)
      → on_card k (chosen obligation_text card_text cs selected)
        ≡ covered_by (map (offer_of obligation_text card_text) cs) selected k
  chosen-covered k cs [] = sym (covered_by-nil k cs)
  chosen-covered k cs (j ∷ ks) =
      let split =
        any-append (λ (c : Key × Bundle). member k c.1.covers) (select (λ o. o.0 == j) cs)
          (chosen obligation_text card_text cs ks) in
      ground (arith, split, covered_by-cons j k ks cs, chosen-covered k cs ks)

  -- Each card costs one.
  paid_cards :
      (cs : List (Key × Bundle))
      → All (λ c. c.1.cost ≡ 1) cs
      → All
          (λ (e : Key × Offer). (e.1.cost == 0) ≡ false)
          (map (offer_of obligation_text card_text) cs)
  paid_cards [] h = tt
  paid_cards (c ∷ cs) h = (ground (arith, h.0), paid_cards cs h.1)

  cards_cost :
      (claim_id : Key) (ids : List Key) (sources : Sources)
      → All (λ c. c.1.cost ≡ 1) (cards obligation_text card_text claim_id ids sources)
  cards_cost claim_id ids sources =
      All-append _ (fixed_cards obligation_text card_text claim_id) _ (refl, (refl, (refl, tt)))
        (All-append _ (map (step_card obligation_text card_text) ids) _ (one_each _ ids (λ x. refl))
          (one_each _ sources (λ x. refl)))

  -- Where every operand of the steps' results is a record of the graph, a selection is found, and
  -- each of the witness's obligations is on a card that it selects.
  pub proof_selection-Covers :
      (steps : List Step) (pool : Pool) (claim_id : Key) (g : FrozenGraph) (budget : ℕ)
      → AllRecorded g pool steps
      → (needed : List Key) × (s : Selection) × (proof_selection obligation_text card_text steps
            pool claim_id g budget
          ≡ ok (needed, s))
        × (s.requested_budget ≡ budget)
        × All (λ k. selects s k ≡ true) needed
  unfolding proof_selection
  proof_selection-Covers steps pool claim_id g budget h =
      let ot = obligation_text in
      let ids = step_ids ot card_text steps in
      let (found, e) = collect_sources-is_ok g pool steps [] h in
      let sources = sort_by (λ (s : Key × List Key). s.0) found in
      let needed = obligations ot card_text ids sources in
      let offers = cards ot card_text claim_id ids sources in
      let covers = λ (k : Key) (m : member k needed ≡ true).
        coverable-offers k offers ∙ on_card-obligations claim_id k ids sources ∙ m in
      let (c, found_cover, all_covered, _) =
        greedy_cover-covered_by needed (map (offer_of ot card_text) offers) budget
          (paid_cards offers (cards_cost claim_id ids sources)) (members-All _ needed covers) in
      (
        needed,
        (selection_of ot card_text needed offers budget (c, ltb budget c.cost)).1,
        rw (e, found_cover) refl,
        refl,
        All-weaken _ _ (λ k m. chosen-covered k offers c.selected ∙ m) needed all_covered,
      )

add_operands-eq-ok :
    (g : FrozenGraph) (ids : List Key) (sources more : Sources)
    → add_operands g ids sources ≡ ok more
    → All (λ id. is_some (source_of g id) ≡ true) ids
unfolding add_operands
add_operands-eq-ok g [] sources more h = tt
add_operands-eq-ok g (id ∷ ids) sources more h =
    let (s, e, rest) = >>=-eq-ok (or_raise (source_of g id) Selections.unavailable_operand) _ h in
    (ground (arith, e), add_operands-eq-ok g ids _ more rest)

-- What is collected without an error are records of the graph.
collect_sources-eq-ok :
    (g : FrozenGraph) (pool : Pool) (steps : List Step) (sources more : Sources)
    → collect_sources g pool steps sources ≡ ok more
    → AllRecorded g pool steps
unfolding collect_sources
collect_sources-eq-ok g pool [] sources more h = tt
collect_sources-eq-ok g pool (s ∷ steps) sources more h =
    let (v, e, h1) = >>=-eq-ok (or_raise (pool_get pool s.id) Selections.missing_step) _ h in
    let (next, f, rest) = >>=-eq-ok (add_operands g (operands v) sources) _ h1 in
    let there : pool_get pool s.id ≡ some v = ground (arith, e) in
    (
      subst (Recorded g) (sym there) (add_operands-eq-ok g (operands v) sources next f),
      collect_sources-eq-ok g pool steps next more rest,
    )

-- A selection that is found has each of its obligations on a card, and its operands are records of
-- the graph.
pub proof_selection-selects :
    (obligation_text : Obligation → Key) (card_text : Card → Key) (steps : List Step) (pool : Pool)
    (claim_id : Key) (g : FrozenGraph) (budget : ℕ) (needed : List Key) (s : Selection)
    → proof_selection obligation_text card_text steps pool claim_id g budget ≡ ok (needed, s)
    → All (λ k. selects s k ≡ true) needed × AllRecorded g pool steps
unfolding proof_selection
proof_selection-selects obligation_text card_text steps pool claim_id g budget needed s h =
    let (found, e, _) = >>=-eq-ok (collect_sources g pool steps []) _ h in
    let recorded = collect_sources-eq-ok g pool steps [] found e in
    let (needed', s', again, _, all_covered) =
      proof_selection-Covers obligation_text card_text steps pool claim_id g budget recorded in
    let same = ok-injective (sym again ∙ h) in
    (
      subst (λ (r : List Key × Selection). All (λ k. selects r.1 k ≡ true) r.0) same all_covered,
      recorded,
    )
