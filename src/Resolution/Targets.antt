-- ===== src/Resolution/Targets.antt =====
-- The target that `resolve_identifiers` in src/kdiff/construction/resolution.py picks.
use knowledge_diffusion.Base.{
  Bool, Bool-cases, Key, List, [], arith, false, if◌then◌else◌, inl, inr, length, ltb, member,
  member-select, select, some, sym, true, ◌==◌, ◌↔◌, ◌∙◌, ◌∷◌, ◌≡◌, ◌≤◌,
}
use mathlib.Core.Path.{subst}
use knowledge_diffusion.Resolution
use knowledge_diffusion.Resolution.{
  Field, Pairs, EntityRow, ObservationRow, Decision, candidates_of, index_of, target_of, least,
  decide, conflicting, values_of, fields_of, decisions,
}
use knowledge_diffusion.Resolution.Linking.{Linked, itself, candidates_of-Linked}

member-least : (x : Key) (ys : List Key) → member (least x ys) (x ∷ ys) ≡ true
member-least x [] = ground arith
member-least x (y ∷ ys) = ground (arith, member-least (if ltb y x then y else x) ys)

least-le :
    (x : Key) (ys : List Key) → (least x ys ≤ x) × ((z : Key) → member z ys ≡ true → least x ys ≤ z)
least-le x [] = (omega arith, λ z h. cc)
least-le x (y ∷ ys) =
    let (a, b) = least-le (if ltb y x then y else x) ys in
    (ground (arith, a), λ z h. ground (arith, a, b z, h))

-- The target is a candidate.
target_of-member :
    (id : Key) (es cs : List Key)
    → ((x : Key) → member x es ≡ true → member x cs ≡ true)
    → member id cs ≡ true
    → member (target_of id es cs) cs ≡ true
target_of-member id (e ∷ es) cs within h = within e (ground arith)
target_of-member id [] [] within h = cc
target_of-member id [] (c ∷ cs) within h = member-least c cs

-- The only established candidate is the target.
target_of-only :
    (id x : Key) (es cs : List Key)
    → ltb 1 (length es) ≡ false
    → member x es ≡ true
    → x ≡ target_of id es cs
target_of-only id x [] cs h m = cc
target_of-only id x (e ∷ []) cs h m = ground (arith, m)
target_of-only id x (e ∷ f ∷ es) cs h m = ground (arith, h)

-- Without an established one, the target is the least candidate.
target_of-le :
    (id x : Key) (es cs : List Key)
    → ((y : Key) → member y es ≡ false)
    → member x cs ≡ true
    → target_of id es cs ≤ x
target_of-le id x (e ∷ es) cs no_one m = ground (arith, no_one e)
target_of-le id x [] [] no_one m = cc
target_of-le id x [] (c ∷ cs) no_one m =
    let (a, b) = least-le c cs in
    elim (Bool-cases (c == x)) [ inl e ↦ ground (arith, a, e) | inr e ↦ b x (ground (arith, e, m)) ]

-- The candidates that were there before.
abbrev established : List Key → List Key → List Key
established old_ids cs = select (λ c. member c old_ids) cs

-- A resolved entity and its target: they are linked, no other linked entity was there before, and
-- where none was, the target comes first among the linked ones.
pub record Resolved (pairs : Pairs) (old_ids : List Key) (id target : Key) : Type 0 where
  pub linked : Linked pairs id target
  pub only_old : (x : Key) → Linked pairs id x → member x old_ids ≡ true → x ≡ target
  pub first :
      ((x : Key) → Linked pairs id x → member x old_ids ≡ false)
      → (x : Key) → Linked pairs id x
      → target ≤ x

module _ (pairs : Pairs) (old_ids : List Key) (rows : List ObservationRow) where
  pub resolved_test :
      (e : EntityRow) (cs ids : List Key) (id target : Key) (exact : Bool)
      → decide pairs old_ids rows e cs ≡ Resolution.resolved id target exact ids
      → (id ≡ e.canonical_id)
        × (ltb 1 (length (established old_ids cs)) ≡ false)
        × (target ≡ target_of e.canonical_id (established old_ids cs) cs)
  unfolding decide
  resolved_test e cs ids id target exact h =
      (ground (arith, h), ground (arith, h), ground (arith, h))

  -- What `decide` resolves.
  pub decide-Resolved :
      (e : EntityRow) (cs ids : List Key) (id target : Key) (exact : Bool)
      → candidates_of (index_of pairs) e.canonical_id ≡ some cs
      → decide pairs old_ids rows e cs ≡ Resolution.resolved id target exact ids
      → Resolved pairs old_ids e.canonical_id target
  decide-Resolved e cs ids id target exact found h =
      let (_, one, chosen) = resolved_test e cs ids id target exact h in
      let (ds, found', exactly) = candidates_of-Linked pairs e.canonical_id in
      let same : ds ≡ cs = ground (arith, found, found') in
      let here : (x : Key) → (member x cs ≡ true) ↔ Linked pairs e.canonical_id x =
        subst (λ l. (x : Key) → (member x l ≡ true) ↔ Linked pairs e.canonical_id x) same exactly in
      let chosen_from = λ (x : Key). member-select (λ c. member c old_ids) x cs in
      record {
        linked = subst (Linked pairs e.canonical_id) (sym chosen) (
            (here _).0 (
              target_of-member e.canonical_id (established old_ids cs) cs
                (λ x m. ground (arith, chosen_from x, m)) ((here e.canonical_id).1 itself)));
        only_old = λ x l o.
            target_of-only e.canonical_id x (established old_ids cs) cs one
              (ground (arith, chosen_from x, (here x).1 l, o))
            ∙ sym chosen;
        first = λ fresh x l. rw chosen (
            target_of-le e.canonical_id x (established old_ids cs) cs
              (λ y. elim (Bool-cases (member y cs)) [
                | inl m ↦ ground (arith, chosen_from y, fresh y ((here y).0 m))
                | inr m ↦ ground (arith, chosen_from y, m)
              ])
              ((here x).1 l));
      }
