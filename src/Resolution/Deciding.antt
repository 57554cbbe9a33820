-- ===== src/Resolution/Deciding.antt =====
-- What a decision of `resolve_identifiers` in src/kdiff/construction/resolution.py says.
use knowledge_diffusion.Base.{
  >>=-eq-ok, All, Bool, Bool-cases, In, Key, List, [], ap, arith, decided, false, inl, inr, map,
  member, ok, ok-injective, or_raise, refl, some, sym, true, ◌↔◌, ◌∷◌, ◌≡◌,
}
use mathlib.Core.Path.{subst}
use knowledge_diffusion.Resolution
use knowledge_diffusion.Resolution.{
  Field, Pairs, EntityRow, ObservationRow, Decision, candidates_of, index_of, target_of, least,
  decide, conflicting, values_of, fields_of, decisions,
}
use knowledge_diffusion.Resolution.Sharing.{Shares}
use knowledge_diffusion.Resolution.Targets.{Resolved, resolved_test, decide-Resolved}
use knowledge_diffusion.Resolution.Contested.{Contested, decide_conflict, decide-Contested}
use knowledge_diffusion.Resolution.Linking.{Linked, itself, through, candidates_of-Linked}

-- The entity that is decided on.
abbrev pub subject : Decision → Key
subject (Resolution.conflict id cs) = id
subject (Resolution.resolved id target exact ids) = id

-- What a decision says.
abbrev pub Decided : Pairs → List Key → Decision → Type 0
Decided pairs old_ids (Resolution.conflict id cs) =
    Contested pairs old_ids id × ((x : Key) → (member x cs ≡ true) ↔ Linked pairs id x)
Decided pairs old_ids (Resolution.resolved id target exact ids) = Resolved pairs old_ids id target

decide-Decided :
    (pairs : Pairs) (old_ids : List Key) (rows : List ObservationRow) (e : EntityRow)
    (cs : List Key)
    → candidates_of (index_of pairs) e.canonical_id ≡ some cs
    → (d : Decision) → decide pairs old_ids rows e cs ≡ d
    → (subject d ≡ e.canonical_id) × Decided pairs old_ids d
decide-Decided pairs old_ids rows e cs found (Resolution.conflict id ids) h = (
  (decide_conflict pairs old_ids rows e cs ids id h).0,
  decide-Contested pairs old_ids rows e cs ids id found h,
)
decide-Decided pairs old_ids rows e cs found (Resolution.resolved id target exact ids) h =
    let (named, _, _) = resolved_test pairs old_ids rows e cs ids id target exact h in
    (
      named,
      subst (λ z. Resolved pairs old_ids z target) (sym named)
          (decide-Resolved pairs old_ids rows e cs ids id target exact found h),
    )

Shares-sym : (pairs : Pairs) (b c : Key) → Shares pairs b c → Shares pairs c b
Shares-sym pairs b c (k, h, m) = (k, m, h)

Linked-trans :
    (pairs : Pairs) (a b c : Key) → Linked pairs a b → Linked pairs b c → Linked pairs a c
Linked-trans pairs a b c l itself = l
Linked-trans pairs a b c l (through {b = d} m s) = through (Linked-trans pairs a b d l m) s

Linked-sym : (pairs : Pairs) (a b : Key) → Linked pairs a b → Linked pairs b a
Linked-sym pairs a b itself = itself
Linked-sym pairs a b (through {b = c} l s) =
    Linked-trans pairs b c a (through itself (Shares-sym pairs c b s)) (Linked-sym pairs a c l)

-- Linked entities that are resolved have one target.
Resolved-agree :
    (pairs : Pairs) (old_ids : List Key) (a b t u : Key)
    → Resolved pairs old_ids a t
    → Resolved pairs old_ids b u
    → Linked pairs a b
    → t ≡ u
Resolved-agree pairs old_ids a b t u r s l =
    let to_a = λ (x : Key) (m : Linked pairs b x). Linked-trans pairs a b x l m in
    let to_b =
      λ (x : Key) (m : Linked pairs a x). Linked-trans pairs b a x (Linked-sym pairs a b l) m in
    elim (Bool-cases (member t old_ids)) [
      | inl e ↦ s.only_old t (to_b t r.linked) e
      | inr e ↦ elim (Bool-cases (member u old_ids)) [
        | inl f ↦ sym (r.only_old u (to_a u s.linked) f)
        | inr f ↦
            let fresh = λ (x : Key) (m : Linked pairs a x).
              elim (Bool-cases (member x old_ids)) as (λ v. member x old_ids ≡ false) [
                | inl g ↦
                    let same = ap (λ z. member z old_ids) (r.only_old x m g) in
                    ground (arith, same, e, g)
                | inr g ↦ g
              ] in
            omega (
              arith,
              r.first fresh u (to_a u s.linked),
              s.first (λ x m. fresh x (to_a x m)) t (to_b t r.linked),
            )
      ]
    ]

module _ (pairs : Pairs) (old_ids : List Key) (rows : List ObservationRow) where
  decisions-is_ok :
      (es : List EntityRow) → (ds : List Decision) × (decisions pairs old_ids rows es ≡ ok ds)
  unfolding decisions
  decisions-is_ok [] = ([], refl)
  decisions-is_ok (e ∷ es) =
      let (cs, found, _) = candidates_of-Linked pairs e.canonical_id in
      let (ds, h) = decisions-is_ok es in (decide pairs old_ids rows e cs ∷ ds, rw (found, h) refl)

  decisions-Resolved :
      (es : List EntityRow) (ds : List Decision) (id t : Key) (exact : Bool) (ids : List Key)
      → decisions pairs old_ids rows es ≡ ok ds
      → In (Resolution.resolved id t exact ids) ds
      → Resolved pairs old_ids id t
  unfolding decisions
  decisions-Resolved [] ds id t exact ids h i =
      absurd (subst (In (Resolution.resolved id t exact ids)) (sym (ok-injective h)) i)
  decisions-Resolved (e ∷ es) ds id t exact ids h i =
      let (cs, found, h1) =
        >>=-eq-ok (or_raise (candidates_of (index_of pairs) e.canonical_id) Resolution.out_of_fuel)
          _ h in
      let (rest, more, last) = >>=-eq-ok (decisions pairs old_ids rows es) _ h1 in
      let found' : candidates_of (index_of pairs) e.canonical_id ≡ some cs =
        ground (arith, found) in
      elim (subst (In (Resolution.resolved id t exact ids)) (sym (ok-injective last)) i) [
        | inl same ↦
            let (named, _, _) = resolved_test pairs old_ids rows e cs ids id t exact (sym same) in
            subst (λ z. Resolved pairs old_ids z t) (sym named)
              (decide-Resolved pairs old_ids rows e cs ids id t exact found' (sym same))
        | inr j ↦ decisions-Resolved es rest id t exact ids more j
      ]

  decisions-Decided :
      (es : List EntityRow) (ds : List Decision)
      → decisions pairs old_ids rows es ≡ ok ds
      → (map subject ds ≡ map (λ e. e.canonical_id) es) × All (Decided pairs old_ids) ds
  unfolding decisions
  decisions-Decided [] ds h =
      subst (λ l. (map subject l ≡ []) × All (Decided pairs old_ids) l) (ok-injective h) (refl, tt)
  decisions-Decided (e ∷ es) ds h =
      let (cs, found, h1) =
        >>=-eq-ok (or_raise (candidates_of (index_of pairs) e.canonical_id) Resolution.out_of_fuel)
          _ h in
      let (rest, more, last) = >>=-eq-ok (decisions pairs old_ids rows es) _ h1 in
      let found' : candidates_of (index_of pairs) e.canonical_id ≡ some cs =
        ground (arith, found) in
      let (same, fine) = decisions-Decided es rest more in
      let (here, well) =
        decide-Decided pairs old_ids rows e cs found' (decide pairs old_ids rows e cs) refl in
      subst
        (λ l.
          (map subject l ≡ e.canonical_id ∷ map (λ e. e.canonical_id) es)
          × All (Decided pairs old_ids) l)
        (ok-injective last) (rw (here, same) refl, (well, fine))

  -- The decisions are on the entities of the batch, one on each, in their order. An entity that is
  -- resolved is linked with its target by a chain of shared identifiers; the target is the only
  -- linked entity that was there before, or the least linked one. An entity that is in conflict has
  -- two such entities that were there before, or two linked entities with different values of one
  -- field. Two entities that are linked are, where both are resolved, given the same target.
  pub decisions-agree :
      (es : List EntityRow)
      → (ds : List Decision) × (decisions pairs old_ids rows es ≡ ok ds)
        × (map subject ds ≡ map (λ e. e.canonical_id) es)
        × All (Decided pairs old_ids) ds
        × ((a b t u : Key) (x y : Bool) (ids js : List Key)
            → In (Resolution.resolved a t x ids) ds
            → In (Resolution.resolved b u y js) ds
            → Linked pairs a b
            → t ≡ u)
  decisions-agree es =
      let (ds, h) = decisions-is_ok es in
      let (subjects, decided) = decisions-Decided es ds h in
      (
        ds,
        h,
        subjects,
        decided,
        λ a b t u x y ids js i j l.
            Resolved-agree pairs old_ids a b t u (decisions-Resolved es ds a t x ids h i)
              (decisions-Resolved es ds b u y js h j) l,
      )
