-- ===== src/Resolution/Contested.antt =====
-- Which entities the decisions of src/kdiff/construction/resolution.py call a conflict.
use knowledge_diffusion.Base.{
  Bool, Bool-cases, In, In-select, Key, List, Unique, Unique-append_one, Unique-select, [], add_key,
  any, arith, distinct, false, if◌then◌else◌, inl, inr, length, ltb, map, member, member-distinct,
  member-map, member-select, member-sorted, refl, select, some, sorted, suc, sym, true, zero, ℕ,
  ◌&&◌, ◌==◌, ◌||◌, ◌↔◌, ◌∙◌, ◌∷◌, ◌≡◌, ◌≢◌,
}
use mathlib.Core.Path.{subst}
use knowledge_diffusion.Graph
use knowledge_diffusion.Resolution
use knowledge_diffusion.Resolution.{
  Field, Identifier, Index, Pairs, EntityRow, ObservationRow, Decision, same_field, union,
  union_all, or_alone, holders, meets, absorb, grow, candidates_of, index_of, values_of,
  conflicting, decide, fields_of,
}
use knowledge_diffusion.Resolution.Linking.{Linked, candidates_of-Linked}

Unique-add_key : (x : Key) (cs : List Key) → Unique cs → Unique (add_key x cs)
Unique-add_key x cs u = elim (Bool-cases (member x cs)) [
  | inl e ↦ rw e u
  | inr e ↦ rw e (Unique-append_one x cs e u)
]

Unique-union : (ids cs : List Key) → Unique cs → Unique (union ids cs)
Unique-union [] cs u = u
Unique-union (x ∷ ids) cs u = Unique-union ids (add_key x cs) (Unique-add_key x cs u)

Unique-union_all : (sets : List (List Key)) (cs : List Key) → Unique cs → Unique (union_all sets cs)
Unique-union_all [] cs u = u
Unique-union_all (ids ∷ sets) cs u = Unique-union_all sets (union ids cs) (Unique-union ids cs u)

Unique-or_alone : (id : Key) (sets : List (List Key)) → Unique (or_alone id sets)
Unique-or_alone id [] = (refl, tt)
Unique-or_alone id (ids ∷ sets) = Unique-union_all (ids ∷ sets) [] tt

Unique-choice : (ids cs : List Key) (b : Bool) → Unique cs → Unique (if b then union ids cs else cs)
Unique-choice ids cs true u = Unique-union ids cs u
Unique-choice ids cs false u = u

Unique-absorb : (index : Index) (cs : List Key) → Unique cs → Unique (absorb index cs)
unfolding absorb
Unique-absorb [] cs u = u
Unique-absorb ((k, ids) ∷ index) cs u =
    Unique-absorb index _ (Unique-choice ids cs (meets ids cs) u)

Unique-grow :
    (n : ℕ) (index : Index) (cs ds : List Key) → Unique cs → grow n index cs ≡ some ds → Unique ds
unfolding grow
Unique-grow zero index cs ds u h = cc
Unique-grow (suc n) index cs ds u h = elim (Bool-cases (length (absorb index cs) == length cs)) [
  | inl e ↦
      let same : absorb index cs ≡ ds = ground (arith, e, h) in
      subst Unique same (Unique-absorb index cs u)
  | inr e ↦
      Unique-grow n index (absorb index cs) ds (Unique-absorb index cs u) (ground (arith, e, h))
]

Unique-candidates_of :
    (index : Index) (id : Key) (cs : List Key) → candidates_of index id ≡ some cs → Unique cs
unfolding candidates_of
Unique-candidates_of index id cs h =
    Unique-grow _ index (or_alone id (holders id index)) cs (Unique-or_alone id (holders id index))
      h

Unique-distinct : (xs : List Key) → Unique (distinct xs)
Unique-distinct [] = tt
Unique-distinct (x ∷ xs) = elim (Bool-cases (member x (distinct xs))) [
  | inl e ↦ rw e (Unique-distinct xs)
  | inr e ↦ rw e (e, Unique-distinct xs)
]

values_of-Unique : (pairs : Pairs) (f : Field) (cs : List Key) → Unique (values_of pairs f cs)
values_of-Unique pairs f cs =
    Unique-distinct
      (map (λ p. p.1.value) (select (λ p. member p.0 cs && same_field p.1.field f) pairs))

-- Two different elements.
record Two (xs : List Key) : Type 0 where
  one : Key
  other : Key
  one_in : member one xs ≡ true
  other_in : member other xs ≡ true
  apart : one ≢ other

Unique-Two : (xs : List Key) → Unique xs → ltb 1 (length xs) ≡ true → Two xs
Unique-Two [] u h = ground arith
Unique-Two (x ∷ []) u h = ground arith
Unique-Two (x ∷ y ∷ xs) (a, u) h = record {
  one = x;
  other = y;
  one_in = ground arith;
  other_in = ground arith;
  apart = λ e. ground (arith, e, a);
}

any-In :
    {A : Type 0} (p : A → Bool) (xs : List A) → any p xs ≡ true → (x : A) × In x xs × (p x ≡ true)
any-In p [] h = cc
any-In p (y ∷ ys) h = elim (Bool-cases (p y)) [
  | inl e ↦ (y, inl refl, e)
  | inr e ↦ let (x, i, q) = any-In p ys (ground (arith, h, e)) in (x, inr i, q)
]

-- What speaks against one target for an entity: two linked entities that were there before, or two
-- linked entities with different values of one field.
pub data Contested (pairs : Pairs) (old_ids : List Key) (id : Key) : Type 0 where
  two_established :
      (x y : Key)
      → Linked pairs id x
      → Linked pairs id y
      → member x old_ids ≡ true
      → member y old_ids ≡ true
      → x ≢ y
      → Contested pairs old_ids id
  two_values :
      (p q : Key × Identifier)
      → In p pairs
      → In q pairs
      → Linked pairs id p.0
      → Linked pairs id q.0
      → same_field p.1.field q.1.field ≡ true
      → p.1.value ≢ q.1.value
      → Contested pairs old_ids id

-- A value of a field is that of an identifier of a candidate.
values_of-In :
    (pairs : Pairs) (f : Field) (cs : List Key) (v : Key)
    → member v (values_of pairs f cs) ≡ true
    → (p : Key × Identifier) × In p pairs
      × (member p.0 cs ≡ true)
      × (same_field p.1.field f ≡ true)
      × (p.1.value ≡ v)
values_of-In pairs f cs v h =
    let kept = λ (p : Key × Identifier). member p.0 cs && same_field p.1.field f in
    let (p, i, e) =
      (member-map (λ p. p.1.value) v (select kept pairs)).0
        (sym (member-distinct v (map (λ p. p.1.value) (select kept pairs))) ∙ h) in
    let (there, fit) = In-select kept p pairs i in
    (p, there, ground (arith, fit), ground (arith, fit), e)

same_field_trans :
    (f g h : Field) → same_field f h ≡ true → same_field g h ≡ true → same_field f g ≡ true
same_field_trans f g h p q = ground arith

module _ (pairs : Pairs) (old_ids : List Key) (rows : List ObservationRow) where
  conflicting-Contested :
      (kind : Graph.EntityType) (id : Key) (cs : List Key)
      → ((x : Key) → member x cs ≡ true → Linked pairs id x)
      → conflicting pairs kind cs ≡ true
      → Contested pairs old_ids id
  conflicting-Contested kind id cs linked h =
      let (f, _, many) = any-In (λ f. ltb 1 (length (values_of pairs f cs))) (fields_of kind) h in
      let two = Unique-Two (values_of pairs f cs) (values_of-Unique pairs f cs) many in
      let (p, pi, pc, pf, pv) = values_of-In pairs f cs two.one two.one_in in
      let (q, qi, qc, qf, qv) = values_of-In pairs f cs two.other two.other_in in
      two_values p q pi qi (linked p.0 pc) (linked q.0 qc)
        (same_field_trans p.1.field q.1.field f pf qf) (λ e. two.apart (sym pv ∙ e ∙ qv))

  established-Contested :
      (id : Key) (cs : List Key)
      → ((x : Key) → member x cs ≡ true → Linked pairs id x)
      → Unique cs
      → ltb 1 (length (select (λ c. member c old_ids) cs)) ≡ true
      → Contested pairs old_ids id
  established-Contested id cs linked u many =
      let old = λ (c : Key). member c old_ids in
      let two = Unique-Two (select old cs) (Unique-select old cs u) many in
      let a = member-select old two.one cs in
      let b = member-select old two.other cs in
      two_established two.one two.other (linked two.one (ground (arith, a, two.one_in)))
        (linked two.other (ground (arith, b, two.other_in))) (ground (arith, a, two.one_in))
        (ground (arith, b, two.other_in)) two.apart

  pub decide_conflict :
      (e : EntityRow) (cs ids : List Key) (id : Key)
      → decide pairs old_ids rows e cs ≡ Resolution.conflict id ids
      → (id ≡ e.canonical_id)
        × (ids ≡ sorted cs)
        × ((conflicting pairs e.kind cs || ltb 1 (length (select (λ c. member c old_ids) cs)))
            ≡ true)
  unfolding decide
  decide_conflict e cs ids id h = (ground (arith, h), ground (arith, h), ground (arith, h))

  -- A conflict is contested, and lists the linked entities.
  pub decide-Contested :
      (e : EntityRow) (cs ids : List Key) (id : Key)
      → candidates_of (index_of pairs) e.canonical_id ≡ some cs
      → decide pairs old_ids rows e cs ≡ Resolution.conflict id ids
      → Contested pairs old_ids id × ((x : Key) → (member x ids ≡ true) ↔ Linked pairs id x)
  decide-Contested e cs ids id found h =
      let (named, listed, why) = decide_conflict e cs ids id h in
      let (ds, found', exactly) = candidates_of-Linked pairs e.canonical_id in
      let same : ds ≡ cs = ground (arith, found, found') in
      let here : (x : Key) → (member x cs ≡ true) ↔ Linked pairs e.canonical_id x =
        subst (λ l. (x : Key) → (member x l ≡ true) ↔ Linked pairs e.canonical_id x) same exactly in
      let linked = λ (x : Key) (m : member x cs ≡ true). (here x).0 m in
      let u = Unique-candidates_of (index_of pairs) e.canonical_id cs found in
      rw (named, listed)
        (
          elim (Bool-cases (conflicting pairs e.kind cs)) [
            | inl c ↦ conflicting-Contested e.kind e.canonical_id cs linked c
            | inr c ↦ established-Contested e.canonical_id cs linked u (ground (arith, why, c))
          ],
          λ x. (
            λ m. (here x).0 (sym (member-sorted x cs) ∙ m),
            λ l. member-sorted x cs ∙ (here x).1 l,
          ),
        )
