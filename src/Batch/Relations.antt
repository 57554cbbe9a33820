-- ===== src/Batch/Relations.antt =====
-- What `validate_relation` of src/kdiff/core/schema.py demands of an assertion, and the entities that
-- a batch has.
use knowledge_diffusion.Base.{
  ==→eq, >>=-eq-ok, Bool-cases, In, Key, List, Option, Option-cases, Unique, [], any, ap, arith,
  inl, inr, map, member, member-map, none, not, ok, raise_if, refl, some, sym, true, ◌&&◌, ◌==◌,
  ◌||◌, ◌↔◌, ◌∙◌, ◌∷◌, ◌≡◌, ◌⊎◌,
}
use mathlib.Core.Path.{subst}
use knowledge_diffusion.Graph
use knowledge_diffusion.Graph.{
  Entity, EntityType, Relation, Required, Qualifiers, signature, required_present,
  validate_relation, same_kind, has_kind,
}
use knowledge_diffusion.Batch.{entity_at, distinct_ids}

-- What a relation requires, of the assertion's qualifiers or of its tail.
abbrev pub Supplies : Required → Entity → Qualifiers → Type 0
Supplies Graph.no_qualifier tail q = Unit
Supplies Graph.date_basis tail q = q.date_basis ≡ true
Supplies Graph.contributing_ids tail q = q.contributing_ids ≡ true
Supplies Graph.role tail q = (r : Graph.GrantRole) × (q.role ≡ some r)
Supplies Graph.site tail q = tail.is_site ≡ true

-- An assertion that the registry allows: the types of its endpoints, what its relation requires and,
-- for a grant that an institution gives, the role of a sponsor or an administrator.
pub record Allowed (r : Relation) (head tail : Entity) (q : Qualifiers) : Type 0 where
  pub head_kind : head.kind ≡ (signature r).head
  pub tail_kind : In tail.kind (signature r).tails
  pub supplied : Supplies (signature r).required tail q
  pub grant_role :
      r ≡ Graph.granted_by → (q.role ≡ some Graph.sponsor) ⊎ (q.role ≡ some Graph.administrator)

pub same_kind-eq : (a b : EntityType) → (same_kind a b ≡ true) ↔ (a ≡ b)
same_kind-eq a b = (λ h. ground arith, λ e. subst (λ z. same_kind a z ≡ true) e (ground arith))

has_kind-In : (k : EntityType) (xs : List EntityType) → (has_kind k xs ≡ true) ↔ In k xs
has_kind-In k [] = (λ h. cc, λ i. absurd i)
has_kind-In k (x ∷ xs) = (
  λ h. elim (Bool-cases (same_kind x k)) [
    | inl e ↦ inl (sym ((same_kind-eq x k).0 e))
    | inr e ↦ inr ((has_kind-In k xs).0 (ground (arith, h, e)))
  ],
  λ i. elim i [
    | inl e ↦ rw ((same_kind-eq x k).1 (sym e)) refl
    | inr j ↦ ground (arith, (has_kind-In k xs).1 j)
  ],
)

required_present-Supplies :
    (r : Required) (tail : Entity) (q : Qualifiers)
    → (required_present r tail q ≡ ok tt) ↔ Supplies r tail q
unfolding required_present
required_present-Supplies Graph.no_qualifier tail q = (λ h. tt, λ h. refl)
required_present-Supplies Graph.date_basis tail q = (λ h. ground arith, λ h. rw h refl)
required_present-Supplies Graph.contributing_ids tail q = (λ h. ground arith, λ h. rw h refl)
required_present-Supplies Graph.role tail q = (
  λ h. elim (Option-cases q.role) [ inl e ↦ ground (arith, h, e) | inr (r, e) ↦ (r, e) ],
  λ (r, e). rw e refl,
)
required_present-Supplies Graph.site tail q = (λ h. ground arith, λ h. rw h refl)

is_granted_by-eq : (r : Relation) → Graph.is_granted_by r ≡ true → r ≡ Graph.granted_by
is_granted_by-eq r h = ground arith

is_grant_role-eq :
    (role : Option Graph.GrantRole)
    → (Graph.is_grant_role role ≡ true)
      ↔ ((role ≡ some Graph.sponsor) ⊎ (role ≡ some Graph.administrator))
is_grant_role-eq none = (λ h. cc, λ h. elim h [ inl e ↦ cc | inr e ↦ cc ])
is_grant_role-eq (some Graph.sponsor) = (λ h. inl refl, λ h. refl)
is_grant_role-eq (some Graph.administrator) = (λ h. inr refl, λ h. refl)
is_grant_role-eq (some Graph.other_role) = (λ h. cc, λ h. elim h [ inl e ↦ cc | inr e ↦ cc ])

granting :
    (r : Relation) (role : Option Graph.GrantRole)
    → (raise_if (Graph.is_granted_by r && not (Graph.is_grant_role role)) Graph.grant_role ≡ ok tt)
      ↔ (r ≡ Graph.granted_by → (role ≡ some Graph.sponsor) ⊎ (role ≡ some Graph.administrator))
granting r role = (
  λ h e.
      let asked : Graph.is_granted_by r ≡ true = ap Graph.is_granted_by e in
      (is_grant_role-eq role).0 (ground (arith, h, asked)),
  λ h. elim (Bool-cases (Graph.is_granted_by r)) [
    | inl e ↦ rw (e, (is_grant_role-eq role).1 (h (is_granted_by-eq r e))) refl
    | inr e ↦ rw e refl
  ],
)

pub validate_relation-Allowed :
    (r : Relation) (head tail : Entity) (q : Qualifiers)
    → (validate_relation r head tail q ≡ ok tt) ↔ Allowed r head tail q
unfolding validate_relation
validate_relation-Allowed r head tail q = (
  λ h.
      let s = signature r in
      let (_, kinds, h1) =
        >>=-eq-ok
          (raise_if (not (same_kind head.kind s.head) || not (has_kind tail.kind s.tails))
            Graph.endpoint_types)
          _ h in
      let (u, present, last) = >>=-eq-ok (required_present s.required tail q) _ h1 in
      record {
        head_kind = (same_kind-eq head.kind s.head).0 (ground (arith, kinds));
        tail_kind = (has_kind-In tail.kind s.tails).0 (ground (arith, kinds));
        supplied = (required_present-Supplies s.required tail q).0 present;
        grant_role = (granting r q.role).0 last;
      },
  λ a.
      rw
        (
          (same_kind-eq head.kind (signature r).head).1 a.head_kind,
          (has_kind-In tail.kind (signature r).tails).1 a.tail_kind,
          (required_present-Supplies (signature r).required tail q).1 a.supplied,
        )
        ((granting r q.role).1 a.grant_role),
)

-- The entity of a list that has an identifier.
abbrev pub At : List Entity → Key → Entity → Type 0
At es id e = In e es × (e.canonical_id ≡ id)

abbrev pub ids_of : List Entity → List Key
ids_of es = map (λ e. e.canonical_id) es

any-ids : (id : Key) (es : List Entity) → any (λ e. e.canonical_id == id) es ≡ member id (ids_of es)
any-ids id [] = refl
any-ids id (e ∷ es) = ground (arith, any-ids id es)

pub distinct_ids-Unique : (es : List Entity) → (distinct_ids es ≡ true) ↔ Unique (ids_of es)
distinct_ids-Unique [] = (λ h. tt, λ h. refl)
distinct_ids-Unique (e ∷ es) = (
  λ h. (
    ground (arith, h, any-ids e.canonical_id es),
    (distinct_ids-Unique es).0 (ground (arith, h)),
  ),
  λ (a, u). ground (arith, a, any-ids e.canonical_id es, (distinct_ids-Unique es).1 u),
)

pub entity_at-At :
    (es : List Entity) (id : Key) (e : Entity) → entity_at es id ≡ some e → At es id e
entity_at-At [] id e h = cc
entity_at-At (x ∷ es) id e h = elim (Bool-cases (x.canonical_id == id)) [
  | inl s ↦
      let same : x ≡ e = ground (arith, h, s) in
      (inl (sym same), ap (λ z. z.canonical_id) (sym same) ∙ ==→eq x.canonical_id id s)
  | inr s ↦ let (i, n) = entity_at-At es id e (ground (arith, h, s)) in (inr i, n)
]

pub At-entity_at :
    (es : List Entity) (id : Key) (e : Entity)
    → Unique (ids_of es)
    → At es id e
    → entity_at es id ≡ some e
At-entity_at [] id e u (i, n) = absurd i
At-entity_at (x ∷ es) id e u (inl s, n) =
    let here : (x.canonical_id == id) ≡ true = ground (arith, ap (λ z. z.canonical_id) s, n) in
    rw here (ap some (sym s))
At-entity_at (x ∷ es) id e (a, u) (inr i, n) =
    let there : member id (ids_of es) ≡ true =
      (member-map (λ z. z.canonical_id) id es).1 (e, i, n) in
    elim (Bool-cases (x.canonical_id == id)) [
      | inl s ↦
          let same = ap (λ k. member k (ids_of es)) (==→eq x.canonical_id id s) in
          ground (arith, a, same, there)
      | inr s ↦ rw s (At-entity_at es id e u (i, n))
    ]
