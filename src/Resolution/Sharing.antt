-- ===== src/Resolution/Sharing.antt =====
-- The index that src/kdiff/construction/resolution.py fills, and what stands in one of its sets.
use knowledge_diffusion.Base.{
  ==→eq, All, Bool, Bool-cases, Key, List, [], add_key, any, ap, arith, if◌then◌else◌, inl, inr,
  member, member-append, refl, sym, true, ◌&&◌, ◌==◌, ◌||◌, ◌∙◌, ◌∷◌, ◌≡◌,
}
use mathlib.Core.Path.{subst}
use knowledge_diffusion.Graph.{EntityType, same_kind}
use knowledge_diffusion.Resolution.{
  Field, Identifier, Index, same_field, Pairs, same_identifier, put_id, index_onto, index_of,
}

-- The record of an entity that has an identifier.
abbrev pub has : Pairs → Key → Identifier → Bool
has pairs x k = any (λ p. p.0 == x && same_identifier p.1 k) pairs

-- Two entities that have an identifier in common.
abbrev pub Shares : Pairs → Key → Key → Type 0
Shares pairs b c = (k : Identifier) × (has pairs b k ≡ true) × (has pairs c k ≡ true)

-- Two entities in one set of the index.
abbrev pub together : Index → Key → Key → Bool
together index b c = any (λ g. member b g.1 && member c g.1) index

same_kind-eq : (a b : EntityType) → same_kind a b ≡ true → a ≡ b
same_kind-eq a b h = ground arith

same_kind_refl : (a : EntityType) → same_kind a a ≡ true
same_kind_refl a = ground arith

same_field-eq : (a b : Field) → same_field a b ≡ true → a ≡ b
same_field-eq a b h = ground arith

same_field_refl : (a : Field) → same_field a a ≡ true
same_field_refl a = ground arith

same_identifier-eq : (a b : Identifier) → same_identifier a b ≡ true → a ≡ b
same_identifier-eq a b h =
    ground (arith, same_kind-eq a.kind b.kind, same_field-eq a.field b.field, ==→eq a.value b.value)

pub same_identifier_refl : (a : Identifier) → same_identifier a a ≡ true
same_identifier_refl a = ground (arith, same_kind_refl a.kind, same_field_refl a.field)

-- The set under an identifier.
abbrev pub ids_at : Identifier → Index → List Key
ids_at k [] = []
ids_at k ((j, ids) ∷ index) = let rest = ids_at k index in if same_identifier j k then ids else rest

member-add_key : (c x : Key) (xs : List Key) → member c (add_key x xs) ≡ (x == c || member c xs)
member-add_key c x xs = ground (arith, member-append c xs (x ∷ []))

same_identifier-join :
    (i j k : Identifier)
    → same_identifier i k ≡ true
    → same_identifier j k ≡ true
    → same_identifier i j ≡ true
same_identifier-join i j k h m =
    subst (λ z. same_identifier i z ≡ true)
      (same_identifier-eq i k h ∙ sym (same_identifier-eq j k m)) (same_identifier_refl i)

-- Filling one set leaves the others.
ids_at-put_id :
    (c x : Key) (k j : Identifier) (index : Index)
    → member c (ids_at k (put_id j x index))
      ≡ (same_identifier j k && x == c || member c (ids_at k index))
ids_at-put_id c x k j [] = ground arith
ids_at-put_id c x k j ((i, ids) ∷ index) = elim (Bool-cases (same_identifier i j)) [
  | inl e ↦ rw e (
      ground
        (arith, member-add_key c x ids, ap (λ z. same_identifier z k) (same_identifier-eq i j e)))
  | inr e ↦ rw e (ground (arith, same_identifier-join i j k, ids_at-put_id c x k j index))
]

ids_at-index_onto :
    (c : Key) (k : Identifier) (pairs : Pairs) (index : Index)
    → member c (ids_at k (index_onto index pairs)) ≡ (has pairs c k || member c (ids_at k index))
ids_at-index_onto c k [] index = refl
ids_at-index_onto c k ((x, j) ∷ pairs) index =
    ground (arith, ids_at-index_onto c k pairs (put_id j x index), ids_at-put_id c x k j index)

-- What stands in a set that is found by its identifier stands together.
together-ids_at :
    (b c : Key) (k : Identifier) (index : Index)
    → member b (ids_at k index) ≡ true
    → member c (ids_at k index) ≡ true
    → together index b c ≡ true
together-ids_at b c k [] h m = cc
together-ids_at b c k ((j, ids) ∷ index) h m = ground (arith, together-ids_at b c k index)

-- Entities that share an identifier stand together.
pub Shares-together :
    (pairs : Pairs) (b c : Key) → Shares pairs b c → together (index_of pairs) b c ≡ true
Shares-together pairs b c (k, h, m) =
    together-ids_at b c k (index_of pairs) (rw (ids_at-index_onto b k pairs [], h) refl)
      (rw (ids_at-index_onto c k pairs [], m) refl)

-- Each set holds only entities that have its identifier.
abbrev Sound : Pairs → Index → Type 0
Sound pairs index = All (λ g. (x : Key) → member x g.1 ≡ true → has pairs x g.0 ≡ true) index

put_id-Sound :
    (pairs : Pairs) (x : Key) (k : Identifier) (index : Index)
    → has pairs x k ≡ true
    → Sound pairs index
    → Sound pairs (put_id k x index)
put_id-Sound pairs x k [] h s =
    (λ y m. let e : x ≡ y = ground (arith, m) in subst (λ z. has pairs z k ≡ true) e h, tt)
put_id-Sound pairs x k ((j, ids) ∷ index) h s = elim (Bool-cases (same_identifier j k)) [
  | inl e ↦ rw e (
    λ y m. elim (Bool-cases (x == y)) [
      | inl t ↦
          subst (λ z. has pairs z j ≡ true) (==→eq x y t)
            (subst (λ z. has pairs x z ≡ true) (sym (same_identifier-eq j k e)) h)
      | inr t ↦ s.0 y (ground (arith, member-add_key y x ids, t, m))
    ],
    s.1,
  )
  | inr e ↦ rw e (s.0, put_id-Sound pairs x k index h s.1)
]

index_onto-Sound :
    (all_pairs pairs : Pairs) (index : Index)
    → ((x : Key) (k : Identifier) → has pairs x k ≡ true → has all_pairs x k ≡ true)
    → Sound all_pairs index
    → Sound all_pairs (index_onto index pairs)
index_onto-Sound all_pairs [] index within s = s
index_onto-Sound all_pairs ((x, k) ∷ pairs) index within s =
    index_onto-Sound all_pairs pairs (put_id k x index) (λ y j h. within y j (ground (arith, h)))
      (put_id-Sound all_pairs x k index (within x k (ground (arith, same_identifier_refl k))) s)

Sound-together :
    (pairs : Pairs) (b c : Key) (index : Index)
    → Sound pairs index
    → together index b c ≡ true
    → Shares pairs b c
Sound-together pairs b c [] s h = cc
Sound-together pairs b c ((k, ids) ∷ index) s h = elim (Bool-cases (member b ids && member c ids)) [
  | inl e ↦ (k, s.0 b (ground (arith, e)), s.0 c (ground (arith, e)))
  | inr e ↦ Sound-together pairs b c index s.1 (ground (arith, e, h))
]

-- Entities that stand together share an identifier.
pub together-Shares :
    (pairs : Pairs) (b c : Key) → together (index_of pairs) b c ≡ true → Shares pairs b c
together-Shares pairs b c h =
    Sound-together pairs b c (index_of pairs) (index_onto-Sound pairs pairs [] (λ x k m. m) tt) h
