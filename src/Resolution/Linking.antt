-- ===== src/Resolution/Linking.antt =====
-- Which candidates `resolve_identifiers` of src/kdiff/construction/resolution.py finds.
use knowledge_diffusion.Base.{
  ==→eq, Bool-cases, Key, List, [], arith, inl, inr, length, member, some, suc, sym, true, zero, ℕ,
  ◌==◌, ◌↔◌, ◌∙◌, ◌∷◌, ◌≡◌,
}
use mathlib.Core.Path.{subst}
use knowledge_diffusion.Resolution.{
  Index, Pairs, union, absorb, grow, holders, union_all, or_alone, candidates_of, index_of,
}
use knowledge_diffusion.Resolution.Sharing.{Shares, Shares-together, together-Shares}
use knowledge_diffusion.Resolution.Closure.{grow-total}
use knowledge_diffusion.Resolution.Rounds.{
  Closed, Holds, Closed-tail, member-union, union-Holds, absorb-Holds, absorb-grows, absorb_same,
  absorb_fixed,
}

-- Entities that are linked by a chain of shared identifiers.
pub data Linked (pairs : Pairs) (a : Key) : Key → Type 0 where
  itself : Linked pairs a a
  through : {b c : Key} → Linked pairs a b → Shares pairs b c → Linked pairs a c

-- What the loop ends with.
record Grown (P : Key → Type 0) (index : Index) (cs result : List Key) : Type 0 where
  holds : Holds P result
  kept : (x : Key) → member x cs ≡ true → member x result ≡ true
  closed : Closed (λ x. member x result ≡ true) index

grow-Grown :
    (P : Key → Type 0) (n : ℕ) (index : Index) (cs result : List Key)
    → Closed P index
    → Holds P cs
    → grow n index cs ≡ some result
    → Grown P index cs result
unfolding grow
grow-Grown P zero index cs result closed h e = cc
grow-Grown P (suc n) index cs result closed h e =
    elim (Bool-cases (length (absorb index cs) == length cs)) [
      | inl t ↦
          let equal = ==→eq (length (absorb index cs)) (length cs) t in
          let done : absorb index cs ≡ result = ground (arith, e, t) in
          let same : cs ≡ result = sym (absorb_fixed index cs equal) ∙ done in
          record {
            holds = subst (Holds P) same h;
            kept = λ x m. subst (λ l. member x l ≡ true) same m;
            closed =
                subst (λ l. Closed (λ x. member x l ≡ true) index) same
                  (absorb_same index cs equal);
          }
      | inr t ↦
          let rest =
            grow-Grown P n index (absorb index cs) result closed (absorb-Holds P index cs closed h)
              (rw t at e) in
          record {
            holds = rest.holds;
            kept = λ x m. rest.kept x (absorb-grows index cs x m);
            closed = rest.closed;
          }
    ]

-- The sets that hold an entity.
union_all-Holds :
    (P : Key → Type 0) (id : Key) (index : Index) (cs : List Key)
    → Closed P index
    → P id
    → Holds P cs
    → Holds P (union_all (holders id index) cs)
union_all-Holds P id [] cs closed p h = h
union_all-Holds P id ((k, ids) ∷ index) cs closed p h = elim (Bool-cases (member id ids)) [
  | inl e ↦ rw e (
      union_all-Holds P id index (union ids cs) (Closed-tail P k ids index closed) p
        (union-Holds P ids cs (λ x i. closed id x (ground (arith, e, i)) p) h))
  | inr e ↦ rw e (union_all-Holds P id index cs (Closed-tail P k ids index closed) p h)
]

union_all-kept :
    (id x : Key) (index : Index) (cs : List Key)
    → member x cs ≡ true
    → member x (union_all (holders id index) cs) ≡ true
union_all-kept id x [] cs h = h
union_all-kept id x ((k, ids) ∷ index) cs h = elim (Bool-cases (member id ids)) [
  | inl e ↦
      rw e (union_all-kept id x index (union ids cs) (ground (arith, member-union x ids cs, h)))
  | inr e ↦ rw e (union_all-kept id x index cs h)
]

or_alone-Holds :
    (P : Key → Type 0) (id : Key) (index : Index)
    → Closed P index
    → P id
    → Holds P (or_alone id (holders id index))
or_alone-Holds P id [] closed p = λ x m. let same : id ≡ x = ground (arith, m) in subst P same p
or_alone-Holds P id ((k, ids) ∷ index) closed p = elim (Bool-cases (member id ids)) [
  | inl e ↦ rw e (
      union_all-Holds P id index (union ids []) (Closed-tail P k ids index closed) p
        (union-Holds P ids [] (λ x i. closed id x (ground (arith, e, i)) p) (λ x m. cc)))
  | inr e ↦ rw e (or_alone-Holds P id index (Closed-tail P k ids index closed) p)
]

or_alone_self : (id : Key) (index : Index) → member id (or_alone id (holders id index)) ≡ true
or_alone_self id [] = ground arith
or_alone_self id ((k, ids) ∷ index) = elim (Bool-cases (member id ids)) [
  | inl e ↦
      rw e (union_all-kept id id index (union ids []) (ground (arith, member-union id ids [], e)))
  | inr e ↦ rw e (or_alone_self id index)
]

-- A closed list that holds an entity holds all that are linked with it.
Linked-member :
    (pairs : Pairs) (id : Key) (cs : List Key)
    → Closed (λ x. member x cs ≡ true) (index_of pairs)
    → member id cs ≡ true
    → (x : Key) → Linked pairs id x
    → member x cs ≡ true
Linked-member pairs id cs closed self x itself = self
Linked-member pairs id cs closed self x (through {b} l s) =
    closed b x (Shares-together pairs b x s) (Linked-member pairs id cs closed self b l)

-- The loop over the candidates of an entity ends, and they are exactly the entities that a chain
-- of shared identifiers links with it.
pub candidates_of-Linked :
    (pairs : Pairs) (id : Key)
    → (cs : List Key) × (candidates_of (index_of pairs) id ≡ some cs)
      × ((x : Key) → (member x cs ≡ true) ↔ Linked pairs id x)
unfolding candidates_of
candidates_of-Linked pairs id =
    let index = index_of pairs in
    let (cs, e) = grow-total index (or_alone id (holders id index)) in
    let closed : Closed (Linked pairs id) index =
      λ b c t l. through l (together-Shares pairs b c t) in
    let grown =
      grow-Grown (Linked pairs id) _ index (or_alone id (holders id index)) cs closed
        (or_alone-Holds (Linked pairs id) id index closed itself) e in
    (
      cs,
      e,
      λ x. (
        grown.holds x,
        Linked-member pairs id cs grown.closed (grown.kept id (or_alone_self id index)) x,
      ),
    )
