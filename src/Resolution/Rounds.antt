-- ===== src/Resolution/Rounds.antt =====
-- One round of the `while` loop of `resolve_identifiers` in src/kdiff/construction/resolution.py.
use knowledge_diffusion.Base.{
  ==→eq, Bool-cases, Key, List, [], add_key, ap, arith, if◌then◌else◌, inl, inr, length,
  length-append, member, member-append, refl, true, ◌&&◌, ◌++◌, ◌==◌, ◌||◌, ◌∷◌, ◌≡◌, ◌≤◌,
}
use knowledge_diffusion.Resolution.{Identifier, Index, union, meets, absorb}
use knowledge_diffusion.Resolution.Sharing.{together}

pub member-union :
    (c : Key) (ids cs : List Key) → member c (union ids cs) ≡ (member c ids || member c cs)
member-union c [] cs = refl
member-union c (x ∷ ids) cs =
    ground (arith, member-union c ids (add_key x cs), member-append c cs (x ∷ []))

-- An entity that a set shares with the candidates.
meets-member :
    (ids cs : List Key)
    → meets ids cs ≡ true
    → (b : Key) × (member b ids ≡ true) × (member b cs ≡ true)
meets-member [] cs h = cc
meets-member (x ∷ ids) cs h = elim (Bool-cases (member x cs)) [
  | inl e ↦ (x, ground arith, e)
  | inr e ↦ let (b, m, n) = meets-member ids cs (ground (arith, e, h)) in (b, ground (arith, m), n)
]

member-meets :
    (b : Key) (ids cs : List Key) → member b ids ≡ true → member b cs ≡ true → meets ids cs ≡ true
member-meets b [] cs h m = cc
member-meets b (x ∷ ids) cs h m = elim (Bool-cases (x == b)) [
  | inl e ↦ let same = ap (λ z. member z cs) (==→eq x b e) in ground (arith, same, m)
  | inr e ↦ ground (arith, member-meets b ids cs, e, h, m)
]

-- A property that passes between the entities of a set.
abbrev pub Closed : (Key → Type 0) → Index → Type 0
Closed P index = (b c : Key) → together index b c ≡ true → P b → P c

abbrev pub Holds : (Key → Type 0) → List Key → Type 0
Holds P cs = (x : Key) → member x cs ≡ true → P x

pub Closed-tail :
    (P : Key → Type 0) (k : Identifier) (ids : List Key) (index : Index)
    → Closed P ((k, ids) ∷ index)
    → Closed P index
Closed-tail P k ids index h b c t = h b c (ground (arith, t))

pub union-Holds :
    (P : Key → Type 0) (ids cs : List Key) → Holds P ids → Holds P cs → Holds P (union ids cs)
union-Holds P ids cs h m x e = elim (Bool-cases (member x ids)) [
  | inl i ↦ h x i
  | inr i ↦ m x (ground (arith, member-union x ids cs, i, e))
]

pub absorb-Holds :
    (P : Key → Type 0) (index : Index) (cs : List Key)
    → Closed P index
    → Holds P cs
    → Holds P (absorb index cs)
unfolding absorb
absorb-Holds P [] cs closed h = h
absorb-Holds P ((k, ids) ∷ index) cs closed h = elim (Bool-cases (meets ids cs)) [
  | inl e ↦
      let (b, m, n) = meets-member ids cs e in
      rw e (
        absorb-Holds P index (union ids cs) (Closed-tail P k ids index closed)
          (union-Holds P ids cs (λ x i. closed b x (ground (arith, m, i)) (h b n)) h))
  | inr e ↦ rw e (absorb-Holds P index cs (Closed-tail P k ids index closed) h)
]

-- The candidates only grow.
pub absorb-grows :
    (index : Index) (cs : List Key) (x : Key)
    → member x cs ≡ true
    → member x (absorb index cs) ≡ true
unfolding absorb
absorb-grows [] cs x h = h
absorb-grows ((k, ids) ∷ index) cs x h =
    absorb-grows index (if meets ids cs then union ids cs else cs) x
      (ground (arith, member-union x ids cs, h))

length-add_key : (x : Key) (cs : List Key) → length cs ≤ length (add_key x cs)
length-add_key x cs = ground (arith, length-append cs (x ∷ []))

length-union : (ids cs : List Key) → length cs ≤ length (union ids cs)
length-union [] cs = omega arith
length-union (x ∷ ids) cs = omega (arith, length-union ids (add_key x cs), length-add_key x cs)

length-absorb : (index : Index) (cs : List Key) → length cs ≤ length (absorb index cs)
unfolding absorb
length-absorb [] cs = omega arith
length-absorb ((k, ids) ∷ index) cs =
    ground
      (arith, length-absorb index (if meets ids cs then union ids cs else cs), length-union ids cs)

-- A union that adds nothing is the same list.
union_same : (ids cs : List Key) → length (union ids cs) ≡ length cs → union ids cs ≡ cs
union_same [] cs h = refl
union_same (x ∷ ids) cs h = elim (Bool-cases (member x cs)) [
  | inl e ↦ rw e (union_same ids cs (rw e at h))
  | inr e ↦
      let more = length-union ids (cs ++ x ∷ []) in
      let h' : length (union ids (cs ++ x ∷ [])) ≡ length cs = rw e at h in
      absurd (omega (arith, more, h', length-append cs (x ∷ [])))
]

-- A round that adds nothing leaves the candidates closed.
pub absorb_same :
    (index : Index) (cs : List Key)
    → length (absorb index cs) ≡ length cs
    → Closed (λ x. member x cs ≡ true) index
unfolding absorb
absorb_same [] cs h b c t m = cc
absorb_same ((k, ids) ∷ index) cs h b c t m = elim (Bool-cases (meets ids cs)) [
  | inl e ↦
      let h' : length (absorb index (union ids cs)) ≡ length cs = rw e at h in
      let same =
        union_same ids cs
          (omega (arith, h', length-absorb index (union ids cs), length-union ids cs)) in
      let rest = absorb_same index cs (rw same at h') b c in
      elim (Bool-cases (member b ids && member c ids)) [
        | inl i ↦ ground (arith, member-union c ids cs, ap (λ l. member c l) same, i)
        | inr i ↦ rest (ground (arith, t, i)) m
      ]
  | inr e ↦
      let rest = absorb_same index cs (rw e at h) b c in
      elim (Bool-cases (member b ids && member c ids)) [
        | inl i ↦ ground (arith, e, member-meets b ids cs (ground (arith, i)) m)
        | inr i ↦ rest (ground (arith, t, i)) m
      ]
]

pub absorb_fixed :
    (index : Index) (cs : List Key) → length (absorb index cs) ≡ length cs → absorb index cs ≡ cs
unfolding absorb
absorb_fixed [] cs h = refl
absorb_fixed ((k, ids) ∷ index) cs h = elim (Bool-cases (meets ids cs)) [
  | inl e ↦
      let h' : length (absorb index (union ids cs)) ≡ length cs = rw e at h in
      let same =
        union_same ids cs
          (omega (arith, h', length-absorb index (union ids cs), length-union ids cs)) in
      rw (e, same) (absorb_fixed index cs (rw same at h'))
  | inr e ↦ rw e (absorb_fixed index cs (rw e at h))
]
