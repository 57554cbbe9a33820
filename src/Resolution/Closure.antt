-- ===== src/Resolution/Closure.antt =====
-- The `while` loop of `resolve_identifiers` in src/kdiff/construction/resolution.py ends.
use knowledge_diffusion.Base.{
  ==→eq, Bool, Bool-cases, Key, List, [], add_key, ap, arith, false, if◌then◌else◌, inl, inr,
  length, length-append, member, member-append, not, refl, select, some, suc, true, zero, ℕ, ◌++◌,
  ◌+◌, ◌<◌, ◌==◌, ◌∷◌, ◌≡◌, ◌≤◌,
}
use knowledge_diffusion.Resolution.{Index, union, meets, absorb, grow, entries}

-- How many elements of a list are not yet among the candidates.
abbrev missing : List Key → List Key → ℕ
missing u cs = length (select (λ x. not (member x cs)) u)

missing_mono : (u cs : List Key) (x : Key) → missing u (cs ++ x ∷ []) ≤ missing u cs
missing_mono [] cs x = omega arith
missing_mono (y ∷ u) cs x = ground (arith, member-append y cs (x ∷ []), missing_mono u cs x)

missing_less :
    (u cs : List Key) (x : Key)
    → member x u ≡ true
    → member x cs ≡ false
    → missing u (cs ++ x ∷ []) + 1 ≤ missing u cs
missing_less [] cs x h m = cc
missing_less (y ∷ u) cs x h m = elim (Bool-cases (y == x)) [
  | inl e ↦
      let same = ap (λ z. member z cs) (==→eq y x e) in
      ground (arith, member-append y cs (x ∷ []), missing_mono u cs x, same, e, m)
  | inr e ↦ ground (arith, member-append y cs (x ∷ []), missing_less u cs x, e)
]

-- What is added is no longer missing.
add_key-balance :
    (u cs : List Key) (x : Key)
    → member x u ≡ true
    → missing u (add_key x cs) + length (add_key x cs) ≤ missing u cs + length cs
add_key-balance u cs x h = elim (Bool-cases (member x cs)) [
  | inl e ↦ rw e (omega arith)
  | inr e ↦ rw e (omega (arith, missing_less u cs x h e, length-append cs (x ∷ [])))
]

add_key-length : (cs : List Key) (x : Key) → length cs ≤ length (add_key x cs)
add_key-length cs x = ground (arith, length-append cs (x ∷ []))

abbrev Within : List Key → List Key → Type 0
Within u ids = (x : Key) → member x ids ≡ true → member x u ≡ true

union-balance :
    (u ids cs : List Key)
    → Within u ids
    → (missing u (union ids cs) + length (union ids cs) ≤ missing u cs + length cs)
      × (length cs ≤ length (union ids cs))
union-balance u [] cs h = (omega arith, omega arith)
union-balance u (x ∷ ids) cs h =
    let (a, b) = union-balance u ids (add_key x cs) (λ y m. h y (ground (arith, m))) in
    (
      omega (arith, a, add_key-balance u cs x (h x (ground arith))),
      omega (arith, b, add_key-length cs x),
    )

choice-balance :
    (u ids cs : List Key) (b : Bool)
    → Within u ids
    → (missing u (if b then union ids cs else cs) + length (if b then union ids cs else cs)
        ≤ missing u cs + length cs)
      × (length cs ≤ length (if b then union ids cs else cs))
choice-balance u ids cs true h = union-balance u ids cs h
choice-balance u ids cs false h = (omega arith, omega arith)

absorb-balance :
    (u : List Key) (index : Index) (cs : List Key)
    → Within u (entries index)
    → (missing u (absorb index cs) + length (absorb index cs) ≤ missing u cs + length cs)
      × (length cs ≤ length (absorb index cs))
unfolding absorb
absorb-balance u [] cs h = (omega arith, omega arith)
absorb-balance u ((k, ids) ∷ index) cs h =
    let next : List Key = if meets ids cs then union ids cs else cs in
    let (a, b) =
      absorb-balance u index next
        (λ x m. h x (ground (arith, member-append x ids (entries index), m))) in
    let (c, d) =
      choice-balance u ids cs (meets ids cs)
        (λ x m. h x (ground (arith, member-append x ids (entries index), m))) in
    (omega (arith, a, c), omega (arith, b, d))

-- With more rounds than entries that are missing, the loop ends by its test.
grow-ends :
    (u : List Key) (n : ℕ) (index : Index) (cs : List Key)
    → Within u (entries index)
    → missing u cs < n
    → (r : List Key) × (grow n index cs ≡ some r)
unfolding grow
grow-ends u zero index cs w h = absurd (omega arith)
grow-ends u (suc n) index cs w h = elim (Bool-cases (length (absorb index cs) == length cs)) [
  | inl e ↦ (absorb index cs, rw e refl)
  | inr e ↦
      let (a, b) = absorb-balance u index cs w in
      let (r, f) = grow-ends u n index (absorb index cs) w (ground (arith, a, b, e, h)) in
      (r, rw e f)
]

missing-le : (u cs : List Key) → missing u cs ≤ length u
missing-le [] cs = omega arith
missing-le (x ∷ u) cs = ground (arith, missing-le u cs)

-- The loop ends within one round more than the index has entries.
pub grow-total :
    (index : Index) (cs : List Key)
    → (r : List Key) × (grow (suc (length (entries index))) index cs ≡ some r)
grow-total index cs =
    grow-ends (entries index) (suc (length (entries index))) index cs (λ x m. m)
      (omega (arith, missing-le (entries index) cs))
