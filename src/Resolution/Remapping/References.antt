-- ===== src/Resolution/Remapping/References.antt =====
-- The references of a batch that src/kdiff/construction/resolution.py has rewritten.
use knowledge_diffusion.Base.{
  ==→eq, All, Bool, Bool-cases, Key, List, [], any, ap, arith, dict, inl, inr, map, put_row,
  put_rows, refl, true, ◌==◌, ◌||◌, ◌∷◌, ◌≡◌,
}
use knowledge_diffusion.Graph.{EntityType}
use knowledge_diffusion.Resolution.{Entries, EntityRow}
use knowledge_diffusion.Resolution.Remapping.{
  AssertionBody, BatchRows, rewritten, new_entity, new_observation, new_assertion, new_identity,
}

-- An entity of the batch.
abbrev pub listed : List EntityRow → Key → Bool
listed es id = any (λ e. e.canonical_id == id) es

-- Every reference is to an entity of the batch.
pub record Refers (b : BatchRows) : Type 0 where
  pub observed : All (λ o. listed b.entities o.entity_id ≡ true) b.observations
  pub ends :
      All
        (λ a. (listed b.entities a.body.head_id ≡ true) × (listed b.entities a.body.tail_id ≡ true))
        b.assertions
  pub mapped : All (λ i. listed b.entities i.canonical_id ≡ true) b.identities

All-map :
    {A B : Type 0} (P : A → Type 0) (Q : B → Type 0) (g : A → B)
    → ((x : A) → P x → Q (g x))
    → (xs : List A) → All P xs
    → All Q (map g xs)
All-map P Q g step [] h = tt
All-map P Q g step (x ∷ xs) h = (step x h.0, All-map P Q g step xs h.1)

listed-put_row :
    (id : Key) (e : EntityRow) (table : List EntityRow)
    → listed (put_row (λ e. e.canonical_id) e table) id ≡ (e.canonical_id == id || listed table id)
listed-put_row id e [] = refl
listed-put_row id e (x ∷ table) = ground (arith, listed-put_row id e table)

listed-put_rows :
    (id : Key) (es table : List EntityRow)
    → listed (put_rows (λ e. e.canonical_id) es table) id ≡ (listed es id || listed table id)
listed-put_rows id [] table = refl
listed-put_rows id (e ∷ es) table = ground (
  arith,
  listed-put_rows id es (put_row (λ e. e.canonical_id) e table),
  listed-put_row id e table,
)

module _ (digest_observation : Key → EntityType → Entries → Key → Key)
    (digest_fact : Key → Key → Key → Entries → Key) (digest_assertion : AssertionBody → Key)
    (digest_mapping : Key → Key → Key) (f : Key → Key) where
  abbrev renamed : EntityRow → EntityRow
  renamed = new_entity digest_observation digest_fact digest_assertion digest_mapping f

  listed-map :
      (id : Key) (es : List EntityRow) → listed es id ≡ true → listed (map renamed es) (f id) ≡ true
  listed-map id [] h = cc
  listed-map id (e ∷ es) h = elim (Bool-cases (e.canonical_id == id)) [
    | inl same ↦ let equal = ap f (==→eq e.canonical_id id same) in ground (arith, equal)
    | inr other ↦ ground (arith, listed-map id es, other, h)
  ]

  abbrev merged : List EntityRow → List EntityRow
  merged es = dict (λ e. e.canonical_id) (map renamed es)

  listed-merged :
      (id : Key) (es : List EntityRow) → listed es id ≡ true → listed (merged es) (f id) ≡ true
  listed-merged id es h =
      ground (arith, listed-put_rows (f id) (map renamed es) [], listed-map id es h)

  -- A batch whose references are to its own entities is rewritten into another such batch,
  -- whatever the replacements.
  pub rewritten-Refers :
      (b : BatchRows)
      → Refers b
      → Refers (rewritten digest_observation digest_fact digest_assertion digest_mapping f b)
  unfolding rewritten new_observation new_assertion new_identity
  rewritten-Refers b r = record {
    observed =
        All-map _ _ _ (λ o h. listed-merged o.entity_id b.entities h) b.observations r.observed;
    ends =
        All-map _ _ _
          (λ a (h, k).
            (listed-merged a.body.head_id b.entities h, listed-merged a.body.tail_id b.entities k))
          b.assertions r.ends;
    mapped = All-map _ _ _ (λ i h. listed-merged i.canonical_id b.entities h) b.identities r.mapped;
  }
