-- ===== src/Resolution.antt =====
-- Identity resolution of src/kdiff/construction/resolution.py: the identifiers of observations, the
-- entities that share them, and the decision on each entity of a batch.
-- The fields of a record that the code only carries along are one key, `rest`. How a text is
-- stripped or a DOI read is a parameter, and so are the names of fields and the truth of a value.
pub mod Remapping
pub mod Sharing
pub mod Closure
pub mod Rounds
pub mod Linking
pub mod Contested
pub mod Targets
pub mod Deciding
pub mod Conflicts
mod Examples
use knowledge_diffusion.Base.{
  Bool, Key, List, Option, Result, [], add_key, any, distinct, false, if◌then◌else◌, length, ltb,
  map, member, none, not, ok, or_raise, select, some, sorted, suc, true, zero, ℕ, ◌&&◌, ◌++◌, ◌==◌,
  ◌>>=◌, ◌>>◌, ◌||◌, ◌∷◌,
}
use knowledge_diffusion.Graph
use knowledge_diffusion.Graph.{EntityType, same_kind}

-- A value of JSON; `scalar` is a number, a truth value or null.
mutual
  pub data Json : Type 0 where
    text : Key → Json
    scalar : Key → Json
    array : Items → Json
    object : Entries → Json

  pub data Items : Type 0 where
    no_items : Items
    item : Json → Items → Items

  pub data Entries : Type 0 where
    no_entries : Entries
    entry : Key → Json → Entries → Entries

pub data Field : Type 0 where
  orcid_id ror_id doi patent_number : Field

abbrev pub same_field : Field → Field → Bool
same_field orcid_id orcid_id = true
same_field ror_id ror_id = true
same_field doi doi = true
same_field patent_number patent_number = true
same_field _ _ = false

-- `IDENTIFIERS.get(kind, ())`
abbrev pub fields_of : EntityType → List Field
fields_of Graph.author = orcid_id ∷ []
fields_of Graph.institution = ror_id ∷ []
fields_of Graph.paper = doi ∷ []
fields_of Graph.patent = patent_number ∷ []
fields_of _ = []

pub record Identifier : Type 0 where
  pub kind : EntityType
  pub field : Field
  pub value : Key

abbrev pub same_identifier : Identifier → Identifier → Bool
same_identifier a b = same_kind a.kind b.kind && same_field a.field b.field && a.value == b.value

pub record EntityRow : Type 0 where
  pub canonical_id : Key
  pub kind : EntityType
  pub rest : Key

pub record ObservationRow : Type 0 where
  pub observation_id : Key
  pub entity_id : Key
  pub kind : EntityType
  pub attributes : Entries
  pub rest : Key

pub data ResolutionError : Type 0 where
  invalid_doi out_of_fuel invalid_batch : ResolutionError

-- `attributes.get(name)`
abbrev pub entry_at : Key → Entries → Option Json
entry_at name no_entries = none
entry_at name (entry k v rest) = let r = entry_at name rest in if k == name then some v else r

-- `dict[key, set]`, and the pairs of an entity and an identifier that `per_entity` nests.
abbrev pub Index : Type 0
Index = List (Identifier × List Key)

abbrev pub Pairs : Type 0
Pairs = List (Key × Identifier)

-- `index.setdefault(key, set()).add(id)`
abbrev pub put_id : Identifier → Key → Index → Index
put_id key id [] = (key, id ∷ []) ∷ []
put_id key id ((k, ids) ∷ index) =
    let rest = put_id key id index in
    if same_identifier k key then (k, add_key id ids) ∷ index else (k, ids) ∷ rest

abbrev pub index_onto : Index → Pairs → Index
index_onto index [] = index
index_onto index ((id, key) ∷ pairs) = index_onto (put_id key id index) pairs

abbrev pub index_of : Pairs → Index
index_of pairs = index_onto [] pairs

-- `candidates |= ids`
abbrev pub union : List Key → List Key → List Key
union [] cs = cs
union (x ∷ xs) cs = union xs (add_key x cs)

abbrev pub meets : List Key → List Key → Bool
meets ids cs = any (λ x. member x cs) ids

-- The union of the sets that hold an entity, or the entity alone.
abbrev pub holders : Key → Index → List (List Key)
holders id [] = []
holders id ((k, ids) ∷ index) =
    let rest = holders id index in if member id ids then ids ∷ rest else rest

abbrev pub union_all : List (List Key) → List Key → List Key
union_all [] cs = cs
union_all (ids ∷ sets) cs = union_all sets (union ids cs)

abbrev pub or_alone : Key → List (List Key) → List Key
or_alone id [] = id ∷ []
or_alone id (ids ∷ sets) = union_all (ids ∷ sets) []

-- One round of the `while` loop.
unfoldable pub absorb : Index → List Key → List Key
absorb [] cs = cs
absorb ((k, ids) ∷ index) cs = absorb index (if meets ids cs then union ids cs else cs)

unfoldable pub grow : ℕ → Index → List Key → Option (List Key)
grow zero index cs = none
grow (suc n) index cs =
    let next = absorb index cs in
    let again = grow n index next in if length next == length cs then some next else again

-- As many rounds as there are entries in the index, and one.
abbrev pub entries : Index → List Key
entries [] = []
entries ((k, ids) ∷ index) = ids ++ entries index

unfoldable pub candidates_of : Index → Key → Option (List Key)
candidates_of index id = grow (suc (length (entries index))) index (or_alone id (holders id index))

-- The values of a field that the candidates have.
abbrev pub values_of : Pairs → Field → List Key → List Key
values_of pairs f cs =
    distinct (map (λ p. p.1.value) (select (λ p. member p.0 cs && same_field p.1.field f) pairs))

abbrev pub conflicting : Pairs → EntityType → List Key → Bool
conflicting pairs kind cs = any (λ f. ltb 1 (length (values_of pairs f cs))) (fields_of kind)

-- A resolved entity has its target, whether that is another one, and the evidence.
pub data Decision : Type 0 where
  conflict : Key → List Key → Decision
  resolved : Key → Key → Bool → List Key → Decision

-- `min(candidates)`
abbrev pub least : Key → List Key → Key
least x [] = x
least x (y ∷ ys) = least (if ltb y x then y else x) ys

-- The sole established entity, or the least candidate.
abbrev pub target_of : Key → List Key → List Key → Key
target_of id (e ∷ established) cs = e
target_of id [] [] = id
target_of id [] (c ∷ cs) = least c cs

abbrev pub evidence : List ObservationRow → List Key → List Key
evidence rows cs = map (λ o. o.observation_id) (select (λ o. member o.entity_id cs) rows)

unfoldable pub decide : Pairs → List Key → List ObservationRow → EntityRow → List Key → Decision
decide pairs old_ids rows e cs =
    let established = select (λ c. member c old_ids) cs in
    if conflicting pairs e.kind cs || ltb 1 (length established)
    then conflict e.canonical_id (sorted cs)
    else let target = target_of e.canonical_id established cs in
      resolved e.canonical_id target (not (target == e.canonical_id)) (evidence rows cs)

-- The loop over the batch's entities.
unfoldable pub decisions :
    Pairs → List Key → List ObservationRow → List EntityRow → Result ResolutionError (List Decision)
decisions pairs old_ids rows [] = ok []
decisions pairs old_ids rows (e ∷ es) = do
  cs ← or_raise (candidates_of (index_of pairs) e.canonical_id) out_of_fuel
  rest ← decisions pairs old_ids rows es
  ok (decide pairs old_ids rows e cs ∷ rest)

module _ (field_name : Field → Key) (is_true : Json → Bool)
    (normal : Field → Json → Option Key) where
  -- A value that is there and true.
  abbrev pub present : Option Json → Option Json
  present none = none
  present (some v) = if is_true v then some v else none

  abbrev pub identifier_of :
      EntityType → Field → Option Json → Result ResolutionError (List Identifier)
  identifier_of k f none = ok []
  identifier_of k f (some v) = do
    n ← or_raise (normal f v) invalid_doi
    ok (record { kind = k; field = f; value = n } ∷ [])

  abbrev pub identifiers_in :
      EntityType → Entries → List Field → Result ResolutionError (List Identifier)
  identifiers_in k attributes [] = ok []
  identifiers_in k attributes (f ∷ fs) = do
    found ← identifier_of k f (present (entry_at (field_name f) attributes))
    rest ← identifiers_in k attributes fs
    ok (found ++ rest)

  unfoldable pub identifiers : ObservationRow → Result ResolutionError (List Identifier)
  identifiers row = identifiers_in row.kind row.attributes (fields_of row.kind)

  -- The loop that fills `index` and `per_entity`.
  unfoldable pub pairs_of : List ObservationRow → Result ResolutionError Pairs
  pairs_of [] = ok []
  pairs_of (row ∷ rows) = do
    keys ← identifiers row
    rest ← pairs_of rows
    ok (map (λ k. (row.entity_id, k)) keys ++ rest)
