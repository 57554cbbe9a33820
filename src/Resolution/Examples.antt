-- ===== src/Resolution/Examples.antt =====
-- The theorems on identity resolution at three authors, and runs of it.
use knowledge_diffusion.Base.{
  All, Bool, In, Key, List, Option, [], false, if◌then◌else◌, map, member, none, ok, refl, some,
  true, ◌+◌, ◌==◌, ◌>>=◌, ◌↔◌, ◌∷◌, ◌≡◌,
}
use knowledge_diffusion.Graph
use knowledge_diffusion.Graph.{EntityType}
use knowledge_diffusion.Resolution
use knowledge_diffusion.Resolution.{
  Json, Entries, text, entry, no_entries, Field, Identifier, Pairs, EntityRow, ObservationRow,
  candidates_of, index_of, decisions, pairs_of,
}
use knowledge_diffusion.Resolution.Linking.{Linked, candidates_of-Linked}
use knowledge_diffusion.Resolution.Deciding.{Decided, subject, decisions-agree}
use knowledge_diffusion.Resolution.Remapping.{
  AssertionBody, AssertionRow, BatchRows, rewritten, replaced, resolve_identifiers,
}
use knowledge_diffusion.Resolution.Remapping.References.{Refers, rewritten-Refers}
use knowledge_diffusion.Resolution.Conflicts.{conflict_view}

abbrev name_of : Field → Key
name_of _ = 100

abbrev is_true : Json → Bool
is_true _ = true

abbrev normal : Field → Json → Option Key
normal _ (text k) = some k
normal _ _ = none

abbrev author : Key → EntityRow
author id = record { canonical_id = id; kind = Graph.author; rest = 0 }

abbrev observed : Key → Key → ObservationRow
observed id orcid = record {
  observation_id = id + 10;
  entity_id = id;
  kind = Graph.author;
  attributes = entry 100 (text orcid) no_entries;
  rest = 0;
}

-- Authors 1 and 2 have one identifier, 3 another.
abbrev rows : List ObservationRow
rows = observed 1 70 ∷ observed 2 70 ∷ observed 3 80 ∷ []

abbrev orcid : Key → Identifier
orcid k = record { kind = Graph.author; field = Resolution.orcid_id; value = k }

abbrev pairs : Pairs
pairs = (1, orcid 70) ∷ (2, orcid 70) ∷ (3, orcid 80) ∷ []

read_pairs : pairs_of name_of is_true normal rows ≡ ok pairs
unfolding pairs_of Resolution.identifiers
read_pairs = refl

candidates_of_1 : candidates_of (index_of pairs) 1 ≡ some (1 ∷ 2 ∷ [])
unfolding candidates_of Resolution.grow Resolution.absorb
candidates_of_1 = refl

candidates_of-Linked_example :
    (cs : List Key) × (candidates_of (index_of pairs) 1 ≡ some cs)
    × ((x : Key) → (member x cs ≡ true) ↔ Linked pairs 1 x)
candidates_of-Linked_example = candidates_of-Linked pairs 1

-- Entity 2 is in the graph: the authors 1 and 2 become 2.
decided :
    decisions pairs (2 ∷ []) rows (author 1 ∷ author 2 ∷ author 3 ∷ [])
    ≡ ok (
        Resolution.resolved 1 2 true (11 ∷ 12 ∷ [])
        ∷ Resolution.resolved 2 2 false (11 ∷ 12 ∷ [])
        ∷ Resolution.resolved 3 3 false (13 ∷ [])
        ∷ [])
unfolding decisions Resolution.decide candidates_of Resolution.grow Resolution.absorb
decided = refl

-- Two entities of the graph are never merged.
decided_conflict :
    decisions pairs (1 ∷ 2 ∷ []) rows (author 1 ∷ []) ≡ ok (Resolution.conflict 1 (1 ∷ 2 ∷ []) ∷ [])
unfolding decisions Resolution.decide candidates_of Resolution.grow Resolution.absorb
decided_conflict = refl

decisions-agree_example :
    (ds : List Resolution.Decision) × (decisions pairs
        (2 ∷ [])
        rows
        (author 1 ∷ author 2 ∷ author 3 ∷ [])
      ≡ ok ds)
    × (map subject ds ≡ 1 ∷ 2 ∷ 3 ∷ [])
    × All (Decided pairs (2 ∷ [])) ds
    × ((a b t u : Key) (x y : Bool) (ids js : List Key)
        → In (Resolution.resolved a t x ids) ds
        → In (Resolution.resolved b u y js) ds
        → Linked pairs a b
        → t ≡ u)
decisions-agree_example = decisions-agree pairs (2 ∷ []) rows (author 1 ∷ author 2 ∷ author 3 ∷ [])

abbrev no_digest : Key → EntityType → Entries → Key → Key
no_digest _ _ _ _ = 1000

abbrev no_fact : Key → Key → Key → Entries → Key
no_fact head relation tail _ = head + tail

abbrev no_assertion : AssertionBody → Key
no_assertion body = 2000 + body.head_id

abbrev no_mapping : Key → Key → Key
no_mapping id _ = id

abbrev dated : Key → Key → Key → Key → AssertionRow
dated id head tail time = record {
  assertion_id = id;
  body = record {
    logical_fact_key = head + tail;
    head_id = head;
    relation = 5;
    tail_id = tail;
    valid_time = time;
    qualifiers = no_entries;
    rest = 0;
  };
}

abbrev batch : BatchRows
batch = record {
  entities = author 1 ∷ author 2 ∷ author 3 ∷ [];
  observations = rows;
  assertions = dated 40 1 3 6 ∷ dated 41 3 2 6 ∷ [];
  identities = [];
  rest = 0;
}

abbrev merge : Key → Key
merge k = if k == 1 then 2 else k

rewritten-Refers_example : Refers (rewritten no_digest no_fact no_assertion no_mapping merge batch)
rewritten-Refers_example =
    rewritten-Refers no_digest no_fact no_assertion no_mapping merge batch (record {
      observed = (refl, (refl, (refl, tt)));
      ends = ((refl, refl), ((refl, refl), tt));
      mapped = tt;
    })

-- Only the assertion that has changed gets a new identifier.
resolve_assertions :
    (resolve_identifiers name_of is_true normal no_digest no_fact no_assertion no_mapping
        (λ _. true)
        batch
        (record { entity_ids = 2 ∷ []; observations = [] })
      >>= λ r. ok r.0.assertions)
    ≡ ok (dated 2002 2 3 6 ∷ dated 41 3 2 6 ∷ [])
unfolding resolve_identifiers pairs_of Resolution.identifiers decisions Resolution.decide
    candidates_of Resolution.grow Resolution.absorb rewritten replaced
    Resolution.Remapping.new_assertion
resolve_assertions = refl

conflict_view_dates :
    conflict_view (dated 40 1 3 6 ∷ dated 41 3 2 6 ∷ dated 42 1 3 7 ∷ []) ≡ (40 ∷ 42 ∷ []) ∷ []
unfolding conflict_view Resolution.Conflicts.groups_onto
conflict_view_dates = refl
