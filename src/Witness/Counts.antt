-- ===== src/Witness/Counts.antt =====
-- `count_from_release` of src/kdiff/analysis/witness.py.
use knowledge_diffusion.Base.{
  Bool, Key, List, Option, Result, [], dict, err, false, if◌then◌else◌, length, map, none, not, ok,
  raise_if, row_at, some, sorted, true, ℕ, ◌&&◌, ◌==◌, ◌>>=◌, ◌>>◌, ◌∷◌,
}
use knowledge_diffusion.Graph
use knowledge_diffusion.Graph.{Entity, Assertion}
use knowledge_diffusion.Values.{same_relation}
use knowledge_diffusion.Executor.{ExecError, Export}
use knowledge_diffusion.Executor.Counting.{tally, group_of, objects_of}
use knowledge_diffusion.Witness.{
  CountRequest, WitnessError, no_author, missing_paper, undated_papers,
}

-- A release's graph: what has been exported.
abbrev pub FrozenGraph : Type 0
FrozenGraph = Export

-- The hashes of the sources.
abbrev pub source_ids : FrozenGraph → List Key
source_ids g = map (λ s. s.sha256) g.sources

-- `known_format`: the kind and the replay version are the ones of this code.
pub record Release : Type 0 where
  pub graph : FrozenGraph
  pub graph_hash : Key
  pub known_format : Bool

pub record Evidence : Type 0 where
  pub count : ℕ
  pub paper_ids : List Key
  pub input_ids : List Key

abbrev pub kind_is : Graph.EntityType → Option Entity → Bool
kind_is k none = false
kind_is k (some e) = Graph.same_kind e.kind k

abbrev pub entity_at : FrozenGraph → Key → Option Entity
entity_at g id = row_at (λ e. e.canonical_id) (dict (λ e. e.canonical_id) g.entities) id

abbrev pub is_authorship : Key → Assertion → Bool
is_authorship author a = same_relation a.relation Graph.author_of && a.head_id == author

-- The authorships of an author, whose papers are in the graph.
unfoldable pub authorships :
    FrozenGraph → Key → List Assertion → Result WitnessError (List Assertion)
authorships g author [] = ok []
authorships g author (a ∷ rows) = do
  raise_if (is_authorship author a && not (kind_is Graph.paper (entity_at g a.tail_id)))
      missing_paper
  rest ← authorships g author rows
  ok (if is_authorship author a then a ∷ rest else rest)

abbrev pub or_insufficient {ℓ} : {A : Type ℓ} → Result ExecError A → Result WitnessError A
or_insufficient (ok a) = ok a
or_insufficient (err _) = err undated_papers

-- The loop over the papers is that of `Executor.aggregate`, without its series.
unfoldable pub count_from_release : FrozenGraph → CountRequest → Result WitnessError Evidence
count_from_release g request = do
  raise_if (not (kind_is Graph.author (entity_at g request.author_id))) no_author
  rows ← authorships g request.author_id g.assertions
  counted ←
      or_insufficient (tally false (group_of true rows) request.window (objects_of true rows) [])
  ok (record {
    count = length counted.0;
    paper_ids = sorted counted.0;
    input_ids = sorted (map (λ a. a.assertion_id) rows);
  })
