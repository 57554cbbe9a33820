-- ===== src/Witness/Bundles.antt =====
-- `make_witness`, `load_release` and `replay` of src/kdiff/analysis/witness.py.
-- The release and the witness are read already; the hashes of `digest` are parameters, and so is
-- the reading of an artifact.
use knowledge_diffusion.Base.{
  Bool, Key, Option, Result, any, decided, false, length, member, none, not, ok, or_raise, raise_if,
  true, ℕ, ℕ_discrete, ◌&&◌, ◌==◌, ◌>>=◌, ◌>>◌, ◌||◌,
}
use knowledge_diffusion.Claims
use knowledge_diffusion.Claims.{Label, same_keys}
use knowledge_diffusion.Witness.{
  CountRequest, CountProgram, WitnessError, valid_count, unsupported_release, hash_mismatch,
  missing_artifact, missing_operand, unverified_claim, unsupported_witness, release_differs,
  not_replayed, unsupported_claim, no_obligations,
}
use knowledge_diffusion.Witness.Counts.{
  FrozenGraph, Release, Evidence, count_from_release, source_ids,
}

-- The claim that a count supports: `is_paper_count` of its predicate, and no rewrite.
pub record CountClaim : Type 0 where
  pub claim_id : Key
  pub is_paper_count : Bool
  pub value : ℕ
  pub evidence_id : Key
  pub label : Label
  pub original_label : Label
  pub rewrite : Option Key

-- `known_format`: the kind and the replay version; `obligations`: the list is the code's own.
pub record CountWitness : Type 0 where
  pub known_format : Bool
  pub release_id : Key
  pub claim_id : Key
  pub program : CountProgram
  pub result : Evidence
  pub obligations : Bool
  pub claim : CountClaim

abbrev pub is_supported : Label → Bool
is_supported Claims.supported = true
is_supported _ = false

unfoldable pub make_witness :
    Key → CountProgram → Evidence → CountClaim → Result WitnessError CountWitness
make_witness release_id program evidence claim = do
  raise_if (not (is_supported claim.label) || not (claim.value == evidence.count)) unverified_claim
  ok (record {
    known_format = true;
    release_id = release_id;
    claim_id = claim.claim_id;
    program = program;
    result = evidence;
    obligations = true;
    claim = claim;
  })

pub Label-discrete : Discrete Label
Label-discrete = hlevel

pub Rewrite-discrete : Discrete (Option Key)
Rewrite-discrete = hlevel ℕ_discrete

-- `==` of two results.
abbrev pub same_evidence : Evidence → Evidence → Bool
same_evidence a b =
    a.count == b.count && same_keys a.paper_ids b.paper_ids && same_keys a.input_ids b.input_ids

abbrev pub same_claim : CountClaim → CountClaim → Bool
same_claim a b =
    a.claim_id == b.claim_id
    && (a.is_paper_count && b.is_paper_count || not a.is_paper_count && not b.is_paper_count)
    && a.value == b.value
    && a.evidence_id == b.evidence_id
    && decided (Label-discrete a.label b.label)
    && decided (Label-discrete a.original_label b.original_label)
    && decided (Rewrite-discrete a.rewrite b.rewrite)

pub record Report : Type 0 where
  pub release_id : Key
  pub count : ℕ
  pub input_assertions : ℕ

module _ (digest_graph : FrozenGraph → Key) (digest_evidence : Evidence → Key)
    (digest_claim : Key → CountRequest → Key → Key) (stored : Key → Bool)
    (read_release : Key → Option Release) where
  -- Every source is readable, and every record cites one.
  abbrev pub check_release : Release → Result WitnessError Release
  check_release r = do
    raise_if (not r.known_format) unsupported_release
    raise_if (not (digest_graph r.graph == r.graph_hash)) hash_mismatch
    raise_if (any (λ s. not (stored s)) (source_ids r.graph)) missing_artifact
    raise_if
        (any (λ o. not (member o.raw_artifact_pointer (source_ids r.graph))) r.graph.observations
          || any (λ a. not (member a.raw_artifact_pointer (source_ids r.graph))) r.graph.assertions)
        missing_operand
    ok r

  unfoldable pub load_release : Key → Result WitnessError Release
  load_release id = or_raise (read_release id) missing_artifact >>= check_release

  -- The claim that a result supports.
  abbrev pub expected_claim : CountProgram → Evidence → CountClaim
  expected_claim program result = record {
    claim_id = digest_claim program.release_id program.request (digest_evidence result);
    is_paper_count = true;
    value = result.count;
    evidence_id = digest_evidence result;
    label = Claims.supported;
    original_label = Claims.supported;
    rewrite = none;
  }

  -- `replay` of an aggregate bundle.
  unfoldable pub replay : CountWitness → Result WitnessError Report
  replay w = do
    raise_if (not w.known_format) unsupported_witness
    program ← valid_count w.program
    raise_if (not (w.release_id == program.release_id)) release_differs
    release ← load_release w.release_id
    result ← count_from_release release.graph program.request
    raise_if (not (same_evidence result w.result)) not_replayed
    raise_if
        (not (same_claim w.claim (expected_claim program result))
          || not (w.claim.claim_id == w.claim_id))
        unsupported_claim
    raise_if (not w.obligations) no_obligations
    ok (record {
      release_id = w.release_id;
      count = result.count;
      input_assertions = length result.input_ids;
    })
