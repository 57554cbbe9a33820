-- ===== src/Witness/Examples.antt =====
-- The theorems on witnesses at a release with two papers of one author.
use knowledge_diffusion.Base.{
  Bool, Key, Option, [], ap, false, if◌then◌else◌, none, ok, refl, some, sym, true, ℕ, ◌+◌, ◌==◌,
  ◌>>=◌, ◌∙◌, ◌∷◌, ◌≡◌,
}
use knowledge_diffusion.Time
use knowledge_diffusion.Time.{Date, TimeRange, Window, ordinal, membership}
use knowledge_diffusion.Graph
use knowledge_diffusion.Graph.{Assertion, Entity, EntityType, Relation}
use knowledge_diffusion.Claims
use knowledge_diffusion.Executor.Counting.{tally}
use knowledge_diffusion.Witness.{CountRequest, count_program}
use knowledge_diffusion.Witness.Counts.{
  FrozenGraph, Release, Evidence, count_from_release, authorships,
}
use knowledge_diffusion.Witness.Bundles.{
  CountWitness, CountClaim, Report, make_witness, replay, load_release, expected_claim,
}
use knowledge_diffusion.Witness.Papers.{Papers, count_from_release-Papers}
use knowledge_diffusion.Artifacts
use knowledge_diffusion.Artifacts.{Files, get_bytes, put_bytes}
use knowledge_diffusion.Witness.Freezing.{
  freeze, release_of, stored_in, release_in, freeze-load_release,
}
use knowledge_diffusion.Witness.Replays.{Verified, report_of, replay-Verified, make_witness-replay}

abbrev on : Date → TimeRange
on d = record {
  lower = some d;
  upper = some d;
  precision = Time.day;
  end_kind = Time.bounded;
  raw = none;
}

abbrev entity : Key → EntityType → Entity
entity id kind = record { canonical_id = id; namespace = 7; kind = kind; is_site = false }

abbrev authorship : Key → Key → ℕ → Assertion
authorship id paper year = record {
  assertion_id = id;
  head_id = 1;
  relation = Graph.author_of;
  tail_id = paper;
  valid_time = on (record { year = year; month = 3; day = 1 });
  observation_kind = Graph.publication;
  source = 5;
  raw_artifact_pointer = 9;
  qualifiers = record {
    date_basis = false;
    contributing_ids = false;
    role = none;
    role_title = none;
    institution_ids = [];
    start_uncertainty = none;
    end_uncertainty = none;
  };
}

abbrev graph : FrozenGraph
graph = record {
  entities = entity 1 Graph.author ∷ entity 10 Graph.paper ∷ entity 11 Graph.paper ∷ [];
  observations = [];
  assertions = authorship 100 10 2020 ∷ authorship 101 11 2021 ∷ authorship 102 10 2020 ∷ [];
  identities = [];
  sources = record { source = 5; sha256 = 9 } ∷ [];
}

abbrev release : Release
release = record { graph = graph; graph_hash = 60; known_format = true }

abbrev request : CountRequest
request = record {
  author_id = 1;
  window = record {
    start = record { year = 2020; month = 1; day = 1 };
    end = record { year = 2020; month = 12; day = 31 };
    reference_date = record { year = 2021; month = 1; day = 1 };
    normalization = Time.explicit_inclusive;
  };
}

abbrev evidence : Evidence
evidence = record { count = 1; paper_ids = 10 ∷ []; input_ids = 100 ∷ 101 ∷ 102 ∷ [] }

counted : count_from_release graph request ≡ ok evidence
unfolding count_from_release authorships tally membership ordinal Time.days_before_year
    Time.days_before_month
counted = refl

count_from_release-Papers_example : Papers graph request evidence
count_from_release-Papers_example = count_from_release-Papers graph request evidence counted

abbrev of_graph : FrozenGraph → Key
of_graph _ = 60

abbrev of_evidence : Evidence → Key
of_evidence _ = 70

abbrev of_claim : Key → CountRequest → Key → Key
of_claim release_id _ evidence_id = release_id + evidence_id

abbrev is_stored : Key → Bool
is_stored sha = sha == 9

abbrev releases : Key → Option Release
releases id = if id == 3 then some release else none

loaded_release : load_release of_graph of_evidence of_claim is_stored releases 3 ≡ ok release
unfolding load_release
loaded_release = refl

abbrev claim : CountClaim
claim =
    expected_claim of_graph of_evidence of_claim is_stored releases (count_program request 3)
      evidence

make_witness-replay_example :
    (make_witness 3 (count_program request 3) evidence claim
      >>= replay of_graph of_evidence of_claim is_stored releases)
    ≡ ok (report_of of_graph of_evidence of_claim is_stored releases 3 evidence)
make_witness-replay_example =
    make_witness-replay of_graph of_evidence of_claim is_stored releases 3 request release evidence
      loaded_release counted

abbrev witness : CountWitness
witness = record {
  known_format = true;
  release_id = 3;
  claim_id = 73;
  program = count_program request 3;
  result = evidence;
  obligations = true;
  claim = record {
    claim_id = 73;
    is_paper_count = true;
    value = 1;
    evidence_id = 70;
    label = Claims.supported;
    original_label = Claims.supported;
    rewrite = none;
  };
}

abbrev report : Report
report = record { release_id = 3; count = 1; input_assertions = 3 }

made : make_witness 3 (count_program request 3) evidence claim ≡ ok witness
unfolding make_witness count_program
made = refl

replayed : replay of_graph of_evidence of_claim is_stored releases witness ≡ ok report
replayed =
    ap (λ r. r >>= replay of_graph of_evidence of_claim is_stored releases) (sym made)
    ∙ make_witness-replay of_graph of_evidence of_claim is_stored releases 3 request release
        evidence loaded_release counted

replay-Verified_example : Verified of_graph of_evidence of_claim is_stored releases witness report
replay-Verified_example =
    replay-Verified of_graph of_evidence of_claim is_stored releases witness report replayed

abbrev one_byte : ℕ → ℕ
one_byte _ = 1

abbrev same_number : ℕ → Key
same_number n = n

abbrev text_of : Release → Key → ℕ
text_of _ _ = 70

abbrev parsed : ℕ → Option Release
parsed n = if n == 70 then some (release_of of_graph graph) else none

abbrev captured : Files one_byte same_number
captured = (9, Artifacts.regular 9) ∷ []

abbrev with_release : Files one_byte same_number
with_release = (9, Artifacts.regular 9) ∷ (70, Artifacts.regular 70) ∷ []

frozen :
    freeze one_byte same_number text_of parsed of_graph graph 0 captured ≡ ok (70, with_release)
unfolding freeze get_bytes put_bytes
frozen = refl

freeze-load_release_example :
    load_release of_graph of_evidence of_claim
      (stored_in one_byte same_number text_of parsed of_graph with_release)
      (release_in one_byte same_number text_of parsed of_graph with_release)
      70
    ≡ ok (release_of of_graph graph)
freeze-load_release_example =
    freeze-load_release one_byte same_number text_of parsed of_graph of_evidence of_claim graph 0 70
      captured with_release refl (λ d h. h) tt (refl, (refl, (refl, tt))) frozen
