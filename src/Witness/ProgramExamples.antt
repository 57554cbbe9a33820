-- ===== src/Witness/ProgramExamples.antt =====
-- The theorems on the witnesses of programs at the resolution of one author.
use knowledge_diffusion.Base.{
  All, Key, List, [], false, if◌then◌else◌, none, ok, refl, some, true, →decided, ◌+◌, ◌==◌, ◌∷◌,
  ◌≡◌,
}
use knowledge_diffusion.Graph
use knowledge_diffusion.Graph.{Entity}
use knowledge_diffusion.Values
use knowledge_diffusion.Values.{Value}
use knowledge_diffusion.Claims
use knowledge_diffusion.Claims.{
  AtomicClaim, Verification, Pool, Predicate, ClaimValue, Scope, verify, candidate, Keys-discrete,
  Predicate-discrete, ClaimValue-discrete,
}
use knowledge_diffusion.Claims.Rendering
use knowledge_diffusion.Claims.Rendering.{Sentence, render}
use knowledge_diffusion.Program
use knowledge_diffusion.Program.{GraphProgram, valid_program}
use knowledge_diffusion.Executor
use knowledge_diffusion.Executor.{Dialogue}
use knowledge_diffusion.Executor.Run.{execute, run_steps, run_call}
use knowledge_diffusion.Witness.Counts.{FrozenGraph, Release}
use knowledge_diffusion.Witness.Bundles.{load_release}
use knowledge_diffusion.Witness.Selections
use knowledge_diffusion.Witness.Selections.{
  Obligation, Card, Selection, proof_selection, collect_sources, add_operands, source_of,
}
use knowledge_diffusion.Witness.Covered.{AllRecorded, selects}
use knowledge_diffusion.Claims.Cover.{greedy_cover, cover, best}
use knowledge_diffusion.Witness.Programs.{
  Texts, Finished, ProgramWitness, loaded, run, checked, replay_program, witness_of,
  make_program_witness,
}
use knowledge_diffusion.Witness.Reproduced.{Reproduced, replay_program-Reproduced}
use knowledge_diffusion.Witness.Made.{report_of, witness_of-replays, make_program_witness-replay}

abbrev author : Entity
author = record { canonical_id = 1; namespace = 7; kind = Graph.author; is_site = false }

abbrev graph : FrozenGraph
graph = record {
  entities = author ∷ [];
  observations =
      record {
        observation_id = 50;
        entity_id = 1;
        name = none;
        title = none;
        aliases = [];
        raw_artifact_pointer = 9;
      }
      ∷ [];
  assertions = [];
  identities = [];
  sources = record { source = 5; sha256 = 9 } ∷ [];
}

abbrev release : Release
release = record { graph = graph; graph_hash = 60; known_format = true }

abbrev obligation_text : Obligation → Key
obligation_text Selections.release_integrity = 1
obligation_text Selections.claim_entailment = 2
obligation_text Selections.counterevidence = 3
obligation_text (Selections.typed_derivation k) = 100 + k
obligation_text (Selections.complete_operands k) = 200 + k
obligation_text (Selections.fact k) = 300 + k

abbrev card_text : Card → Key
card_text Selections.release = 1
card_text Selections.full_pool = 2
card_text Selections.claim = 3
card_text (Selections.of_step k) = 100 + k
card_text (Selections.of_source k) = 200 + k

abbrev texts : Texts
texts = record {
  casefold = λ t. t;
  digest_graph = λ _. 60;
  digest_evidence = λ _. 70;
  digest_count = λ _ _ _. 71;
  stored = λ sha. sha == 9;
  read_release = λ id. if id == 3 then some release else none;
  digest_value = λ _. 72;
  digest_claim = λ _ _ _ _. 73;
  digest_scoped = λ id. id + 1000;
  write = λ _. 74;
  obligation_text = obligation_text;
  card_text = card_text;
}

abbrev program : GraphProgram
program = record {
  release_id = 3;
  steps =
      record {
        id = 0;
        call = Program.resolve (record {
          kind = Graph.author;
          identifier = some 1;
          name = none;
          institution_id = none;
          role = none;
          source_id = none;
        });
        depends_on = [];
      }
      ∷ [];
  output = 0;
}

abbrev dialogue : Dialogue
dialogue = record { release_id = none; bindings = [] }

abbrev subject : Value
subject = Values.entities (1 ∷ []) Graph.author (50 ∷ [])

abbrev execution : Finished
execution = record { result = subject; steps = (0, subject) ∷ []; state = dialogue }

abbrev claim : AtomicClaim
claim = record {
  claim_id = 73;
  predicate = Claims.recorded_identity;
  step_id = 0;
  value = Claims.whole subject;
  requested_scope = Claims.frozen_release;
  evidence_ids = 72 ∷ [];
  original_claim_id = none;
}

abbrev backing : Verification
backing = Claims.decision claim Claims.supported Claims.matches (some claim) none

valid : valid_program program ≡ ok program
unfolding valid_program Program.check_steps Program.check_step Program.valid_call Program.typed_call
valid = refl

readable : loaded texts 3 ≡ ok release
unfolding load_release
readable = refl

ran : run texts 3 graph program dialogue ≡ ok execution
unfolding run Executor.new_executor execute run_steps run_call Executor.resolve Executor.matches_of
ran = refl

backed : checked texts claim execution.steps ≡ ok backing
unfolding verify Claims.verify_result Claims.verify_recorded candidate
backed =
    rw
      (
        →decided (Keys-discrete (72 ∷ []) (72 ∷ [])) refl,
        →decided (Predicate-discrete Claims.recorded_identity Claims.recorded_identity) refl,
        →decided (ClaimValue-discrete (Claims.whole subject) (Claims.whole subject)) refl,
      )
      refl

recorded : AllRecorded graph execution.steps program.steps
unfolding source_of
recorded = ((refl, tt), tt)

-- The cards of the author's record: its source covers the fact.
abbrev needed : List Key
needed = 1 ∷ 2 ∷ 3 ∷ 100 ∷ 200 ∷ 350 ∷ []

abbrev bundle : List Key → List Selections.Reference → Selections.Bundle
bundle covers references = record { covers = covers; cost = 1; references = references }

abbrev selection : Selection
selection = record {
  selected = 100 ∷ 1 ∷ 2 ∷ 3 ∷ 209 ∷ [];
  cost = 5;
  requested_budget = 4;
  budget_relaxed = true;
  covered = needed;
  bundles =
      (100, bundle (100 ∷ 200 ∷ []) (Selections.cited 0 ∷ []))
      ∷ (1, bundle (1 ∷ []) (Selections.frozen_graph ∷ []))
      ∷ (2, bundle (3 ∷ []) (Selections.complete_execution ∷ []))
      ∷ (3, bundle (2 ∷ []) (Selections.cited 73 ∷ []))
      ∷ (209, bundle (350 ∷ []) (Selections.cited 9 ∷ Selections.cited 50 ∷ []))
      ∷ [];
}

selected_cards :
    proof_selection obligation_text card_text program.steps execution.steps 73 graph 4
    ≡ ok (needed, selection)
unfolding proof_selection collect_sources add_operands source_of greedy_cover cover best
selected_cards = refl

make_program_witness-replay_example :
    (w : ProgramWitness) × (sentence : Sentence) × (make_program_witness texts 3 program execution
        claim dialogue 4
      ≡ ok w)
    × (replay_program texts w ≡ ok (report_of texts 3 execution claim sentence))
    × All (λ k. selects w.selection k ≡ true) w.proof_obligations
make_program_witness-replay_example =
    make_program_witness-replay texts 3 program release dialogue execution claim backing 4 valid
      readable ran backed refl recorded

abbrev shown : Sentence
shown = Rendering.resolves_to (1 ∷ [])

rendered : render claim execution.steps ≡ ok shown
unfolding render
rendered = refl

abbrev witness : ProgramWitness
witness = witness_of texts 3 program execution claim dialogue (needed, selection) shown

replayed : replay_program texts witness ≡ ok (report_of texts 3 execution claim shown)
replayed =
    witness_of-replays texts 3 program release dialogue execution claim backing needed selection
      shown valid readable ran backed refl (rw selected_cards refl) rendered

replay_program-Reproduced_example :
    Reproduced texts witness (report_of texts 3 execution claim shown)
replay_program-Reproduced_example =
    replay_program-Reproduced texts witness (report_of texts 3 execution claim shown) replayed
