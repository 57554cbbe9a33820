-- ===== src/Witness/Programs.antt =====
-- `make_program_witness` and `replay_program` of src/kdiff/analysis/general_witness.py.
-- The witness is read already, as `store.get` reads it, and its first version has no model. Hashes,
-- the readers of artifacts, and the texts of sentences, obligations and cards are
-- parameters, gathered in a record; so is the graph of a release with the fields that the executor
-- reads.
use knowledge_diffusion.Base.{
  Bool, Key, List, Option, Result, String, decided, err, false, not, ok, raise_if, true, ℕ,
  ℕ_discrete, ◌==◌, ◌>>=◌, ◌>>◌, ◌||◌,
}
use knowledge_diffusion.Values.{Value, Value-discrete, Date-discrete, Window-discrete}
use knowledge_diffusion.Claims.{
  AtomicClaim, Pool, Predicate, ClaimValue, Scope, Verification, ClaimError, verify, same_keys,
}
use knowledge_diffusion.Claims.Rendering.{Sentence, RenderError, render}
use knowledge_diffusion.Program.{GraphProgram, ProgramError, valid_program}
use knowledge_diffusion.Executor.{Dialogue, ExecError, new_executor}
use knowledge_diffusion.Executor.Run.{execute}
use knowledge_diffusion.Witness.{CountRequest, WitnessError}
use knowledge_diffusion.Witness.Counts.{FrozenGraph, Release, Evidence}
use knowledge_diffusion.Witness.Bundles.{load_release, is_supported}
use knowledge_diffusion.Witness.Selections.{
  Obligation, Card, Selection, SelectionError, proof_selection,
}

pub record Texts : Type 0 where
  pub casefold : String → String
  pub digest_graph : FrozenGraph → Key
  pub digest_evidence : Evidence → Key
  pub digest_count : Key → CountRequest → Key → Key
  pub stored : Key → Bool
  pub read_release : Key → Option Release
  pub digest_value : Value → Key
  pub digest_claim : Key → Predicate → ClaimValue → Scope → Key
  pub digest_scoped : Key → Key
  pub write : Sentence → Key
  pub obligation_text : Obligation → Key
  pub card_text : Card → Key

-- A finished execution, as a witness keeps it.
pub record Finished : Type 0 where
  pub result : Value
  pub steps : Pool
  pub state : Dialogue

pub record ProgramWitness : Type 0 where
  pub known_format : Bool
  pub release_id : Key
  pub program : GraphProgram
  pub state_before : Dialogue
  pub complete_execution : Finished
  pub claim : AtomicClaim
  pub proof_obligations : List Key
  pub selection : Selection
  pub display : Key

pub data ProgramWitnessError : Type 0 where
  unverified unsupported_format not_replayed claim_differs obligations_omitted : ProgramWitnessError
  in_release : WitnessError → ProgramWitnessError
  in_program : ProgramError → ProgramWitnessError
  in_execution : ExecError → ProgramWitnessError
  in_claim : ClaimError → ProgramWitnessError
  in_rendering : RenderError → ProgramWitnessError
  in_selection : SelectionError → ProgramWitnessError

-- An error of another part of the program.
abbrev pub lift {ℓ} :
    {E : Type 0} {A : Type ℓ}
    → (E → ProgramWitnessError)
    → Result E A
    → Result ProgramWitnessError A
lift wrap (ok a) = ok a
lift wrap (err e) = err (wrap e)

pub Finished-discrete : Discrete Finished
Finished-discrete = hlevel (ℕ_discrete, Date-discrete, Window-discrete, Value-discrete)

pub Selection-discrete : Discrete Selection
Selection-discrete = hlevel ℕ_discrete

-- `==` of two executions, of two selections.
abbrev pub same_finished : Finished → Finished → Bool
same_finished a b = decided (Finished-discrete a b)

abbrev pub same_selection : Selection → Selection → Bool
same_selection a b = decided (Selection-discrete a b)

pub record ProgramReport : Type 0 where
  pub release_id : Key
  pub claim : AtomicClaim
  pub result : Value
  pub shown : Key

module _ (texts : Texts) where
  abbrev pub loaded : Key → Result WitnessError Release
  loaded =
      load_release texts.digest_graph texts.digest_evidence texts.digest_count texts.stored
        texts.read_release

  -- `Executor(…).execute(program)`
  unfoldable pub run : Key → FrozenGraph → GraphProgram → Dialogue → Result ExecError Finished
  run id g program state = do
    x ← new_executor g id state
    r ← execute texts.casefold (texts.digest_graph g) x program state
    ok (record { result = r.result; steps = r.steps; state = r.state })

  abbrev pub checked : AtomicClaim → Pool → Result ProgramWitnessError Verification
  checked claim pool =
      lift in_claim
        (verify texts.digest_value texts.digest_claim texts.digest_scoped claim pool false false)

  abbrev pub selected :
      GraphProgram
      → Pool
      → AtomicClaim
      → FrozenGraph
      → ℕ
      → Result ProgramWitnessError (List Key × Selection)
  selected program pool claim g budget = lift in_selection (
      proof_selection texts.obligation_text texts.card_text program.steps pool claim.claim_id g
        budget)

  unfoldable pub replay_program : ProgramWitness → Result ProgramWitnessError ProgramReport
  replay_program w = do
    raise_if (not w.known_format) unsupported_format
    release ← lift in_release (loaded w.release_id)
    program ← lift in_program (valid_program w.program)
    execution ← lift in_execution (run w.release_id release.graph program w.state_before)
    raise_if (not (same_finished execution w.complete_execution)) not_replayed
    v ← checked w.claim execution.steps
    raise_if (not (is_supported v.label)) claim_differs
    sentence ← lift in_rendering (render w.claim execution.steps)
    raise_if (not (w.display == texts.write sentence)) claim_differs
    expected ← selected program execution.steps w.claim release.graph w.selection.requested_budget
    raise_if
        (not (same_keys w.proof_obligations expected.0)
          || not (same_selection w.selection expected.1))
        obligations_omitted
    ok (record {
      release_id = w.release_id;
      claim = w.claim;
      result = execution.result;
      shown = w.display;
    })

  abbrev pub witness_of :
      Key
      → GraphProgram
      → Finished
      → AtomicClaim
      → Dialogue
      → List Key × Selection
      → Sentence
      → ProgramWitness
  witness_of release_id program execution claim state (needed, selection) sentence = record {
    known_format = true;
    release_id = release_id;
    program = program;
    state_before = state;
    complete_execution = execution;
    claim = claim;
    proof_obligations = needed;
    selection = selection;
    display = texts.write sentence;
  }

  -- The witness is stored, and read again by its replay.
  unfoldable pub make_program_witness :
      Key
      → GraphProgram
      → Finished
      → AtomicClaim
      → Dialogue
      → ℕ
      → Result ProgramWitnessError ProgramWitness
  make_program_witness release_id program execution claim state budget = do
    v ← checked claim execution.steps
    raise_if (not (is_supported v.label)) unverified
    release ← lift in_release (loaded release_id)
    cover ← selected program execution.steps claim release.graph budget
    sentence ← lift in_rendering (render claim execution.steps)
    let w = witness_of release_id program execution claim state cover sentence
    report ← replay_program w
    ok w
