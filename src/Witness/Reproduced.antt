-- ===== src/Witness/Reproduced.antt =====
-- What the witnesses of src/kdiff/analysis/general_witness.py establish, and that they replay.
use knowledge_diffusion.Base.{
  ==→eq, >>=-eq-ok, All, Key, List, Result, ap, arith, decided→, err, false, not, ok, ok-injective,
  raise_if, sym, true, ◌&&◌, ◌==◌, ◌||◌, ◌≡◌,
}
use mathlib.Core.Path.{subst}
use knowledge_diffusion.Claims
use knowledge_diffusion.Claims.{verify, AtomicClaim, Verification, Keys-discrete, same_keys}
use knowledge_diffusion.Claims.Licences.{Backed, verify-Licenses}
use knowledge_diffusion.Claims.Rendering.{Sentence, render, verify-supported}
use knowledge_diffusion.Program.{GraphProgram, valid_program}
use knowledge_diffusion.Witness.Counts.{Release}
use knowledge_diffusion.Witness.Bundles.{is_supported}
use knowledge_diffusion.Witness.Replays.{loaded-intact}
use knowledge_diffusion.Witness.Selections.{Selection, proof_selection}
use knowledge_diffusion.Witness.Covered.{AllRecorded, selects, proof_selection-selects}
use knowledge_diffusion.Witness.Programs
use knowledge_diffusion.Witness.Programs.{
  Texts, Finished, ProgramWitness, ProgramReport, Finished-discrete, Selection-discrete,
  same_finished, same_selection, loaded, run, checked, selected, lift, replay_program, witness_of,
  make_program_witness,
}

pub lift-eq-ok :
    {E : Type 0} {A : Type 0} (wrap : E → Programs.ProgramWitnessError) (r : Result E A) (a : A)
    → lift wrap r ≡ ok a
    → r ≡ ok a
lift-eq-ok wrap (ok b) a h = cc
lift-eq-ok wrap (err e) a h = cc

supported-eq : (l : Claims.Label) → is_supported l ≡ true → l ≡ Claims.supported
supported-eq l h = ground arith

valid_program-eq : (p q : GraphProgram) → valid_program p ≡ ok q → p ≡ q
unfolding valid_program
valid_program-eq p q h = ground (arith, h)

module _ (texts : Texts) where
  -- What a witness stands for: the release is intact, the program gives the recorded execution on
  -- it again, the claim is backed by that execution and displayed by its sentence, the recorded
  -- obligations and cards are those of the program, every operand is a record of the release and
  -- every obligation is on a card.
  pub record Reproduced (w : ProgramWitness) (report : ProgramReport) : Type 0 where
    pub release : Release
    pub read : loaded texts w.release_id ≡ ok release
    pub intact : texts.digest_graph release.graph ≡ release.graph_hash
    pub valid : valid_program w.program ≡ ok w.program
    pub reran :
        run texts w.release_id release.graph w.program w.state_before ≡ ok w.complete_execution
    pub backing : Verification
    pub verified : checked texts w.claim w.complete_execution.steps ≡ ok backing
    pub supported : backing.label ≡ Claims.supported
    pub backed : Backed texts.digest_value w.claim w.complete_execution.steps
    pub sentence : Sentence
    pub rendered : render w.claim w.complete_execution.steps ≡ ok sentence
    pub displayed : w.display ≡ texts.write sentence
    pub covered :
        selected texts w.program w.complete_execution.steps w.claim release.graph
          w.selection.requested_budget
        ≡ ok (w.proof_obligations, w.selection)
    pub recorded : AllRecorded release.graph w.complete_execution.steps w.program.steps
    pub all_covered : All (λ k. selects w.selection k ≡ true) w.proof_obligations
    pub reported : report.result ≡ w.complete_execution.result

  -- The checks of a replay, put together.
  checks-Reproduced :
      (w : ProgramWitness) (report : ProgramReport) (release : Release) (program : GraphProgram)
      (execution : Finished) (v : Verification) (expected : List Key × Selection)
      → lift Programs.in_release (loaded texts w.release_id) ≡ ok release
      → lift Programs.in_program (valid_program w.program) ≡ ok program
      → lift Programs.in_execution (run texts w.release_id release.graph program w.state_before)
        ≡ ok execution
      → same_finished execution w.complete_execution ≡ true
      → checked texts w.claim execution.steps ≡ ok v
      → is_supported v.label ≡ true
      → (sentence : Sentence)
      → lift Programs.in_rendering (render w.claim execution.steps) ≡ ok sentence
      → (w.display == texts.write sentence) ≡ true
      → selected texts program execution.steps w.claim release.graph w.selection.requested_budget
        ≡ ok expected
      → (same_keys w.proof_obligations expected.0 && same_selection w.selection expected.1) ≡ true
      → report.result ≡ execution.result
      → Reproduced w report
  checks-Reproduced w report release program execution v expected l p x s c m sentence q d e o r =
      let read = lift-eq-ok Programs.in_release (loaded texts w.release_id) release l in
      let fine = lift-eq-ok Programs.in_program (valid_program w.program) program p in
      let same_program = valid_program-eq w.program program fine in
      let same : execution ≡ w.complete_execution =
        decided→ (Finished-discrete execution w.complete_execution) s in
      let ran =
        lift-eq-ok Programs.in_execution
          (run texts w.release_id release.graph program w.state_before) execution x in
      let verified =
        lift-eq-ok Programs.in_claim
          (verify texts.digest_value texts.digest_claim texts.digest_scoped w.claim execution.steps
            false false)
          v c in
      let said = lift-eq-ok Programs.in_rendering (render w.claim execution.steps) sentence q in
      let licensed =
        verify-supported texts.digest_value texts.digest_claim texts.digest_scoped w.claim
          execution.steps false false v verified (supported-eq v.label m) in
      let (backed, _) =
        verify-Licenses texts.digest_value texts.digest_claim texts.digest_scoped w.claim w.claim
          execution.steps false false v verified licensed in
      let found =
        lift-eq-ok Programs.in_selection
          (proof_selection texts.obligation_text texts.card_text program.steps execution.steps
            w.claim.claim_id release.graph w.selection.requested_budget)
          expected e in
      let (all_covered, recorded) =
        proof_selection-selects texts.obligation_text texts.card_text program.steps execution.steps
          w.claim.claim_id release.graph w.selection.requested_budget expected.0 expected.1 found in
      let needed = decided→ (Keys-discrete w.proof_obligations expected.0) (ground (arith, o)) in
      let cards = decided→ (Selection-discrete w.selection expected.1) (ground (arith, o)) in
      record {
        release = release;
        read = read;
        intact =
            loaded-intact texts.digest_graph texts.digest_evidence texts.digest_count texts.stored
              texts.read_release w.release_id release read;
        valid = cc;
        reran = cc;
        backing = v;
        verified = cc;
        supported = supported-eq v.label m;
        backed = subst (λ x. Backed texts.digest_value w.claim x.steps) same backed;
        sentence = sentence;
        rendered = cc;
        displayed = ==→eq w.display (texts.write sentence) d;
        covered = cc;
        recorded =
            subst (λ x. AllRecorded release.graph x.steps w.program.steps) same
              (subst (λ p. AllRecorded release.graph execution.steps p.steps) (sym same_program)
                recorded);
        all_covered =
            subst (λ s. All (λ k. selects s k ≡ true) w.proof_obligations) (sym cards)
              (subst (All (λ k. selects expected.1 k ≡ true)) (sym needed) all_covered);
        reported = cc;
      }

  -- A replay that succeeds has read a release whose graph has the recorded hash and accepted the
  -- witness's program, whose run on that graph gives the recorded execution again. The claim stands
  -- on a complete result of that execution that it cites and that says what the claim says, and
  -- its sentence is the recorded one. The selection of the program's obligations gives the recorded
  -- obligations and cards; every operand of a step is a record of the release, and every obligation
  -- is on a selected card. The report has the result of the execution.
  pub replay_program-Reproduced :
      (w : ProgramWitness) (report : ProgramReport)
      → replay_program texts w ≡ ok report
      → Reproduced w report
  unfolding replay_program
  replay_program-Reproduced w report h =
      let (_, _, h1) = >>=-eq-ok (raise_if (not w.known_format) Programs.unsupported_format) _ h in
      let (release, l, h2) =
        >>=-eq-ok (lift Programs.in_release (loaded texts w.release_id)) _ h1 in
      let (program, p, h3) = >>=-eq-ok (lift Programs.in_program (valid_program w.program)) _ h2 in
      let (execution, x, h4) =
        >>=-eq-ok
          (lift Programs.in_execution (run texts w.release_id release.graph program w.state_before))
          _ h3 in
      let (_, s, h5) =
        >>=-eq-ok
          (raise_if (not (same_finished execution w.complete_execution)) Programs.not_replayed) _
          h4 in
      let (v, c, h6) = >>=-eq-ok (checked texts w.claim execution.steps) _ h5 in
      let (_, m, h7) =
        >>=-eq-ok (raise_if (not (is_supported v.label)) Programs.claim_differs) _ h6 in
      let (sentence, q, h8) =
        >>=-eq-ok (lift Programs.in_rendering (render w.claim execution.steps)) _ h7 in
      let (_, d, h9) =
        >>=-eq-ok (raise_if (not (w.display == texts.write sentence)) Programs.claim_differs) _
          h8 in
      let (expected, e, h10) =
        >>=-eq-ok
          (selected texts program execution.steps w.claim release.graph
            w.selection.requested_budget)
          _ h9 in
      let (_, o, last) =
        >>=-eq-ok
          (raise_if
            (not (same_keys w.proof_obligations expected.0)
              || not (same_selection w.selection expected.1))
            Programs.obligations_omitted)
          _ h10 in
      checks-Reproduced w report release program execution v expected l p x (ground (arith, s)) c
        (ground (arith, m)) sentence q (ground (arith, d)) e (ground (arith, o))
        (ap (λ r. r.result) (sym (ok-injective last)))
