-- ===== src/Witness/Made.antt =====
-- The witnesses that src/kdiff/analysis/general_witness.py makes of graph programs, and their replay.
use knowledge_diffusion.Base.{All, Key, List, false, ok, refl, true, ℕ, →decided, ◌≡◌}
use knowledge_diffusion.Claims
use knowledge_diffusion.Claims.{verify, AtomicClaim, Verification, Keys-discrete, same_keys}
use knowledge_diffusion.Claims.Rendering.{Sentence, render, verify-render, verify-supported}
use knowledge_diffusion.Program.{GraphProgram, valid_program}
use knowledge_diffusion.Executor.{Dialogue}
use knowledge_diffusion.Witness.Counts.{Release}
use knowledge_diffusion.Witness.Replays.{eq_refl}
use knowledge_diffusion.Witness.Selections.{Selection}
use knowledge_diffusion.Witness.Covered.{AllRecorded, selects, proof_selection-Covers}
use knowledge_diffusion.Witness.Programs
use knowledge_diffusion.Witness.Programs.{
  Texts, Finished, ProgramWitness, ProgramReport, Finished-discrete, Selection-discrete,
  same_finished, same_selection, loaded, run, checked, selected, lift, replay_program, witness_of,
  make_program_witness,
}
use knowledge_diffusion.Witness.Reproduced.{lift-eq-ok}

module _ (texts : Texts) where
  abbrev pub report_of : Key → Finished → AtomicClaim → Sentence → ProgramReport
  report_of id execution claim sentence = record {
    release_id = id;
    claim = claim;
    result = execution.result;
    shown = texts.write sentence;
  }

  -- A witness of a finished run, with the selection that its program gives, replays.
  pub witness_of-replays :
      (id : Key) (p : GraphProgram) (release : Release) (d : Dialogue) (execution : Finished)
      (claim : AtomicClaim) (v : Verification) (needed : List Key) (cover : Selection)
      (sentence : Sentence)
      → valid_program p ≡ ok p
      → loaded texts id ≡ ok release
      → run texts id release.graph p d ≡ ok execution
      → checked texts claim execution.steps ≡ ok v
      → v.label ≡ Claims.supported
      → selected texts p execution.steps claim release.graph cover.requested_budget
        ≡ ok (needed, cover)
      → render claim execution.steps ≡ ok sentence
      → replay_program texts (witness_of texts id p execution claim d (needed, cover) sentence)
        ≡ ok (report_of id execution claim sentence)
  unfolding replay_program
  witness_of-replays id p release d execution claim v needed cover sentence fine l x c s found
        shown =
      rw
        (
          l,
          fine,
          x,
          →decided (Finished-discrete execution execution) refl,
          c,
          s,
          shown,
          eq_refl (texts.write sentence),
          found,
          →decided (Keys-discrete needed needed) refl,
          →decided (Selection-discrete cover cover) refl,
        )
        refl

  -- A program that is valid, run on a readable release, with a claim that its results support and
  -- operands that are all records of the release: a witness is made, it replays with that result,
  -- and each of its obligations is on a card that it has selected.
  pub make_program_witness-replay :
      (id : Key) (p : GraphProgram) (release : Release) (d : Dialogue) (execution : Finished)
      (claim : AtomicClaim) (v : Verification) (budget : ℕ)
      → valid_program p ≡ ok p
      → loaded texts id ≡ ok release
      → run texts id release.graph p d ≡ ok execution
      → checked texts claim execution.steps ≡ ok v
      → v.label ≡ Claims.supported
      → AllRecorded release.graph execution.steps p.steps
      → (w : ProgramWitness) × (sentence : Sentence) × (make_program_witness texts id p execution
            claim d budget
          ≡ ok w)
        × (replay_program texts w ≡ ok (report_of id execution claim sentence))
        × All (λ k. selects w.selection k ≡ true) w.proof_obligations
  unfolding make_program_witness
  make_program_witness-replay id p release d execution claim v budget ok_p l x c s recorded =
      let (needed, cover, found, asked, all_covered) =
        proof_selection-Covers texts.obligation_text texts.card_text p.steps execution.steps
          claim.claim_id release.graph budget recorded in
      let fine =
        lift-eq-ok Programs.in_claim
          (verify texts.digest_value texts.digest_claim texts.digest_scoped claim execution.steps
            false false)
          v c in
      let licensed =
        verify-supported texts.digest_value texts.digest_claim texts.digest_scoped claim
          execution.steps false false v fine s in
      let (sentence, shown) =
        verify-render texts.digest_value texts.digest_claim texts.digest_scoped claim claim
          execution.steps false false v fine licensed in
      let again =
        witness_of-replays id p release d execution claim v needed cover sentence ok_p l x c s
          (rw (asked, found) refl) shown in
      (
        witness_of texts id p execution claim d (needed, cover) sentence,
        sentence,
        rw (c, s, l, found, shown, again) refl,
        again,
        all_covered,
      )
