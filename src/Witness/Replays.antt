-- ===== src/Witness/Replays.antt =====
-- What a replayed witness of src/kdiff/analysis/witness.py establishes.
use knowledge_diffusion.Base.{
  >>=-eq-ok, Bool, Key, List, Option, Result, [], any, ap, arith, decided→, length, member, none,
  not, ok, ok-injective, or_raise, raise_if, refl, sym, true, ℕ, →decided, ◌==◌, ◌>>=◌, ◌||◌, ◌∙◌,
  ◌∷◌, ◌≡◌,
}
use mathlib.Core.Path.{subst}
use knowledge_diffusion.Claims
use knowledge_diffusion.Claims.{same_keys, Keys-discrete}
use knowledge_diffusion.Witness
use knowledge_diffusion.Witness.{
  check_order, check_grammar, CountRequest, CountProgram, WitnessError, valid_count, count_program,
}
use knowledge_diffusion.Witness.Counts.{
  FrozenGraph, Release, Evidence, count_from_release, source_ids,
}
use knowledge_diffusion.Witness.Bundles.{
  CountWitness, Report, make_witness, replay, load_release, expected_claim, same_evidence,
  same_claim, Label-discrete, Rewrite-discrete,
}

valid_count-eq : (p q : CountProgram) → valid_count p ≡ ok q → p ≡ q
unfolding valid_count
valid_count-eq p q h =
    let (_, _, h1) = >>=-eq-ok (check_order [] p.steps) _ h in
    let (_, _, last) = >>=-eq-ok (check_grammar p.steps) _ h1 in ok-injective last

pub eq_refl : (n : ℕ) → (n == n) ≡ true
eq_refl n = ground arith

same_keys-eq : (xs ys : List Key) → same_keys xs ys ≡ true → xs ≡ ys
same_keys-eq xs ys h = decided→ (Keys-discrete xs ys) h

same_keys_refl : (xs : List Key) → same_keys xs xs ≡ true
same_keys_refl xs = →decided (Keys-discrete xs xs) refl

same_evidence-eq : (a b : Evidence) → same_evidence a b ≡ true → a ≡ b
same_evidence-eq a b h =
    let papers = same_keys-eq a.paper_ids b.paper_ids (ground (arith, h)) in
    let inputs = same_keys-eq a.input_ids b.input_ids (ground (arith, h)) in
    let count : a.count ≡ b.count = ground (arith, h) in
    ap (λ n. record { count = n; paper_ids = a.paper_ids; input_ids = a.input_ids }) count
    ∙ ap (λ l. record { count = b.count; paper_ids = l; input_ids = a.input_ids }) papers
    ∙ ap (λ l. record { count = b.count; paper_ids = b.paper_ids; input_ids = l }) inputs

same_evidence_refl : (a : Evidence) → same_evidence a a ≡ true
same_evidence_refl a = ground (arith, same_keys_refl a.paper_ids, same_keys_refl a.input_ids)

module _ (digest_graph : FrozenGraph → Key) (digest_evidence : Evidence → Key)
    (digest_claim : Key → CountRequest → Key → Key) (stored : Key → Bool)
    (read_release : Key → Option Release) where
  abbrev pub loaded : Key → Result WitnessError Release
  loaded = load_release digest_graph digest_evidence digest_claim stored read_release

  -- A verified witness rests on a release that the store still holds, whose graph and sources are
  -- intact: the recorded result is what the count over that graph gives, and the claim states it.
  pub record Verified (w : CountWitness) (report : Report) : Type 0 where
    pub release : Release
    pub read : loaded w.release_id ≡ ok release
    pub intact : digest_graph release.graph ≡ release.graph_hash
    pub recounted : count_from_release release.graph w.program.request ≡ ok w.result
    pub claimed : (w.claim.value ≡ w.result.count) × (w.claim.label ≡ Claims.supported)
    pub reported : report.count ≡ w.result.count

  pub loaded-intact :
      (id : Key) (r : Release) → loaded id ≡ ok r → digest_graph r.graph ≡ r.graph_hash
  unfolding load_release
  loaded-intact id r h =
      let (s, _, h1) = >>=-eq-ok (or_raise (read_release id) Witness.missing_artifact) _ h in
      let (_, _, h2) = >>=-eq-ok (raise_if (not s.known_format) Witness.unsupported_release) _ h1 in
      let (_, f, h3) =
        >>=-eq-ok (raise_if (not (digest_graph s.graph == s.graph_hash)) Witness.hash_mismatch) _
          h2 in
      let (_, _, h4) =
        >>=-eq-ok
          (raise_if (any (λ k. not (stored k)) (source_ids s.graph)) Witness.missing_artifact) _
          h3 in
      let (_, _, last) =
        >>=-eq-ok
          (raise_if
            (any (λ o. not (member o.raw_artifact_pointer (source_ids s.graph)))
                s.graph.observations
              || any (λ a. not (member a.raw_artifact_pointer (source_ids s.graph)))
                  s.graph.assertions)
            Witness.missing_operand)
          _ h4 in
      subst (λ t. digest_graph t.graph ≡ t.graph_hash) (ok-injective last) (ground (arith, f))

  -- A replay that succeeds has read a release whose graph has the recorded hash, the count that the
  -- witness's program asks of it is again the recorded result, and the claim is supported, has the
  -- value of that count, and so has the report.
  pub replay-Verified :
      (w : CountWitness) (report : Report)
      → replay digest_graph digest_evidence digest_claim stored read_release w ≡ ok report
      → Verified w report
  unfolding replay valid_count
  replay-Verified w report h =
      let (_, _, h1) = >>=-eq-ok (raise_if (not w.known_format) Witness.unsupported_witness) _ h in
      let (program, v, h2) = >>=-eq-ok (valid_count w.program) _ h1 in
      let (_, _, h3) =
        >>=-eq-ok (raise_if (not (w.release_id == program.release_id)) Witness.release_differs) _
          h2 in
      let (release, l, h4) = >>=-eq-ok (loaded w.release_id) _ h3 in
      let (result, c, h5) = >>=-eq-ok (count_from_release release.graph program.request) _ h4 in
      let (_, s, h6) =
        >>=-eq-ok (raise_if (not (same_evidence result w.result)) Witness.not_replayed) _ h5 in
      let expected =
        expected_claim digest_graph digest_evidence digest_claim stored read_release program
          result in
      let (_, m, h7) =
        >>=-eq-ok
          (raise_if (not (same_claim w.claim expected) || not (w.claim.claim_id == w.claim_id))
            Witness.unsupported_claim)
          _ h6 in
      let (_, _, last) = >>=-eq-ok (raise_if (not w.obligations) Witness.no_obligations) _ h7 in
      let same : result ≡ w.result = same_evidence-eq result w.result (ground (arith, s)) in
      let claim : same_claim w.claim expected ≡ true = ground (arith, m) in
      let value : w.claim.value ≡ result.count = ground (arith, claim) in
      record {
        release = release;
        read = l;
        intact = loaded-intact w.release_id release l;
        recounted =
            subst (λ p. count_from_release release.graph p.request ≡ ok w.result)
              (sym (valid_count-eq w.program program v)) (c ∙ ap ok same);
        claimed = (
          value ∙ ap (λ e. e.count) same,
          decided→ (Label-discrete w.claim.label Claims.supported) (ground (arith, claim)),
        );
        reported = ground (arith, last) ∙ ap (λ e. e.count) same;
      }

  abbrev pub report_of : Key → Evidence → Report
  report_of release_id e = record {
    release_id = release_id;
    count = e.count;
    input_assertions = length e.input_ids;
  }

  -- The witness that is made of a count of a readable release, with the claim that the count
  -- supports, replays with that count.
  pub make_witness-replay :
      (id : Key) (request : CountRequest) (release : Release) (e : Evidence)
      → loaded id ≡ ok release
      → count_from_release release.graph request ≡ ok e
      → (make_witness id (count_program request id) e (
            expected_claim digest_graph digest_evidence digest_claim stored read_release
              (count_program request id)
              e)
          >>= replay digest_graph digest_evidence digest_claim stored read_release)
        ≡ ok (report_of id e)
  unfolding make_witness replay valid_count count_program
  make_witness-replay id request release e l c =
      rw
        (
          eq_refl e.count,
          same_keys_refl [],
          same_keys_refl (0 ∷ []),
          same_keys_refl (0 ∷ 1 ∷ []),
          same_keys_refl (2 ∷ []),
          eq_refl id,
          l,
          c,
          same_evidence_refl e,
          eq_refl (digest_claim id request (digest_evidence e)),
          eq_refl (digest_evidence e),
          →decided (Label-discrete Claims.supported Claims.supported) refl,
          →decided (Rewrite-discrete none none) refl,
          eq_refl e.count,
        )
        refl
