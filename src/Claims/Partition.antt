-- ===== src/Claims/Partition.antt =====
-- What `synthesize` of src/kdiff/analysis/claims.py keeps of the verifications.
use knowledge_diffusion.Base.{
  All, Bool, Key, List, Option, Option-cases, String, [], ap, false, inl, inr, map, none, ok, refl,
  some, sym, true, ◌++◌, ◌∷◌, ◌≡◌,
}
use mathlib.Core.Path.{subst}
use knowledge_diffusion.Values.{Value}
use knowledge_diffusion.Claims
use knowledge_diffusion.Claims.{
  AtomicClaim, Verification, Predicate, ClaimValue, Scope, Pool, verify,
}
use knowledge_diffusion.Claims.Support.{verify-verify}
use knowledge_diffusion.Claims.Synthesis.{
  Line, cited, withheld, Retained, Refusal, Synthesis, witness_of, is_supported, finalize,
  retained_of, with_retained, with_refusal, collect, synthesize, full_lines,
}

module _ (digest_value : Value → Key) (digest_claim : Key → Predicate → ClaimValue → Scope → Key)
    (digest_scoped : Key → Key) (write : List Line → String) (mapping : List (Key × Key))
    (pool : Pool) where
  -- A verification's licensed claim, kept: the pool supports it when it is verified again, and `w`
  -- is the witness that the mapping has for it.
  pub record Keeps (v : Verification) (l : AtomicClaim) (w : Key) (r : Retained) : Type 0 where
    pub licensed : v.licensed_claim ≡ some l
    pub original : r.original ≡ v.claim
    pub final : r.final ≡ l
    pub final_label : r.final_label ≡ Claims.supported
    pub unmet_scope : r.unmet_scope ≡ v.unmet_scope
    pub verification : Verification
    pub verified :
        verify digest_value digest_claim digest_scoped l pool false false ≡ ok verification
    pub supported : verification.label ≡ Claims.supported
    pub assigned : witness_of mapping l.claim_id ≡ some w

  pub record Refuses (v : Verification) (f : Refusal) : Type 0 where
    pub unlicensed : v.licensed_claim ≡ none
    pub claim_id : f.claim_id ≡ v.claim.claim_id
    pub label : f.label ≡ v.label
    pub reason : f.reason ≡ v.reason

  -- What becomes of a list of verifications, one after the other: each is kept, with a line that
  -- cites its witness, or refused.
  pub data Sorts : List Verification → List Line → List Retained → List Refusal → Type 0 where
    nothing : Sorts [] [] [] []
    kept :
        {vs : List Verification} {ls : List Line} {rs : List Retained} {fs : List Refusal}
        {v : Verification} {r : Retained} (l : AtomicClaim) (w : Key)
        → Keeps v l w r
        → Sorts vs ls rs fs
        → Sorts (v ∷ vs) (cited l w ∷ ls) (r ∷ rs) fs
    refused :
        {vs : List Verification} {ls : List Line} {rs : List Retained} {fs : List Refusal}
        {v : Verification} {f : Refusal}
        → Refuses v f
        → Sorts vs ls rs fs
        → Sorts (v ∷ vs) ls rs (f ∷ fs)

  -- The lines of what is kept come before those of what is refused.
  pub record Accounted (verifications : List Verification) (s : Synthesis) : Type 0 where
    pub citations : List Line
    pub sorted : Sorts verifications citations s.retained s.refusals
    pub lines_lem : s.lines ≡ citations ++ map (λ f. withheld f.reason) s.refusals

  abbrev pub Assigned : Option AtomicClaim → Type 0
  Assigned none = Unit
  Assigned (some l) = (w : Key) × (witness_of mapping l.claim_id ≡ some w)

  -- A result of `verify` over the pool, whose licensed claim has a witness.
  pub record Ready (v : Verification) : Type 0 where
    pub claim : AtomicClaim
    pub ambiguous : Bool
    pub countered : Bool
    pub result :
        verify digest_value digest_claim digest_scoped claim pool ambiguous countered ≡ ok v
    pub witness : Assigned v.licensed_claim

  finalized :
      (v : Verification) (l : AtomicClaim)
      → Ready v
      → v.licensed_claim ≡ some l
      → (r : Retained × Key) × (finalize digest_value digest_claim digest_scoped write mapping pool
            v l
          ≡ ok r)
        × Keeps v l r.1 r.0
  finalized v l ready e =
      let (f, h, s, _) =
        verify-verify digest_value digest_claim digest_scoped ready.claim l pool ready.ambiguous
          ready.countered v ready.result e in
      let (w, m) = subst Assigned e ready.witness in
      let good : is_supported f.label ≡ true = ap is_supported s in
      (
        (retained_of v l f, w),
        rw (h, good, m) refl,
        record {
          licensed = e;
          original = refl;
          final = refl;
          final_label = s;
          unmet_scope = refl;
          verification = f;
          verified = h;
          supported = s;
          assigned = m;
        },
      )

  collected :
      (vs : List Verification)
      → All Ready vs
      → (s : Synthesis) × (collect digest_value digest_claim digest_scoped write mapping pool vs
          ≡ ok s)
        × Sorts vs s.lines s.retained s.refusals
  unfolding collect
  collected [] h = (_, refl, nothing)
  collected (v ∷ vs) (ready, h) =
      let (s, e, a) = collected vs h in
      elim (Option-cases v.licensed_claim) [
        | inl n ↦ (
          with_refusal digest_value digest_claim digest_scoped write v s,
          rw (n, e) refl,
          refused (record { unlicensed = n; claim_id = refl; label = refl; reason = refl }) a,
        )
        | inr (l, k) ↦
            let (r, f, c) = finalized v l ready k in
            (
              with_retained digest_value digest_claim digest_scoped write r s,
              rw (k, f, e) refl,
              subst (λ k. Sorts (v ∷ vs) (cited k r.1 ∷ s.lines) (r.0 ∷ s.retained) s.refusals)
                  (sym c.final) (kept l r.1 c a),
            )
      ]

  -- Verifications of one pool, whose licensed claims have witnesses, are synthesized without an
  -- error when no text is proposed. In their order, each that has a licensed claim is retained with
  -- that claim, which the pool supports when it is verified again and whose line cites the witness
  -- that the mapping has for it; each other one is refused with its label and reason. The lines of
  -- the refusals come last.
  pub synthesize-Accounted :
      (vs : List Verification)
      → All Ready vs
      → (s : Synthesis) × (synthesize digest_value digest_claim digest_scoped write vs pool mapping
            none
          ≡ ok s)
        × Accounted vs s
  unfolding synthesize
  synthesize-Accounted vs h =
      let (s, e, a) = collected vs h in
      (
        record s { lines = full_lines digest_value digest_claim digest_scoped write s },
        rw e refl,
        record { citations = s.lines; sorted = a; lines_lem = refl },
      )
