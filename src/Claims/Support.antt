-- ===== src/Claims/Support.antt =====
-- Which claims `verify` (src/kdiff/analysis/claims.py) supports.
use knowledge_diffusion.Base.{
  Bool, Key, Result, [], ap, arith, false, inl, inr, none, ok, refl, some, sym, true, →decided, ◌∙◌,
  ◌∷◌, ◌≡◌,
}
use mathlib.Core.Path.{subst}
use knowledge_diffusion.Values.{Value}
use knowledge_diffusion.Claims
use knowledge_diffusion.Claims.{
  AtomicClaim, Verification, Predicate, ClaimValue, Scope, Pool, verify,
}
use knowledge_diffusion.Claims.Licences.{Backed, Agrees, Licenses, verify-Licenses}

module _ (digest_value : Value → Key) (digest_claim : Key → Predicate → ClaimValue → Scope → Key)
    (digest_scoped : Key → Key) where
  abbrev verifying : AtomicClaim → Pool → Bool → Bool → Result Claims.ClaimError Verification
  verifying = verify digest_value digest_claim digest_scoped

  abbrev deciding : AtomicClaim → Value → Result Claims.ClaimError Verification
  deciding = Claims.verify_result digest_value digest_claim digest_scoped

  -- The verification that supports a claim as it stands.
  abbrev pub Supports : AtomicClaim → Result Claims.ClaimError Verification → Type 0
  Supports claim r =
      (v : Verification) × (r ≡ ok v)
      × (v.label ≡ Claims.supported)
      × (v.licensed_claim ≡ some claim)

  verify_absence-Supports :
      (claim : AtomicClaim)
      → claim.value ≡ Claims.number 0
      → claim.requested_scope ≡ Claims.frozen_release
      → Claims.verify_absence digest_value digest_claim digest_scoped claim (some 0)
        ≡ Claims.decision claim Claims.supported Claims.scoped_absence_holds (some claim) none
  unfolding Claims.verify_absence
  verify_absence-Supports claim e f = rw (e, f)

  verify_recorded-Supports :
      (claim expected : AtomicClaim)
      → claim.predicate ≡ expected.predicate
      → claim.value ≡ expected.value
      → claim.requested_scope ≡ Claims.frozen_release
      → Claims.verify_recorded digest_value digest_claim digest_scoped claim expected
        ≡ Claims.decision claim Claims.supported Claims.matches (some claim) none
  unfolding Claims.verify_recorded
  verify_recorded-Supports claim expected p q f =
      let same = →decided (Claims.Predicate-discrete claim.predicate expected.predicate) p in
      let equal = →decided (Claims.ClaimValue-discrete claim.value expected.value) q in
      ground (arith, same, equal, f)

  deciding-absence :
      (claim : AtomicClaim) (result : Value)
      → claim.evidence_ids ≡ digest_value result ∷ []
      → claim.predicate ≡ Claims.scoped_absence
      → deciding claim result
        ≡ ok (
            Claims.verify_absence digest_value digest_claim digest_scoped claim
              (Claims.result_size result))
  unfolding Claims.verify_result
  deciding-absence claim result cites p =
      let same =
        →decided (Claims.Keys-discrete claim.evidence_ids (digest_value result ∷ [])) cites in
      rw (same, p)

  presentable_plain :
      (result : Value) (p : Predicate)
      → Claims.presentable result ≡ some p
      → (Claims.is_causal p ≡ false) × (Claims.is_absence p ≡ false)
  presentable_plain result p h = ground arith

  deciding-recorded :
      (claim : AtomicClaim) (result : Value)
      → claim.evidence_ids ≡ digest_value result ∷ []
      → Claims.presentable result ≡ some claim.predicate
      → deciding claim result
        ≡ ok (
            Claims.verify_recorded digest_value digest_claim digest_scoped claim (
              Claims.candidate_of digest_value digest_claim digest_scoped claim.step_id result
                Claims.frozen_release claim.predicate))
  unfolding Claims.verify_result Claims.candidate
  deciding-recorded claim result cites p =
      let same =
        →decided (Claims.Keys-discrete claim.evidence_ids (digest_value result ∷ [])) cites in
      let (x, y) = presentable_plain result claim.predicate p in rw (same, x, y, p)

  verify-deciding :
      (claim : AtomicClaim) (pool : Pool) (result : Value)
      → Claims.pool_get pool claim.step_id ≡ some result
      → Claims.complete result ≡ true
      → verifying claim pool false false ≡ deciding claim result
  unfolding verify
  verify-deciding claim pool result e f = rw (e, f)

  deciding-Supports :
      (claim : AtomicClaim) (result : Value)
      → claim.evidence_ids ≡ digest_value result ∷ []
      → claim.requested_scope ≡ Claims.frozen_release
      → Agrees claim result
      → Supports claim (deciding claim result)
  deciding-Supports claim result cites frozen (inl (p, q, r)) = (
    Claims.decision claim Claims.supported Claims.scoped_absence_holds (some claim) none,
    deciding-absence claim result cites p
        ∙ ap (λ n. ok (Claims.verify_absence digest_value digest_claim digest_scoped claim n)) r
        ∙ ap ok (verify_absence-Supports claim q frozen),
    refl,
    refl,
  )
  deciding-Supports claim result cites frozen (inr (p, q)) = (
    Claims.decision claim Claims.supported Claims.matches (some claim) none,
    deciding-recorded claim result cites p ∙ ap ok (verify_recorded-Supports claim _ refl q frozen),
    refl,
    refl,
  )

  -- A claim that its pool backs is supported as it stands, if it is about the frozen release.
  pub Backed-verify :
      (claim : AtomicClaim) (pool : Pool)
      → Backed digest_value claim pool
      → claim.requested_scope ≡ Claims.frozen_release
      → Supports claim (verifying claim pool false false)
  Backed-verify claim pool b frozen =
      subst (Supports claim) (sym (verify-deciding claim pool b.result b.in_pool b.is_complete))
        (deciding-Supports claim b.result b.cited frozen b.agrees)

  Agrees-same :
      (claim l : AtomicClaim) (result : Value)
      → l.predicate ≡ claim.predicate
      → l.value ≡ claim.value
      → Agrees claim result
      → Agrees l result
  Agrees-same claim l result p q (inl (x, y, z)) = inl (p ∙ x, q ∙ y, z)
  Agrees-same claim l result p q (inr (x, y)) = inr (x ∙ ap some (sym p), q ∙ y)

  -- A licensed claim is backed as the claim it comes from is.
  Licenses-Backed :
      (claim l : AtomicClaim) (pool : Pool) (v : Verification)
      → Backed digest_value claim pool
      → Licenses claim l v
      → Backed digest_value l pool × (l.requested_scope ≡ Claims.frozen_release)
  Licenses-Backed claim l pool v b (inl (_, same, _, frozen)) =
      subst (λ m. Backed digest_value m pool × (m.requested_scope ≡ Claims.frozen_release))
        (sym same) (b, frozen)
  Licenses-Backed claim l pool v b (inr (_, _, _, _, p, q, s, e, frozen)) = (
    record {
      result = b.result;
      in_pool = ap (Claims.pool_get pool) s ∙ b.in_pool;
      is_complete = b.is_complete;
      cited = e ∙ b.cited;
      agrees = Agrees-same claim l b.result p q b.agrees;
    },
    frozen,
  )

  -- The claim that `verify` licenses, whole or narrowed, is supported as it stands when it is
  -- verified again against the same pool.
  pub verify-verify :
      (claim l : AtomicClaim) (pool : Pool) (a c : Bool) (v : Verification)
      → verifying claim pool a c ≡ ok v
      → v.licensed_claim ≡ some l
      → Supports l (verifying l pool false false)
  verify-verify claim l pool a c v h k =
      let (backed, licences) =
        verify-Licenses digest_value digest_claim digest_scoped claim l pool a c v h k in
      let (b, frozen) = Licenses-Backed claim l pool v backed licences in
      Backed-verify l pool b frozen
