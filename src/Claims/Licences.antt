-- ===== src/Claims/Licences.antt =====
-- What the labels of `verify` (src/kdiff/analysis/claims.py) license.
use knowledge_diffusion.Base.{
  Bool, Bool-cases, Key, Option, Option-cases, Result, [], ap, arith, decided→, false, inl, inr,
  is_some, none, ok, refl, some, sym, true, ℕ, →decided, ◌&&◌, ◌>>=◌, ◌∙◌, ◌∷◌, ◌≡◌, ◌≢◌, ◌⊎◌,
}
use mathlib.Core.Path.{subst}
use knowledge_diffusion.Values.{Value}
use knowledge_diffusion.Claims
use knowledge_diffusion.Claims.{
  AtomicClaim, Verification, Predicate, ClaimValue, Scope, Pool, verify,
}

-- The claim is absence, and the result is an empty query; or it is what the result says.
abbrev pub Agrees : AtomicClaim → Value → Type 0
Agrees claim result =
    ((claim.predicate ≡ Claims.scoped_absence)
      × (claim.value ≡ Claims.number 0)
      × (Claims.result_size result ≡ some 0))
    ⊎ ((Claims.presentable result ≡ some claim.predicate)
        × (claim.value ≡ Claims.claimed_value result))

-- The complete result that a claim stands on, and cites.
pub record Backed (digest_value : Value → Key) (claim : AtomicClaim) (pool : Pool) : Type 0 where
  pub result : Value
  pub in_pool : Claims.pool_get pool claim.step_id ≡ some result
  pub is_complete : Claims.complete result ≡ true
  pub cited : claim.evidence_ids ≡ digest_value result ∷ []
  pub agrees : Agrees claim result

-- A verification's licensed claim: the claim, or what the claim says of the frozen release only.
abbrev pub Licenses : AtomicClaim → AtomicClaim → Verification → Type 0
Licenses claim l v =
    ((v.label ≡ Claims.supported)
      × (l ≡ claim)
      × (v.unmet_scope ≡ none)
      × (claim.requested_scope ≡ Claims.frozen_release))
    ⊎ ((v.label ≡ Claims.partial)
        × (v.unmet_scope ≡ some claim.requested_scope)
        × (claim.requested_scope ≢ Claims.frozen_release)
        × (l.original_claim_id ≡ some claim.claim_id)
        × (l.predicate ≡ claim.predicate)
        × (l.value ≡ claim.value)
        × (l.step_id ≡ claim.step_id)
        × (l.evidence_ids ≡ claim.evidence_ids)
        × (l.requested_scope ≡ Claims.frozen_release))

module _ (digest_value : Value → Key) (digest_claim : Key → Predicate → ClaimValue → Scope → Key)
    (digest_scoped : Key → Key) where
  abbrev verifying : AtomicClaim → Pool → Bool → Bool → Result Claims.ClaimError Verification
  verifying = verify digest_value digest_claim digest_scoped

  -- No claim of cause is supported or narrowed, whatever the pool holds and whatever it cites.
  pub verify-is_causal :
      (claim : AtomicClaim) (pool : Pool) (a c : Bool) (v : Verification)
      → Claims.is_causal claim.predicate ≡ true
      → verifying claim pool a c ≡ ok v
      → (v.licensed_claim ≡ none) × (v.label ≢ Claims.supported) × (v.label ≢ Claims.partial)
  unfolding verify Claims.verify_result
  verify-is_causal claim pool a c v causal h = ground arith

  abbrev deciding : AtomicClaim → Value → Result Claims.ClaimError Verification
  deciding = Claims.verify_result digest_value digest_claim digest_scoped

  -- The steps that a licensed claim has passed.
  pub verify-open :
      (claim : AtomicClaim) (pool : Pool) (a c : Bool) (v : Verification)
      → verifying claim pool a c ≡ ok v
      → is_some v.licensed_claim ≡ true
      → (result : Value) × (Claims.pool_get pool claim.step_id ≡ some result)
        × (Claims.complete result ≡ true)
        × (deciding claim result ≡ ok v)
  unfolding verify
  verify-open claim pool a c v h k = elim (Option-cases (Claims.pool_get pool claim.step_id)) [
    | inl e ↦ ground (arith, e)
    | inr (result, e) ↦ (result, e, ground (arith, e), ground (arith, e))
  ]

  -- What is licensed cites the result; no claim of cause is.
  deciding-cited :
      (claim : AtomicClaim) (result : Value) (v : Verification)
      → deciding claim result ≡ ok v
      → is_some v.licensed_claim ≡ true
      → (claim.evidence_ids ≡ digest_value result ∷ []) × (Claims.is_causal claim.predicate ≡ false)
  unfolding Claims.verify_result
  deciding-cited claim result v h k =
      elim (Bool-cases (Claims.same_keys claim.evidence_ids (digest_value result ∷ []))) [
        | inl e ↦ (
          decided→ (Claims.Keys-discrete claim.evidence_ids (digest_value result ∷ [])) e,
          ground (arith, e),
        )
        | inr e ↦ ground (arith, e)
      ]

  is_absence→ :
      (claim : AtomicClaim)
      → Claims.is_absence claim.predicate ≡ true
      → claim.predicate ≡ Claims.scoped_absence
  is_absence→ claim h = ground arith

  absence-Licenses :
      (claim l : AtomicClaim) (size : Option ℕ)
      → (Claims.verify_absence digest_value digest_claim digest_scoped claim size).licensed_claim
        ≡ some l
      → (claim.value ≡ Claims.number 0)
        × (size ≡ some 0)
        × Licenses claim l
            (Claims.verify_absence digest_value digest_claim digest_scoped claim size)
  unfolding Claims.verify_absence
  absence-Licenses claim l none h = cc
  absence-Licenses claim l (some size) h = ground arith

  agrees→ :
      (claim expected : AtomicClaim)
      → Claims.same_predicate claim.predicate expected.predicate
          && Claims.same_value claim.value expected.value
        ≡ true
      → (claim.predicate ≡ expected.predicate) × (claim.value ≡ expected.value)
  agrees→ claim expected h = (
    decided→ (Claims.Predicate-discrete claim.predicate expected.predicate) (ground arith),
    decided→ (Claims.ClaimValue-discrete claim.value expected.value) (ground arith),
  )

  recorded-Licenses :
      (claim l expected : AtomicClaim)
      → claim.evidence_ids ≡ expected.evidence_ids
      → claim.step_id ≡ expected.step_id
      → expected.requested_scope ≡ Claims.frozen_release
      → (Claims.verify_recorded digest_value digest_claim digest_scoped claim
          expected).licensed_claim
        ≡ some l
      → (claim.predicate ≡ expected.predicate)
        × (claim.value ≡ expected.value)
        × Licenses claim l
            (Claims.verify_recorded digest_value digest_claim digest_scoped claim expected)
  unfolding Claims.verify_recorded
  recorded-Licenses claim l expected cites steps frozen h =
      elim (Bool-cases (
        Claims.same_predicate claim.predicate expected.predicate
        && Claims.same_value claim.value expected.value)) [
          | inl e ↦ let (p, q) = agrees→ claim expected e in (p, q, ground (arith, e, p, q))
          | inr e ↦ ground (arith, e)
        ]

  candidate-Licenses :
      (claim l : AtomicClaim) (result : Value) (v : Verification)
      → claim.evidence_ids ≡ digest_value result ∷ []
      → (Claims.candidate digest_value digest_claim digest_scoped claim.step_id result
            Claims.frozen_release
          >>= λ expected.
              ok (Claims.verify_recorded digest_value digest_claim digest_scoped claim expected))
        ≡ ok v
      → v.licensed_claim ≡ some l
      → (Claims.presentable result ≡ some claim.predicate)
        × (claim.value ≡ Claims.claimed_value result)
        × Licenses claim l v
  unfolding Claims.candidate
  candidate-Licenses claim l result v cites h k = elim (Option-cases (Claims.presentable result)) [
    | inl e ↦ ground (arith, e)
    | inr (predicate, e) ↦
        let expected =
          Claims.candidate_of digest_value digest_claim digest_scoped claim.step_id result
            Claims.frozen_release predicate in
        let same : Claims.verify_recorded digest_value digest_claim digest_scoped claim expected
            ≡ v =
          ground (arith, e) in
        let (p, q, r) =
          recorded-Licenses claim l expected cites refl refl
            (ap (λ w. w.licensed_claim) same ∙ k) in
        (e ∙ ap some (sym p), q, subst (Licenses claim l) same r)
  ]

  deciding-Agrees :
      (claim l : AtomicClaim) (result : Value) (v : Verification)
      → deciding claim result ≡ ok v
      → v.licensed_claim ≡ some l
      → Agrees claim result × Licenses claim l v
  unfolding Claims.verify_result
  deciding-Agrees claim l result v h k =
      let (cites, causal) = deciding-cited claim result v h (ground arith) in
      elim (Bool-cases (Claims.is_absence claim.predicate)) [
        | inl e ↦
            let same : Claims.verify_absence digest_value digest_claim digest_scoped claim
                  (Claims.result_size result)
                ≡ v =
              ground (
                arith,
                e,
                cites,
                causal,
                →decided (Claims.Keys-discrete claim.evidence_ids (digest_value result ∷ [])) cites,
              ) in
            let (p, q, r) =
              absence-Licenses claim l (Claims.result_size result)
                (ap (λ w. w.licensed_claim) same ∙ k) in
            (inl (is_absence→ claim e, p, q), subst (Licenses claim l) same r)
        | inr e ↦
            let (p, q, r) =
              candidate-Licenses claim l result v cites
                (ground (
                  arith,
                  e,
                  cites,
                  causal,
                  →decided (Claims.Keys-discrete claim.evidence_ids (digest_value result ∷ []))
                      cites,
                ))
                k in
            (inr (p, q), r)
      ]

  -- What `verify` licenses, whole or narrowed, stands on a complete result of the pool that the
  -- claim cites and that says what the claim says, and reaches no further than the frozen release.
  pub verify-Licenses :
      (claim l : AtomicClaim) (pool : Pool) (a c : Bool) (v : Verification)
      → verifying claim pool a c ≡ ok v
      → v.licensed_claim ≡ some l
      → Backed digest_value claim pool × Licenses claim l v
  verify-Licenses claim l pool a c v h k =
      let (result, e, whole, d) = verify-open claim pool a c v h (ground arith) in
      let (cites, _) = deciding-cited claim result v d (ground arith) in
      let (says, narrows) = deciding-Agrees claim l result v d k in
      (
        record { result = result; in_pool = e; is_complete = whole; cited = cites; agrees = says },
        narrows,
      )
