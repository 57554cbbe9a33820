-- ===== src/Claims/Synthesis.antt =====
-- `synthesize` of src/kdiff/analysis/claims.py.
-- A line of the text stands for its sentence; `write`, which renders the lines, is a parameter.
use knowledge_diffusion.Base.{
  Bool, Key, List, Option, Result, String, [], false, if◌then◌else◌, map, none, not, ok, or_raise,
  raise_if, some, str_eq, true, ◌++◌, ◌==◌, ◌>>=◌, ◌>>◌, ◌∷◌,
}
use knowledge_diffusion.Values.{Value}
use knowledge_diffusion.Claims
use knowledge_diffusion.Claims.{
  AtomicClaim, Verification, Label, Reason, Scope, Predicate, ClaimValue, Pool, ClaimError, verify,
}

-- A sentence: a claim with its witness, or a reason to withhold one.
pub data Line : Type 0 where
  cited : AtomicClaim → Key → Line
  withheld : Reason → Line

pub record Retained : Type 0 where
  pub original : AtomicClaim
  pub original_label : Label
  pub final : AtomicClaim
  pub final_label : Label
  pub rewrite : Option AtomicClaim
  pub unmet_scope : Option Scope

pub record Refusal : Type 0 where
  pub claim_id : Key
  pub label : Label
  pub reason : Reason

pub record Synthesis : Type 0 where
  pub lines : List Line
  pub retained : List Retained
  pub refusals : List Refusal

-- `mapping[claim_id]`
abbrev pub witness_of : List (Key × Key) → Key → Option Key
witness_of [] id = none
witness_of ((k, w) ∷ mapping) id =
    let rest = witness_of mapping id in if k == id then some w else rest

abbrev pub is_supported : Label → Bool
is_supported Claims.supported = true
is_supported _ = false

abbrev pub is_partial : Label → Bool
is_partial Claims.partial = true
is_partial _ = false

abbrev pub refusal_of : Verification → Refusal
refusal_of v = record { claim_id = v.claim.claim_id; label = v.label; reason = v.reason }

abbrev pub retained_of : Verification → AtomicClaim → Verification → Retained
retained_of v licensed final = record {
  original = v.claim;
  original_label = v.original_label;
  final = licensed;
  final_label = final.label;
  rewrite = if is_partial v.label then some licensed else none;
  unmet_scope = v.unmet_scope;
}

module _ (digest_value : Value → Key) (digest_claim : Key → Predicate → ClaimValue → Scope → Key)
    (digest_scoped : Key → Key) (write : List Line → String) where
  -- The check of a licensed claim.
  abbrev pub finalize :
      List (Key × Key) → Pool → Verification → AtomicClaim → Result ClaimError (Retained × Key)
  finalize mapping pool v licensed = do
    final ← verify digest_value digest_claim digest_scoped licensed pool false false
    raise_if (not (is_supported final.label)) Claims.unassigned_witness
    witness ← or_raise (witness_of mapping licensed.claim_id) Claims.unassigned_witness
    ok (retained_of v licensed final, witness)

  abbrev pub with_retained : Retained × Key → Synthesis → Synthesis
  with_retained (r, witness) s = record s {
    lines = cited r.final witness ∷ s.lines;
    retained = r ∷ s.retained;
  }

  abbrev pub with_refusal : Verification → Synthesis → Synthesis
  with_refusal v s = record s { refusals = refusal_of v ∷ s.refusals }

  -- The loop over the verifications.
  unfoldable pub collect : List (Key × Key) → Pool → List Verification → Result ClaimError Synthesis
  collect mapping pool [] = ok (record { lines = []; retained = []; refusals = [] })
  collect mapping pool (v ∷ vs) =
      let rest = collect mapping pool vs in
      elim v.licensed_claim [
        | none ↦ rest >>= λ s. ok (with_refusal v s)
        | some licensed ↦
            finalize mapping pool v licensed >>= λ r. rest >>= λ s. ok (with_retained r s)
      ]

  abbrev pub full_lines : Synthesis → List Line
  full_lines s = s.lines ++ map (λ r. withheld r.reason) s.refusals

  abbrev pub differs : Option String → String → Bool
  differs none text = false
  differs (some proposed) text = not (str_eq proposed text)

  unfoldable pub synthesize :
      List Verification → Pool → List (Key × Key) → Option String → Result ClaimError Synthesis
  synthesize verifications pool mapping proposed = do
    s ← collect mapping pool verifications
    raise_if (differs proposed (write (full_lines s))) Claims.unlicensed_change
    ok (record s { lines = full_lines s })
