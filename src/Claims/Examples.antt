-- ===== src/Claims/Examples.antt =====
-- The theorems on claims at a pool of one count.
use knowledge_diffusion.Base.{
  Key, List, String, [], false, inr, none, ok, refl, some, ℕ_discrete, ◌+◌, ◌∷◌, ◌≡◌,
}
use knowledge_diffusion.Time
use knowledge_diffusion.Graph
use knowledge_diffusion.Values
use knowledge_diffusion.Values.{Value}
use knowledge_diffusion.Claims
use knowledge_diffusion.Claims.{
  AtomicClaim, Verification, Predicate, ClaimValue, Scope, Pool, verify,
}
use knowledge_diffusion.Claims.Synthesis.{Line, Synthesis, synthesize}
use knowledge_diffusion.Claims.Partition.{Accounted, synthesize-Accounted}
use knowledge_diffusion.Claims.Licences.{Backed, Licenses, verify-Licenses}
use knowledge_diffusion.Claims.Support.{Supports, Backed-verify}

abbrev of_value : Value → Key
of_value _ = 70

abbrev of_claim : Key → Predicate → ClaimValue → Scope → Key
of_claim step _ _ _ = step + 100

abbrev of_scoped : Key → Key
of_scoped id = id + 1000

abbrev year_2020 : Time.Window
year_2020 = record {
  start = record { year = 2020; month = 1; day = 1 };
  end = record { year = 2020; month = 12; day = 31 };
  reference_date = record { year = 2021; month = 1; day = 1 };
  normalization = Time.explicit_inclusive;
}

abbrev papers : Value
papers = Values.aggregate (record {
  value = 2;
  ids = 11 ∷ 12 ∷ [];
  input_ids = 1 ∷ [];
  unit = Graph.paper;
  attribution = Values.publication_authorship;
  institution_id = none;
  topic_id = none;
  source = none;
  window = year_2020;
  series = [];
})

abbrev pool : Pool
pool = (4, papers) ∷ []

-- The count, said of more than the frozen release.
abbrev wide : AtomicClaim
wide = record {
  claim_id = 104;
  predicate = Claims.recorded_count;
  step_id = 4;
  value = Claims.number 2;
  requested_scope = Claims.wider 8;
  evidence_ids = 70 ∷ [];
  original_claim_id = none;
}

-- Its narrowing.
abbrev narrow : AtomicClaim
narrow = record wide { requested_scope = Claims.frozen_release; original_claim_id = some 104 }

abbrev causal : AtomicClaim
causal = record wide { predicate = Claims.causal_effect }

abbrev narrowed : Verification
narrowed =
    Claims.decision wide Claims.partial Claims.narrower_coverage (some narrow)
      (some (Claims.wider 8))

abbrev refused : Verification
refused = Claims.withheld causal Claims.nei Claims.no_template

wide-narrowed : verify of_value of_claim of_scoped wide pool false false ≡ ok narrowed
unfolding verify Claims.verify_result Claims.verify_recorded Claims.candidate Claims.Keys-discrete
    ℕ_discrete Claims.Predicate-discrete Claims.ClaimValue-discrete
wide-narrowed = refl

causal-refused : verify of_value of_claim of_scoped causal pool false false ≡ ok refused
unfolding verify Claims.verify_result Claims.Keys-discrete ℕ_discrete
causal-refused = refl

verify-Licenses_example : Backed of_value wide pool × Licenses wide narrow narrowed
verify-Licenses_example =
    verify-Licenses of_value of_claim of_scoped wide narrow pool false false narrowed wide-narrowed
      refl

Backed-verify_example :
    Supports of_value of_claim of_scoped narrow
      (verify of_value of_claim of_scoped narrow pool false false)
Backed-verify_example =
    Backed-verify of_value of_claim of_scoped narrow pool
      (record {
        result = papers;
        in_pool = refl;
        is_complete = refl;
        cited = refl;
        agrees = inr (refl, refl);
      })
      refl

abbrev witnesses : List (Key × Key)
witnesses = (104, 900) ∷ []

abbrev joined : List Line → String
joined _ = "text"

synthesize-Accounted_example :
    (s : Synthesis) × (synthesize of_value of_claim of_scoped joined
        (narrowed ∷ refused ∷ [])
        pool
        witnesses
        none
      ≡ ok s)
    × Accounted of_value of_claim of_scoped joined witnesses pool (narrowed ∷ refused ∷ []) s
synthesize-Accounted_example =
    synthesize-Accounted of_value of_claim of_scoped joined witnesses pool (narrowed ∷ refused ∷ [])
      (
        record {
          claim = wide;
          ambiguous = false;
          countered = false;
          result = wide-narrowed;
          witness = (900, refl);
        },
        (
          record {
            claim = causal;
            ambiguous = false;
            countered = false;
            result = causal-refused;
            witness = tt;
          },
          tt,
        ),
      )
