-- ===== src/Requests/Examples.antt =====
-- The theorem on plans at a question for an author's papers, and plans that are refused.
use knowledge_diffusion.Base.{[], err, is_ok, none, refl, some, true, ◌≡◌}
use knowledge_diffusion.Time
use knowledge_diffusion.Time.{Window}
use knowledge_diffusion.Graph
use knowledge_diffusion.Graph.{signature}
use knowledge_diffusion.Values
use knowledge_diffusion.Program
use knowledge_diffusion.Program.{valid_program, check_steps, check_step, valid_call, typed_call}
use knowledge_diffusion.Requests
use knowledge_diffusion.Requests.{Request}
use knowledge_diffusion.Requests.Planning.{plan_request, family_steps}

abbrev year_2020 : Window
year_2020 = record {
  start = record { year = 2020; month = 1; day = 1 };
  end = record { year = 2020; month = 12; day = 31 };
  reference_date = record { year = 2021; month = 1; day = 1 };
  normalization = Time.explicit_inclusive;
}

abbrev papers_of : Graph.EntityType → Request
papers_of kind = record {
  family = Requests.count;
  kind = kind;
  identifier = none;
  name = some "Ada";
  institution = none;
  role = none;
  source = none;
  window = year_2020;
  before = none;
  topic_id = none;
  institution_id = none;
  target_id = none;
  relations = [];
  max_hops = 3;
  temporal_rule = Values.nondecreasing;
  out = true;
}

-- The author's papers can be planned for from the name alone.
planned_author : is_ok (plan_request (papers_of Graph.author) 3) ≡ true
unfolding plan_request family_steps valid_program check_steps check_step valid_call typed_call
    signature
planned_author = refl

-- An institution's cannot: the count by authorship wants the institution's identifier.
planned_institution :
    plan_request (papers_of Graph.institution) 3
    ≡ err (Requests.bad_program Program.invalid_argument)
unfolding plan_request family_steps valid_program check_steps check_step valid_call typed_call
    signature
planned_institution = refl
