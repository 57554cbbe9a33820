-- ===== src/Budget/Examples.antt =====
-- The theorems on the run budget at a small profile, and runs of it.
use knowledge_diffusion.Base.{List, [], err, false, is_ok, pos, refl, ◌∷◌, ◌≡◌, ◌≤◌, ◌⊎◌}
use knowledge_diffusion.Budget
use knowledge_diffusion.Budget.{Profile, RunBudget, Move, Reply, reserve, create, run, fresh}
use knowledge_diffusion.Budget.Limits.{IsWithin, admissions, run-IsWithin}
use knowledge_diffusion.Budget.Spending.{run-spending}

abbrev small : Profile
small = record {
  profile = Budget.openai;
  max_output_tokens = 100;
  max_model_calls = 2;
  max_total_tokens = 4000;
  context_window = 2000;
  max_cost_usd = 5000;
  input_usd_per_million = 2;
  output_usd_per_million = 1;
}

abbrev honest : Reply
honest = Budget.answered (record { prompt_tokens = pos 400; completion_tokens = pos 50 })

-- Two requests wait at once, and the second's provider answers first.
abbrev moves : List Move
moves =
    Budget.admit 500
    ∷ Budget.admit 300
    ∷ Budget.reply_to 1 Budget.raised
    ∷ Budget.reply_to 0 honest
    ∷ []

run-IsWithin_example : IsWithin small (run small fresh moves) × (admissions small fresh moves ≤ 2)
run-IsWithin_example = run-IsWithin small moves

run-spending_example :
    let b = run small fresh moves in
    ((b.actual_tokens ≤ b.reserved_tokens) × (b.actual_usd ≤ b.reserved_usd))
    ⊎ (is_ok (reserve small 10 b) ≡ false)
run-spending_example = run-spending small moves 10

-- A provider that reports more than was reserved ends the run.
overspent :
    let (r, b) =
      create small false 500
        (Budget.answered (record { prompt_tokens = pos 9000; completion_tokens = pos 1 }))
        fresh in
    (r ≡ err Budget.assumptions_exceeded) × (b.calls ≡ 2)
unfolding create reserve Budget.settle Budget.usable
overspent = (refl, refl)
