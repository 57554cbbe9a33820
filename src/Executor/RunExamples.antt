-- ===== src/Executor/RunExamples.antt =====
-- The theorem on graph programs at the count of an author's papers, and runs of the validator and
-- the executor.
use knowledge_diffusion.Base.{Key, List, String, [], err, none, ok, refl, some, true, ◌∷◌, ◌≡◌}
use knowledge_diffusion.Time
use knowledge_diffusion.Time.{Date, TimeRange, Window, ordinal, membership}
use knowledge_diffusion.Graph
use knowledge_diffusion.Graph.{Assertion, Entity, EntityType, Relation}
use knowledge_diffusion.Values
use knowledge_diffusion.Values.{
  Value, EdgesValue, PathsValue, FoundPath, AggregateValue, ComparisonValue,
}
use knowledge_diffusion.Claims.{pool_get}
use knowledge_diffusion.Program
use knowledge_diffusion.Program.{
  Call, Step, GraphProgram, ResultType, ExpandArgs, FilterArgs, PathArgs, AggregateArgs,
  CompareArgs, Scope, valid_program, check_steps, check_step, valid_call, typed_call,
}
use knowledge_diffusion.Executor
use knowledge_diffusion.Executor.{
  Executor, Export, Dialogue, new_executor, expand, filter_interval, overlap,
}
use knowledge_diffusion.Executor.Counting.{count_rows, kept_rows, tally}
use knowledge_diffusion.Executor.Run.{Execution, execute, run_steps, run_call}
use knowledge_diffusion.Executor.Typing.{Safe, Typed}
use knowledge_diffusion.Executor.Typing.Programs.{execute-Typed}
use knowledge_diffusion.Executor.Examples.{
  year, release, papers_args, subject, authorships, count_args, one_paper,
}

abbrev step : Key → Call → List Key → Step
step id call deps = record { id = id; call = call; depends_on = deps }

-- The papers of an author in a year.
abbrev program : GraphProgram
program = record {
  release_id = 3;
  steps =
      step 0
        (Program.resolve (record {
          kind = Graph.author;
          identifier = some 1;
          name = none;
          institution_id = none;
          role = none;
          source_id = none;
        }))
        []
      ∷ step 1 (Program.normalize (year 2020)) []
      ∷ step 2 (Program.expand papers_args) (0 ∷ [])
      ∷ step 3 (Program.aggregate count_args) (2 ∷ 1 ∷ [])
      ∷ [];
  output = 3;
}

abbrev noted : Scope
noted =
    (3, Program.aggregate_type)
    ∷ (2, Program.edges_type)
    ∷ (1, Program.window_type)
    ∷ (0, Program.entities_type)
    ∷ []

accepted_program : valid_program program ≡ ok program
unfolding valid_program check_steps check_step valid_call typed_call Graph.signature
accepted_program = refl

abbrev dialogue : Dialogue
dialogue = record { release_id = none; bindings = [] }

abbrev same_text : String → String
same_text t = t

execute-Typed_example :
    (scope : Scope) × (check_steps [] program.steps ≡ ok scope)
    × Safe
        (λ (r : Execution same_text 9).
          Typed release scope r.steps × (pool_get r.steps program.output ≡ some r.result))
        (execute same_text 9 release program dialogue)
execute-Typed_example = execute-Typed same_text 9 release program program dialogue accepted_program

-- A window where edges are wanted.
swapped_program :
    check_steps noted (
      step 4 (Program.filter_interval (record { input = 1; window = 1; contained = true })) (1 ∷ [])
      ∷ [])
    ≡ err Program.wrong_type
unfolding check_steps check_step valid_call typed_call
swapped_program = refl

-- The execution of the program counts one paper.
executed :
    execute same_text 9 release program dialogue
    ≡ ok (record {
      result = Values.aggregate one_paper;
      steps =
          (3, Values.aggregate one_paper)
          ∷ (2, Values.edges authorships)
          ∷ (1, Values.window (year 2020))
          ∷ (0, subject)
          ∷ [];
      state = dialogue;
    })
unfolding execute run_steps run_call Executor.resolve Executor.matches_of expand
    Executor.Counting.aggregate count_rows kept_rows tally membership ordinal Time.days_before_year
    Time.days_before_month
executed = refl
