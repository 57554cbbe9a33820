-- ===== src/Executor/Run.antt =====
-- `Executor.execute` of src/kdiff/analysis/graph_program.py.
use knowledge_diffusion.Base.{
  Bool, Key, List, Option, Result, String, [], err, false, if◌then◌else◌, map, none, not, ok,
  or_raise, raise_if, some, sorted, true, ◌==◌, ◌>>=◌, ◌>>◌, ◌∷◌,
}
use knowledge_diffusion.Graph
use knowledge_diffusion.Graph.{EntityType}
use knowledge_diffusion.Values
use knowledge_diffusion.Values.{Value, StateKey, StateValue}
use knowledge_diffusion.Claims.{Pool}
use knowledge_diffusion.Program
use knowledge_diffusion.Program.{Call, Step, GraphProgram}
use knowledge_diffusion.Executor.{
  Executor, Dialogue, ExecError, value_at, state_missing, wrong_state, program_mismatch, resolve,
  expand, filter_interval,
}
use knowledge_diffusion.Executor.Counting.{aggregate}
use knowledge_diffusion.Executor.Paths.{find_paths}
use knowledge_diffusion.Executor.Comparing.{compare}

abbrev pub same_state : StateKey → StateKey → Bool
same_state Values.resolved_ids Values.resolved_ids = true
same_state Values.window_key Values.window_key = true
same_state Values.topic_id Values.topic_id = true
same_state Values.reference_date Values.reference_date = true
same_state Values.prior_witnesses Values.prior_witnesses = true
same_state _ _ = false

abbrev pub Bindings : Type 0
Bindings = List (StateKey × StateValue)

-- `self.state[key]`
abbrev pub bound : StateKey → Bindings → Option StateValue
bound key [] = none
bound key ((k, v) ∷ rest) = let r = bound key rest in if same_state k key then some v else r

abbrev pub bind : StateKey → StateValue → Bindings → Bindings
bind key v [] = (key, v) ∷ []
bind key v ((k, u) ∷ rest) =
    let r = bind key v rest in if same_state k key then (k, v) ∷ rest else (k, u) ∷ r

abbrev pub topic_of : EntityType → List Key → Result ExecError StateValue
topic_of Graph.topic (id ∷ []) = ok (Values.one_id id)
topic_of _ _ = err wrong_state

-- The value that a state takes from a result.
unfoldable pub updated : StateKey → Value → Result ExecError StateValue
updated Values.resolved_ids (Values.entities ids kind inputs) = ok (Values.id_list ids)
updated Values.topic_id (Values.entities ids kind inputs) = topic_of kind ids
updated Values.window_key (Values.window w) = ok (Values.a_window w)
updated Values.reference_date (Values.window w) = ok (Values.a_date w.reference_date)
updated key (Values.state k v) = if same_state k key then ok v else err wrong_state
updated _ _ = err wrong_state

module _ (casefold : String → String) (graph_hash : Key) where
  -- A step's result and the dialogue after it.
  abbrev pub keeping : Dialogue → Result ExecError Value → Result ExecError (Value × Dialogue)
  keeping d r = r >>= λ v. ok (v, d)

  abbrev pub update :
      Executor → Key → StateKey → Pool → Dialogue → Result ExecError (Value × Dialogue)
  update x input key values d = do
    v ← value_at values input
    u ← updated key v
    ok (
      Values.state key u,
      record d { release_id = some x.release_id; bindings = bind key u d.bindings },
    )

  abbrev pub project : Executor → Key → Pool → Result ExecError Value
  project x input values = do
    v ← value_at values input
    ok (Values.provenance v (sorted (map (λ s. s.sha256) x.graph.sources)) graph_hash)

  abbrev pub read : StateKey → Dialogue → Result ExecError Value
  read key d = do v ← or_raise (bound key d.bindings) state_missing; ok (Values.state key v)

  -- The body of the loop over the steps.
  unfoldable pub run_call : Executor → Call → Pool → Dialogue → Result ExecError (Value × Dialogue)
  run_call x (Program.resolve args) values d = keeping d (resolve casefold x args)
  run_call x (Program.normalize w) values d = ok (Values.window w, d)
  run_call x (Program.expand args) values d = keeping d (expand x args values)
  run_call x (Program.filter_interval args) values d = keeping d (filter_interval x args values)
  run_call x (Program.aggregate args) values d = keeping d (aggregate x args values)
  run_call x (Program.path_search args) values d = keeping d (find_paths x args values)
  run_call x (Program.compare args) values d = keeping d (compare args values)
  run_call x (Program.project input) values d = keeping d (project x input values)
  run_call x (Program.read_state key) values d = keeping d (read key d)
  run_call x (Program.update_state input key) values d = update x input key values d

  unfoldable pub run_steps :
      Executor → List Step → Pool → Dialogue → Result ExecError (Pool × Dialogue)
  run_steps x [] values d = ok (values, d)
  run_steps x (step ∷ steps) values d =
      run_call x step.call values d >>= λ r. run_steps x steps ((step.id, r.0) ∷ values) r.1

  pub record Execution : Type 0 where
    pub result : Value
    pub steps : Pool
    pub state : Dialogue

  unfoldable pub execute : Executor → GraphProgram → Dialogue → Result ExecError Execution
  execute x p d = do
    raise_if (not (p.release_id == x.release_id)) program_mismatch
    done ← run_steps x p.steps [] d
    result ← value_at done.0 p.output
    ok (record { result = result; steps = done.0; state = done.1 })
