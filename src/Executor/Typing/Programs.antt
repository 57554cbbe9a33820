-- ===== src/Executor/Typing/Programs.antt =====
-- What `GraphProgram.valid` of src/kdiff/analysis/graph_program.py promises `Executor.execute`.
use knowledge_diffusion.Base.{
  >>=-eq-ok, Bool, Bool-cases, Key, List, Option, Option-cases, Result, Result-cases, String, [],
  any, arith, err, false, inl, inr, is_some, not, ok, ok-injective, refl, some, sym, true, ◌&&◌,
  ◌==◌, ◌||◌, ◌∷◌, ◌≡◌, ◌⊎◌,
}
use mathlib.Core.Path.{subst}
use knowledge_diffusion.Values.{Value, StateKey}
use knowledge_diffusion.Claims.{Pool, pool_get}
use knowledge_diffusion.Program
use knowledge_diffusion.Program.{
  Scope, type_in, Call, Step, GraphProgram, ResultType, output_type, refs_of, typed_call,
  valid_call, check_step, check_steps, valid_program,
}
use knowledge_diffusion.Executor
use knowledge_diffusion.Executor.{Executor, Dialogue, ExecError, value_at, type_error}
use knowledge_diffusion.Executor.Run
use knowledge_diffusion.Executor.Run.{Execution, run_call, run_steps, execute, bound, updated}
use knowledge_diffusion.Executor.Typing.{
  Safe, answers, fails, Anything, Safe->>=, Safe-raise_if, Safe-or_raise, HasType, Typed, type_of,
}
use knowledge_diffusion.Executor.Typing.Operators.{
  resolve-Safe, expand-Safe, filter_interval-Safe, compare-Safe,
}
use knowledge_diffusion.Executor.Typing.Searches.{find_paths-Safe}
use knowledge_diffusion.Executor.Typing.Aggregates.{aggregate-Safe}

check_step-eq-ok :
    (scope scope' : Scope) (step : Step)
    → check_step scope step ≡ ok scope'
    → (valid_call step.call ≡ true)
      × (typed_call scope step.call ≡ true)
      × (any (λ r. not (is_some (type_in scope r))) (refs_of step.call) ≡ false)
      × (scope' ≡ (step.id, output_type step.call) ∷ scope)
unfolding check_step
check_step-eq-ok scope scope' step h = ground arith

is_window-eq : (o : Option ResultType) → Program.is_window o ≡ true → o ≡ some Program.window_type
is_window-eq o h = ground arith

is_edges-eq : (o : Option ResultType) → Program.is_edges o ≡ true → o ≡ some Program.edges_type
is_edges-eq o h = ground arith

is_entities-eq :
    (o : Option ResultType) → Program.is_entities o ≡ true → o ≡ some Program.entities_type
is_entities-eq o h = ground arith

is_aggregate-eq :
    (o : Option ResultType) → Program.is_aggregate o ≡ true → o ≡ some Program.aggregate_type
is_aggregate-eq o h = ground arith

either-eq :
    (o : Option ResultType)
    → (Program.is_entities o || Program.is_edges o) ≡ true
    → (o ≡ some Program.entities_type) ⊎ (o ≡ some Program.edges_type)
either-eq o h = elim (Bool-cases (Program.is_entities o)) [
  | inl e ↦ inl (is_entities-eq o e)
  | inr e ↦ inr (is_edges-eq o (ground (arith, h, e)))
]

or-cases : (a b : Bool) → (a || b) ≡ true → (a ≡ true) ⊎ (b ≡ true)
or-cases true b h = inl refl
or-cases false b h = inr h

and-left : (a b : Bool) → (a && b) ≡ true → a ≡ true
and-left a b h = ground arith

and-right : (a b : Bool) → (a && b) ≡ true → b ≡ true
and-right a b h = ground arith

module _ (casefold : String → String) (graph_hash : Key) (x : Executor) (scope : Scope)
    (values : Pool) (typed : Typed x scope values) (d : Dialogue) where
  -- The result of a step has the type of its operator.
  abbrev pub Fits : ResultType → Value × Dialogue → Type 0
  Fits t r = HasType x t r.0

  bound-Safe :
      (id : Key)
      → is_some (type_in scope id) ≡ true
      → Safe (λ v. pool_get values id ≡ some v) (value_at values id)
  bound-Safe id h = elim (Option-cases (type_in scope id)) [
    | inl e ↦ absurd (ground (arith, e, h))
    | inr (t, e) ↦ let (v, f, k) = typed id t e in rw f (answers v refl)
  ]

  keeping-Safe :
      (t : ResultType) (r : Result ExecError Value)
      → Safe (HasType x t) r
      → Safe (Fits t) (Run.keeping casefold graph_hash d r)
  keeping-Safe t r h = Safe->>= h (λ v k. answers _ k)

  updated-error :
      (key : StateKey) (v : Value) (e : ExecError)
      → updated key v ≡ err e
      → Executor.Typing.is_type_error e ≡ false
  unfolding updated
  updated-error key v e h = ground arith

  updated-Safe : (key : StateKey) (v : Value) → Safe Anything (updated key v)
  unfolding updated
  updated-Safe key v = elim (Result-cases (updated key v)) [
    | inl (u, e) ↦ rw e (answers u tt)
    | inr (f, e) ↦ rw e (fails f (updated-error key v f e))
  ]

  project-Safe :
      (input : Key)
      → is_some (type_in scope input) ≡ true
      → Safe (HasType x Program.provenance_type) (Run.project casefold graph_hash x input values)
  project-Safe input h = Safe->>= (bound-Safe input h) (λ v _. answers _ (refl, tt))

  read-Safe :
      (key : StateKey) → Safe (HasType x Program.state_type) (Run.read casefold graph_hash key d)
  read-Safe key =
      Safe->>= (Safe-or_raise (bound key d.bindings) Executor.state_missing refl)
        (λ v _. answers _ (refl, tt))

  update-Safe :
      (input : Key) (key : StateKey)
      → is_some (type_in scope input) ≡ true
      → Safe (Fits Program.state_type) (Run.update casefold graph_hash x input key values d)
  update-Safe input key h =
      Safe->>= (bound-Safe input h)
        (λ v _. Safe->>= (updated-Safe key v) (λ u _. answers _ (refl, tt)))

  run_call-Safe :
      (call : Call)
      → valid_call call ≡ true
      → typed_call scope call ≡ true
      → any (λ r. not (is_some (type_in scope r))) (refs_of call) ≡ false
      → Safe (Fits (output_type call)) (run_call casefold graph_hash x call values d)
  unfolding run_call valid_call typed_call
  run_call-Safe (Program.resolve args) h k m = keeping-Safe _ _ (resolve-Safe x casefold args)
  run_call-Safe (Program.normalize w) h k m = answers _ (refl, tt)
  run_call-Safe (Program.expand args) h k m =
      keeping-Safe _ _
        (expand-Safe x scope values typed args (either-eq (type_in scope args.input) k))
  run_call-Safe (Program.filter_interval args) h k m = keeping-Safe _ _ (
      filter_interval-Safe x scope values typed args
        (is_window-eq (type_in scope args.window) (and-left _ _ k))
        (is_edges-eq (type_in scope args.input) (and-right _ _ k)))
  run_call-Safe (Program.aggregate args) h k m = keeping-Safe _ _ (
      aggregate-Safe x scope values typed args (or-cases _ _ (and-left _ _ h))
        (is_window-eq (type_in scope args.window) (and-left _ _ k))
        (is_edges-eq (type_in scope args.input) (and-right _ _ k)))
  run_call-Safe (Program.path_search args) h k m = keeping-Safe _ _ (
      find_paths-Safe x scope values typed args
        (is_window-eq (type_in scope args.window) (and-left _ _ k))
        (is_entities-eq (type_in scope args.input) (and-right _ _ k)))
  run_call-Safe (Program.compare args) h k m = keeping-Safe _ _ (
      compare-Safe x scope values typed args
        (is_aggregate-eq (type_in scope args.left) (and-left _ _ k))
        (is_aggregate-eq (type_in scope args.right) (and-right _ _ k)))
  run_call-Safe (Program.project input) h k m =
      keeping-Safe _ _ (project-Safe input (ground (arith, m)))
  run_call-Safe (Program.read_state key) h k m = keeping-Safe _ _ (read-Safe key)
  run_call-Safe (Program.update_state input key) h k m = update-Safe input key (ground (arith, m))

module _ (casefold : String → String) (graph_hash : Key) (x : Executor) where
  Typed-extend :
      (scope : Scope) (values : Pool) (id : Key) (t : ResultType) (v : Value)
      → Typed x scope values
      → HasType x t v
      → Typed x ((id, t) ∷ scope) ((id, v) ∷ values)
  Typed-extend scope values id t v typed h j u e = elim (Bool-cases (id == j)) [
    | inl b ↦
        let same : t ≡ u = ground (arith, rw b at e) in
        (v, rw b refl, subst (λ r. HasType x r v) same h)
    | inr b ↦ let (w, f, k) = typed j u (rw b at e) in (w, rw b f, k)
  ]

  -- A run of steps that the validator has passed, from bindings of the types that it has noted.
  run_steps-Safe :
      (scope scope' : Scope) (steps : List Step) (values : Pool) (d : Dialogue)
      → check_steps scope steps ≡ ok scope'
      → Typed x scope values
      → Safe
          (λ (r : Pool × Dialogue). Typed x scope' r.0)
          (run_steps casefold graph_hash x steps values d)
  unfolding run_steps check_steps
  run_steps-Safe scope scope' [] values d h typed =
      answers _ (subst (λ s. Typed x s values) (ok-injective h) typed)
  run_steps-Safe scope scope' (step ∷ steps) values d h typed =
      let (next, e, rest) = >>=-eq-ok (check_step scope step) (λ s. check_steps s steps) h in
      let (valid, well_typed, bound_refs, same) = check_step-eq-ok scope next step e in
      Safe->>=
        (run_call-Safe casefold graph_hash x scope values typed d step.call valid well_typed
          bound_refs)
        (λ r k. run_steps-Safe next scope' steps ((step.id, r.0) ∷ values) r.1 rest (
          subst (λ s. Typed x s ((step.id, r.0) ∷ values)) (sym same)
            (Typed-extend scope values step.id (output_type step.call) r.0 typed k)))

  -- The types that the validator has noted for a program's bindings.
  abbrev pub Noted : GraphProgram → Scope → Type 0
  Noted p scope = (check_steps [] p.steps ≡ ok scope) × (is_some (type_in scope p.output) ≡ true)

  valid_program-Noted :
      (p q : GraphProgram) → valid_program p ≡ ok q → (scope : Scope) × Noted p scope
  unfolding valid_program
  valid_program-Noted p q h = elim (Result-cases (check_steps [] p.steps)) [
    | inl (scope, e) ↦ (scope, (e, ground (arith, h, e)))
    | inr (f, e) ↦ absurd (ground (arith, h, e))
  ]

  -- A program that the validator accepts never fails with a missing binding or field, over any
  -- release and any dialogue: it ends with an answer, or one of the errors that it declares. In an
  -- answer every binding is there with a result of the type that the validator has noted, the result
  -- is the output's, and each edge that a result of edges names is an assertion of the release.
  pub execute-Typed :
      (p q : GraphProgram) (d : Dialogue)
      → valid_program p ≡ ok q
      → (scope : Scope) × (check_steps [] p.steps ≡ ok scope)
        × Safe
            (λ (r : Execution casefold graph_hash).
              Typed x scope r.steps × (pool_get r.steps p.output ≡ some r.result))
            (execute casefold graph_hash x p d)
  unfolding execute
  execute-Typed p q d h =
      let (scope, (e, out)) = valid_program-Noted p q h in
      (
        scope,
        e,
        Safe-raise_if (not (p.release_id == x.release_id)) Executor.program_mismatch refl (λ _.
            Safe->>= (run_steps-Safe [] scope p.steps [] d e (λ id t m. cc)) (λ r typed.
              Safe->>= (bound-Safe casefold graph_hash x scope r.0 typed r.1 p.output out)
                (λ v f. answers _ (typed, f)))),
      )
