-- ===== src/Executor/Typing.antt =====
-- What the validator of graph programs in src/kdiff/analysis/graph_program.py ensures about their
-- execution: operators that read bindings of the right type.
pub mod Operators
pub mod Searches
pub mod Aggregates
pub mod Programs
use knowledge_diffusion.Base.{
  All, Bool, Key, List, Option, Result, [], err, false, none, ok, or_raise, raise_if, refl, some,
  true, ◌>>=◌, ◌>>◌, ◌∷◌, ◌≡◌,
}
use knowledge_diffusion.Values
use knowledge_diffusion.Values.{Value, EdgesValue}
use knowledge_diffusion.Claims.{Pool, pool_get}
use knowledge_diffusion.Program
use knowledge_diffusion.Program.{ResultType, Scope, type_in}
use knowledge_diffusion.Executor.{
  Executor, ExecError, edge_at, type_error, value_at, as_window, as_edges, window_at, edges_at,
  rows_of,
}

abbrev pub is_type_error : ExecError → Bool
is_type_error type_error = true
is_type_error _ = false

-- A run that ends with an answer of the given sort, or with an error that is no type error.
pub data Safe {ℓ} {A : Type ℓ} (P : A → Type 0) : Result ExecError A → Type ℓ where
  answers : (a : A) → P a → Safe P (ok a)
  fails : (e : ExecError) → is_type_error e ≡ false → Safe P (err e)

abbrev pub Anything {ℓ} : {A : Type ℓ} → A → Type 0
Anything a = Unit

pub Safe->>= {ℓ κ} :
    {A : Type ℓ} {B : Type κ} {P : A → Type 0} {Q : B → Type 0} {m : Result ExecError A}
    {rest : A → Result ExecError B}
    → Safe P m
    → ((a : A) → P a → Safe Q (rest a))
    → Safe Q (m >>= rest)
Safe->>= (answers a h) k = k a h
Safe->>= (fails e h) k = fails e h

pub Safe-raise_if {ℓ} :
    {A : Type ℓ} {P : A → Type 0} (b : Bool) (e : ExecError) {rest : Result ExecError A}
    → is_type_error e ≡ false
    → (b ≡ false → Safe P rest)
    → Safe P (raise_if b e >> rest)
Safe-raise_if true e h k = fails e h
Safe-raise_if false e h k = k refl

pub Safe-or_raise :
    {A : Type 0} (o : Option A) (e : ExecError)
    → is_type_error e ≡ false
    → Safe (λ a. o ≡ some a) (or_raise o e)
Safe-or_raise none e h = fails e h
Safe-or_raise (some a) e h = answers a refl

abbrev pub type_of : Value → ResultType
type_of (Values.entities _ _ _) = Program.entities_type
type_of (Values.window _) = Program.window_type
type_of (Values.edges _) = Program.edges_type
type_of (Values.paths _) = Program.paths_type
type_of (Values.aggregate _) = Program.aggregate_type
type_of (Values.comparison _) = Program.comparison_type
type_of (Values.event_trace _) = Program.event_trace_type
type_of (Values.mobility_returns _) = Program.returns_type
type_of (Values.state _ _) = Program.state_type
type_of (Values.provenance _ _ _) = Program.provenance_type

module _ (x : Executor) where
  -- An identifier of an assertion of the graph.
  abbrev pub Known : Key → Type 0
  Known id = (a : _) × (edge_at x id ≡ some a)

  abbrev pub KnownInputs : Option (List Key) → Type 0
  KnownInputs none = Unit
  KnownInputs (some ids) = All Known ids

  abbrev pub KnownEdges : EdgesValue → Type 0
  KnownEdges e = All Known e.ids × KnownInputs e.filter_input_ids

  -- The edges of a result are the graph's.
  abbrev pub Grounded : Value → Type 0
  Grounded (Values.edges e) = KnownEdges e
  Grounded _ = Unit

  -- A result of a type.
  abbrev pub HasType : ResultType → Value → Type 0
  HasType t v = (type_of v ≡ t) × Grounded v

  -- The results so far have the types that the validator has noted.
  abbrev pub Typed : Scope → Pool → Type 0
  Typed scope values =
      (id : Key) (t : ResultType)
      → type_in scope id ≡ some t
      → (v : Value) × (pool_get values id ≡ some v) × HasType t v

  as_window-Safe : (v : Value) → type_of v ≡ Program.window_type → Safe Anything (as_window v)
  as_window-Safe (Values.window w) h = answers w tt
  as_window-Safe (Values.entities _ _ _) h = cc
  as_window-Safe (Values.edges _) h = cc
  as_window-Safe (Values.paths _) h = cc
  as_window-Safe (Values.aggregate _) h = cc
  as_window-Safe (Values.comparison _) h = cc
  as_window-Safe (Values.event_trace _) h = cc
  as_window-Safe (Values.mobility_returns _) h = cc
  as_window-Safe (Values.state _ _) h = cc
  as_window-Safe (Values.provenance _ _ _) h = cc

  as_edges-Safe :
      (v : Value) → type_of v ≡ Program.edges_type → Grounded v → Safe KnownEdges (as_edges v)
  as_edges-Safe (Values.edges e) h g = answers e g
  as_edges-Safe (Values.entities _ _ _) h g = cc
  as_edges-Safe (Values.window _) h g = cc
  as_edges-Safe (Values.paths _) h g = cc
  as_edges-Safe (Values.aggregate _) h g = cc
  as_edges-Safe (Values.comparison _) h g = cc
  as_edges-Safe (Values.event_trace _) h g = cc
  as_edges-Safe (Values.mobility_returns _) h g = cc
  as_edges-Safe (Values.state _ _) h g = cc
  as_edges-Safe (Values.provenance _ _ _) h g = cc

  module _ (scope : Scope) (values : Pool) (typed : Typed scope values) where
    pub window_at-Safe :
        (id : Key)
        → type_in scope id ≡ some Program.window_type
        → Safe Anything (window_at values id)
    window_at-Safe id h =
        let (v, e, (t, g)) = typed id Program.window_type h in rw e (as_window-Safe v t)

    pub edges_at-Safe :
        (id : Key)
        → type_in scope id ≡ some Program.edges_type
        → Safe KnownEdges (edges_at values id)
    edges_at-Safe id h =
        let (v, e, (t, g)) = typed id Program.edges_type h in rw e (as_edges-Safe v t g)

  pub rows_of-Safe : (ids : List Key) → All Known ids → Safe Anything (rows_of x ids)
  rows_of-Safe [] h = answers [] tt
  rows_of-Safe (id ∷ ids) ((a, e), h) =
      rw e (Safe->>= (rows_of-Safe ids h) (λ rest _. answers (a ∷ rest) tt))
