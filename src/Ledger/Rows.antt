-- ===== src/Ledger/Rows.antt =====
-- The rows of the three tables of src/kdiff/core/durable.py, and the tests of its SQL text.
use knowledge_diffusion.Base.{
  Key, ℕ, String, Bool, true, false, ◌&&◌, ◌||◌, Option, none, some, List, [], ◌∷◌, ltb, ◌==◌,
  if◌then◌else◌,
}

pub data TaskState : Type 0 where
  pending leased done failed : TaskState

pub record Task : Type 0 where
  pub task_id : Key
  pub payload : String
  pub state : TaskState
  pub owner : Option Key
  pub token : Option Key
  pub generation : ℕ
  pub expires : Option ℕ
  pub attempts : ℕ
  pub result : Option String
  pub error : Option String
  pub created : ℕ

-- `state` is 'prepared' or 'committed'.
pub record Intent : Type 0 where
  pub task_id : Key
  pub batch_id : Key
  pub committed : Bool
  pub receipt : Option String

pub record Checkpoint : Type 0 where
  pub name : Key
  pub value : String
  pub revision : ℕ

pub record Db : Type 0 where
  pub tasks : List Task
  pub intents : List Intent
  pub checkpoints : List Checkpoint

-- What `claim` returns.
pub record Lease : Type 0 where
  pub task_id : Key
  pub owner : Key
  pub token : Key
  pub generation : ℕ
  pub payload : String

abbrev pub empty : Db
empty = record { tasks = []; intents = []; checkpoints = [] }

abbrev pub is_pending : TaskState → Bool
is_pending pending = true
is_pending _ = false

abbrev pub is_leased : TaskState → Bool
is_leased leased = true
is_leased _ = false

abbrev pub is_done : TaskState → Bool
is_done done = true
is_done _ = false

-- `task_id=?`
abbrev pub has_id : Key → Task → Bool
has_id id task = task.task_id == id

abbrev pub intent_of : Key → Intent → Bool
intent_of id intent = intent.task_id == id

-- `expires<?`, which is not true of a null.
abbrev pub before : Option ℕ → ℕ → Bool
before none t = false
before (some e) t = ltb e t

-- `state='pending' OR (state='leased' AND expires<?)`
abbrev pub reclaimable : ℕ → Task → Bool
reclaimable t task = is_pending task.state || is_leased task.state && before task.expires t

-- `AND task_id=?`, added to the query only where a task is asked for.
abbrev pub asked : Option Key → Task → Bool
asked none task = true
asked (some id) task = task.task_id == id

-- `ORDER BY created,task_id`
abbrev pub earlier : Task → Task → Bool
earlier a b = ltb a.created b.created || a.created == b.created && ltb a.task_id b.task_id

abbrev pub earlier_of : Task → Option Task → Task
earlier_of x none = x
earlier_of x (some y) = if earlier y x then y else x

-- `ORDER BY created,task_id LIMIT 1`
abbrev pub earliest : List Task → Option Task
earliest [] = none
earliest (x ∷ xs) = some (earlier_of x (earliest xs))

abbrev pub place : Task → List Task → List Task
place x [] = x ∷ []
place x (y ∷ ys) = let rest = place x ys in if earlier y x then y ∷ rest else x ∷ y ∷ ys

abbrev pub in_order : List Task → List Task
in_order [] = []
in_order (x ∷ xs) = place x (in_order xs)
