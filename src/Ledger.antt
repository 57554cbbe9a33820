-- ===== src/Ledger.antt =====
-- `TaskLedger` of src/kdiff/core/durable.py: the task, intent and checkpoint tables, and the
-- transactions over them.
-- A transaction takes the tables and returns them with its result. `err` carries no tables:
-- the source rolls back. Clock readings are arguments, in microseconds.
mod Rows
pub mod Checkpoints
pub mod Steps
mod Table
mod Evolution
mod History
pub mod Fencing
pub mod Granting
pub mod Exclusion
pub mod Selection
pub mod Integration
pub mod Recovery
pub mod Backup
pub mod Restoration
pub mod Roundtrip
mod Examples
mod BackupExamples
pub use Rows.*
use knowledge_diffusion.Base.{
  Bool, Key, List, Option, Result, String, [], any, err, false, find?, if◌then◌else◌, is_key, leb,
  ltb, map, none, not, ok, or_raise, raise_if, select, some, true, update_where, ℕ, ◌&&◌, ◌*◌, ◌++◌,
  ◌+◌, ◌==◌, ◌>>=◌, ◌>>◌, ◌∷◌,
}

pub data LedgerError : Type 0 where
  invalid_limit stale_lease type_error input_changed no_intent callback_failed : LedgerError
  concurrent_update budget_exceeded integrity_failure not_empty payload_mismatch : LedgerError
  duplicate_row unexpected_table unexpected_columns : LedgerError

abbrev pub second : ℕ
second = 1000000

-- `INSERT INTO kdiff_task(task_id,payload,state,created)`: the other columns take their defaults.
abbrev pub new_task : Key → String → ℕ → Task
new_task id payload t = record {
  task_id = id;
  payload = payload;
  state = pending;
  owner = none;
  token = none;
  generation = 0;
  expires = none;
  attempts = 0;
  result = none;
  error = none;
  created = t;
}

-- `digest` hashes the canonical text of a payload.
pub enqueue : (String → Key) → String → ℕ → Db → Key × Db
enqueue digest payload t db =
    let id = digest payload in
    (
      id,
      if any (has_id id) db.tasks
          then db
          else record db { tasks = db.tasks ++ new_task id payload t ∷ [] },
    )

unfoldable pub in_range : ℕ → ℕ → ℕ → Bool
in_range lo hi n = leb lo n && leb n hi

-- `attempts>=? AND (state='pending' OR (state='leased' AND expires<?))`
unfoldable pub exhausted : ℕ → ℕ → Task → Bool
exhausted max_attempts t task = leb max_attempts task.attempts && reclaimable t task

unfoldable pub eligible : ℕ → ℕ → Option Key → Task → Bool
eligible max_attempts t wanted task =
    ltb task.attempts max_attempts && reclaimable t task && asked wanted task

abbrev pub mark_failed : Task → Task
mark_failed task = record task { state = failed; error = some "retry_limit" }

abbrev pub take_lease : Key → Key → ℕ → Task → Task
take_lease owner token expires task = record task {
  state = leased;
  owner = some owner;
  token = some token;
  generation = task.generation + 1;
  expires = some expires;
  attempts = task.attempts + 1;
}

abbrev pub lease_of : Key → Key → Task → Lease
lease_of owner token row = record {
  task_id = row.task_id;
  owner = owner;
  token = token;
  generation = row.generation + 1;
  payload = row.payload;
}

-- What follows the `SELECT`: the lease, and the row's `UPDATE`.
abbrev pub grant : Key → Key → ℕ → Db → Option Task → Option Lease × Db
grant owner token expires db none = (none, db)
grant owner token expires db (some row) = (
  some (lease_of owner token row),
  record db { tasks = update_where (has_id row.task_id) (take_lease owner token expires) db.tasks },
)

abbrev pub fail_exhausted : ℕ → ℕ → List Task → List Task
fail_exhausted max_attempts t tasks = update_where (exhausted max_attempts t) mark_failed tasks

-- `1 <= ttl <= 3600` and `1 <= max_attempts <= 10`
unfoldable pub valid_limits : ℕ → ℕ → Bool
valid_limits ttl max_attempts = in_range 1 3600 ttl && in_range 1 10 max_attempts

-- The tables after the first `UPDATE` of `claim`.
abbrev pub swept : ℕ → ℕ → Db → Db
swept max_attempts t db = record db { tasks = fail_exhausted max_attempts t db.tasks }

-- The row that its `SELECT` fetches.
abbrev pub picked : ℕ → ℕ → Option Key → Db → Option Task
picked max_attempts t wanted db = earliest (select (eligible max_attempts t wanted) db.tasks)

-- `token` is the fresh `uuid4`, and `t` the clock.
unfoldable pub claim :
    Key → ℕ → ℕ → Option Key → ℕ → Key → Db → Result LedgerError (Option Lease × Db)
claim owner ttl max_attempts wanted t token db = do
  raise_if (not (valid_limits ttl max_attempts)) invalid_limit
  let db' = swept max_attempts t db
  ok (grant owner token (t + ttl * second) db' (picked max_attempts t wanted db'))

abbrev pub holds : Lease → Task → Bool
holds lease row =
    is_leased row.state
    && is_key lease.token row.token
    && is_key lease.owner row.owner
    && row.generation == lease.generation

-- A null `expires` cannot be compared with the clock: Python raises a `TypeError`.
abbrev pub check_expiry : ℕ → Option ℕ → Result LedgerError (Unit {0})
check_expiry t none = err type_error
check_expiry t (some e) = raise_if (ltb e t) stale_lease

-- The test that guards the body of a fenced transaction.
pub fenced : Lease → ℕ → Db → Result LedgerError (Unit {0})
fenced lease t db = do
  row ← or_raise (find? (has_id lease.task_id) db.tasks) stale_lease
  raise_if (not (holds lease row)) stale_lease
  check_expiry t row.expires

abbrev pub set_task : Key → (Task → Task) → Db → Db
set_task id f db = record db { tasks = update_where (has_id id) f db.tasks }

abbrev pub renew : ℕ → Task → Task
renew expires row = record row { expires = some expires }

-- The clock is read once in the guard, `t`, and once for the new expiry, `later`.
pub heartbeat : Lease → ℕ → ℕ → ℕ → Db → Result LedgerError Db
heartbeat lease ttl t later db = do
  raise_if (not (in_range 1 3600 ttl)) invalid_limit
  fenced lease t db
  ok (set_task lease.task_id (renew (later + ttl * second)) db)

abbrev pub add_intent : Key → Key → List Intent → List Intent
add_intent id batch intents =
    if any (intent_of id) intents
    then intents
    else intents
      ++ record { task_id = id; batch_id = batch; committed = false; receipt = none } ∷ []

pub prepare : Lease → Key → ℕ → Db → Result LedgerError Db
prepare lease batch t db = do
  fenced lease t db
  let intents = add_intent lease.task_id batch db.intents
  row ← or_raise (find? (intent_of lease.task_id) intents) type_error
  raise_if (not (row.batch_id == batch)) input_changed
  ok (record db { intents = intents })

abbrev pub finish : String → Task → Task
finish encoded task = record task { state = done; result = some encoded; expires = none }

abbrev pub commit_intent : String → Intent → Intent
commit_intent encoded intent = record intent { committed = true; receipt = some encoded }

abbrev pub commit : Key → String → Db → Db
commit id encoded db = record db {
  intents = update_where (intent_of id) (commit_intent encoded) db.intents;
  tasks = update_where (has_id id) (finish encoded) db.tasks;
}

-- The guard of `integrate` before its callback.
abbrev pub may_integrate : Lease → Key → ℕ → Db → Result LedgerError Intent
may_integrate lease batch t db = do
  fenced lease t db
  intent ← or_raise (find? (intent_of lease.task_id) db.intents) no_intent
  raise_if (not (intent.batch_id == batch)) no_intent
  ok intent

-- The callback writes to the graph, `W`, outside this database: what it wrote stays if it raises
-- (`none`), and the tables do not change then. Its result is the canonical text.
module _ {W : Type 0} (callback : W → Option String × W) where
  abbrev pub after_callback : Key → Db → Option String × W → Result LedgerError String × Db × W
  after_callback id db (none, w) = (err callback_failed, db, w)
  after_callback id db (some encoded, w) = (ok encoded, commit id encoded db, w)

  abbrev pub run_callback :
      Key → Db → W → Result LedgerError Intent → Result LedgerError String × Db × W
  run_callback id db w (err e) = (err e, db, w)
  run_callback id db w (ok _) = after_callback id db (callback w)

  pub integrate : Lease → Key → ℕ → Db → W → Result LedgerError String × Db × W
  integrate lease batch t db w = run_callback lease.task_id db w (may_integrate lease batch t db)

pub complete : Lease → String → ℕ → Db → Result LedgerError Db
complete lease result t db = do fenced lease t db; ok (set_task lease.task_id (finish result) db)

abbrev pub give_back : String → Task → Task
give_back error task = record task {
  state = pending;
  owner = none;
  token = none;
  expires = none;
  error = some error;
}

pub release : Lease → String → ℕ → Db → Result LedgerError Db
release lease error t db = do fenced lease t db; ok (set_task lease.task_id (give_back error) db)

pub record StatusRow : Type 0 where
  pub task_id : Key
  pub state : TaskState
  pub owner : Option Key
  pub generation : ℕ
  pub attempts : ℕ
  pub error : Option String

abbrev pub status_row : Task → StatusRow
status_row task = record {
  task_id = task.task_id;
  state = task.state;
  owner = task.owner;
  generation = task.generation;
  attempts = task.attempts;
  error = task.error;
}

-- `SELECT task_id,state,owner,generation,attempts,error … ORDER BY created,task_id`
unfoldable pub status : Db → List StatusRow
status db = map status_row (in_order db.tasks)

-- The row as it stands: its payload and result keep their canonical text.
pub lookup : Key → Db → Option Task
lookup id db = find? (has_id id) db.tasks
