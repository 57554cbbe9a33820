-- ===== src/Ledger/Backup.antt =====
-- `export` and `restore_empty` of src/kdiff/core/durable.py.
-- `digest` hashes the canonical text of a payload, and `digest_tables` that of a body.
use knowledge_diffusion.Base.{
  Bool, Key, List, Result, String, [], any, false, if◌then◌else◌, length, ltb, map, none, not, ok,
  raise_if, true, ℕ, ◌++◌, ◌==◌, ◌>>=◌, ◌>>◌, ◌||◌, ◌∷◌,
}
use knowledge_diffusion.Ledger
use knowledge_diffusion.Ledger.{Db, Task, Intent, Checkpoint, LedgerError}

-- A checkpoint file as it is read: each row with whether its columns are those of its table.
pub record Dump : Type 0 where
  pub file_size : ℕ
  pub is_task_checkpoint : Bool
  pub has_tables : Bool
  pub tasks : List (Bool × Task)
  pub intents : List (Bool × Intent)
  pub checkpoints : List (Bool × Checkpoint)
  pub sha256 : Key

abbrev pub with_columns : {A : Type 0} → A → Bool × A
with_columns row = (true, row)

-- 64 MiB
abbrev pub file_cap : ℕ
file_cap = 67108864

abbrev is_empty : {A : Type 0} → List A → Bool
is_empty [] = true
is_empty (_ ∷ _) = false

-- A lease does not survive a restoration: its row is pending, under the generation that it had.
abbrev pub unleased : Task → Task
unleased row = record row { state = Ledger.pending; owner = none; token = none; expires = none }

abbrev pub restored_task : Task → Task
restored_task row = if Ledger.is_leased row.state then unleased row else row

module _
    (digest_tables : List (Bool × Task)
      → List (Bool × Intent)
      → List (Bool × Checkpoint)
      → Key) where
  abbrev pub dump_of : ℕ → Db → Dump
  dump_of size db =
      let tasks = map with_columns db.tasks in
      let intents = map with_columns db.intents in
      let checkpoints = map with_columns db.checkpoints in
      record {
        file_size = size;
        is_task_checkpoint = true;
        has_tables = true;
        tasks = tasks;
        intents = intents;
        checkpoints = checkpoints;
        sha256 = digest_tables tasks intents checkpoints;
      }

  -- `size` is the size of the file that is written.
  unfoldable pub export : ℕ → ℕ → Db → Result LedgerError Dump
  export max_records size db = do
    raise_if (ltb max_records (length db.tasks)) Ledger.budget_exceeded
    raise_if (ltb max_records (length db.intents)) Ledger.budget_exceeded
    raise_if (ltb max_records (length db.checkpoints)) Ledger.budget_exceeded
    ok (dump_of size db)

  -- One table's rows, inserted in order; a primary key that is there already raises.
  abbrev pub insert_rows :
      {A : Type 0}
      → (A → Key)
      → (A → Bool)
      → (A → A)
      → List (Bool × A)
      → List A
      → Result LedgerError (List A)
  insert_rows key sound change [] table = ok table
  insert_rows key sound change ((columns, row) ∷ rows) table = do
    raise_if (not columns) Ledger.unexpected_columns
    raise_if (not (sound row)) Ledger.payload_mismatch
    raise_if (any (λ x. key x == key row) table) Ledger.duplicate_row
    insert_rows key sound change rows (table ++ change row ∷ [])

  abbrev pub restore_table :
      {A : Type 0}
      → (A → Key)
      → (A → Bool)
      → (A → A)
      → List (Bool × A)
      → List A
      → Result LedgerError (List A)
  restore_table key sound change rows table = do
    raise_if (not (is_empty table)) Ledger.not_empty
    insert_rows key sound change rows table

  unfoldable pub restore_empty : (String → Key) → Dump → Db → Result LedgerError Db
  restore_empty digest dump db = do
    raise_if (ltb file_cap dump.file_size) Ledger.budget_exceeded
    raise_if
        (not (digest_tables dump.tasks dump.intents dump.checkpoints == dump.sha256)
          || not dump.is_task_checkpoint)
        Ledger.integrity_failure
    raise_if (not dump.has_tables) Ledger.unexpected_table
    tasks ←
        restore_table (λ t. t.task_id) (λ t. digest t.payload == t.task_id) restored_task dump.tasks
          db.tasks
    intents ← restore_table (λ i. i.task_id) (λ _. true) (λ i. i) dump.intents db.intents
    checkpoints ← restore_table (λ c. c.name) (λ _. true) (λ c. c) dump.checkpoints db.checkpoints
    ok (record { tasks = tasks; intents = intents; checkpoints = checkpoints })
