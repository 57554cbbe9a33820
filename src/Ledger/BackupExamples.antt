-- ===== src/Ledger/BackupExamples.antt =====
-- The theorems on export and restoration at a table of one leased task.
use knowledge_diffusion.Base.{
  Bool, Key, List, String, [], arith, err, false, length, map, none, ok, refl, ◌+◌, ◌∷◌, ◌≡◌,
}
use knowledge_diffusion.Ledger
use knowledge_diffusion.Ledger.{Db, Task, Intent, Checkpoint, Lease}
use knowledge_diffusion.Ledger.Backup
use knowledge_diffusion.Ledger.Backup.{Dump, export, restore_empty, restored_task}
use knowledge_diffusion.Ledger.Restoration.{restore_empty-fenced}
use knowledge_diffusion.Ledger.Roundtrip.{export-restore_empty}

abbrev hash_of : String → Key
hash_of _ = 1

-- A hash of a body, as its number of rows.
abbrev body_hash : List (Bool × Task) → List (Bool × Intent) → List (Bool × Checkpoint) → Key
body_hash tasks intents checkpoints = length tasks + length intents + length checkpoints

abbrev held : Lease
held = record { task_id = 1; owner = 5; token = 50; generation = 1; payload = "a" }

abbrev saved : Db
saved = record {
  tasks = Ledger.take_lease 5 50 61000000 (Ledger.new_task 1 "a" 10) ∷ [];
  intents = record { task_id = 1; batch_id = 8; committed = false; receipt = none } ∷ [];
  checkpoints = record { name = 4; value = "v"; revision = 2 } ∷ [];
}

abbrev back : Db
back = record saved {
  tasks = restored_task (Ledger.take_lease 5 50 61000000 (Ledger.new_task 1 "a" 10)) ∷ [];
}

abbrev dump : Dump
dump = Backup.dump_of body_hash 900 saved

held-fenced : Ledger.fenced held 2000000 saved ≡ ok tt
unfolding Ledger.fenced
held-fenced = refl

saved-export : export body_hash 100 900 saved ≡ ok dump
unfolding export
saved-export = refl

saved-restore_empty : restore_empty body_hash hash_of dump Ledger.empty ≡ ok back
unfolding restore_empty
saved-restore_empty = refl

-- The tables must be empty, and the hash that of the body.
restore_not_empty : restore_empty body_hash hash_of dump saved ≡ err Ledger.not_empty
unfolding restore_empty
restore_not_empty = refl

restore_corrupted :
    restore_empty body_hash hash_of (record dump { sha256 = 9 }) Ledger.empty
    ≡ err Ledger.integrity_failure
unfolding restore_empty
restore_corrupted = refl

restore_empty-fenced_example : Ledger.fenced held 2000000 back ≡ err Ledger.stale_lease
restore_empty-fenced_example =
    restore_empty-fenced body_hash hash_of dump Ledger.empty back held 2000000 saved-restore_empty

export-restore_empty_example :
    restore_empty body_hash hash_of dump Ledger.empty
    ≡ ok (record saved { tasks = map restored_task saved.tasks })
export-restore_empty_example =
    export-restore_empty body_hash hash_of 100 900 saved dump (omega arith) (refl, tt) (refl, tt)
      (refl, tt) (refl, tt) saved-export
