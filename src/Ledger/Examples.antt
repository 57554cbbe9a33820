-- ===== src/Ledger/Examples.antt =====
-- The theorems on the task ledger at a small table, and runs of its transactions.
use knowledge_diffusion.Base.{
  Key, List, Option, String, [], arith, err, false, if◌then◌else◌, member, none, ok, refl, some,
  str_eq, ◌+◌, ◌∷◌, ◌≡◌,
}
use knowledge_diffusion.Ledger
use knowledge_diffusion.Ledger.{Db, Task, Lease}
use knowledge_diffusion.Ledger.Steps.{Op, run}
use knowledge_diffusion.Ledger.Checkpoints.{checkpoint, read_checkpoint, checkpoint-read_checkpoint}
use knowledge_diffusion.Ledger.Evolution.{Later}
use knowledge_diffusion.Ledger.Fencing.{run-Later}
use knowledge_diffusion.Ledger.Granting.{Leases, claim-Leases}
use knowledge_diffusion.Ledger.Exclusion.{GrantsOther, claim-fenced, claim_spares_live}
use knowledge_diffusion.Ledger.Selection.{Claimable, Fair, claim-Fair}
use knowledge_diffusion.Ledger.Integration.{Integrated, integrate-Integrated}
use knowledge_diffusion.Ledger.Recovery.{claim-integrate}

-- The identifier of a payload, as a table of two.
abbrev digest : String → Key
digest text = if str_eq text "a" then 1 else 2

abbrev queued : Db
queued = record {
  tasks = Ledger.new_task 1 "a" 10 ∷ Ledger.new_task 2 "b" 20 ∷ [];
  intents = [];
  checkpoints = [];
}

-- Task 1 leased for a minute at second 1.
abbrev lease_1 : Lease
lease_1 = record { task_id = 1; owner = 5; token = 50; generation = 1; payload = "a" }

abbrev row_1 : Task
row_1 = Ledger.take_lease 5 50 61000000 (Ledger.new_task 1 "a" 10)

abbrev leased : Db
leased = record queued { tasks = row_1 ∷ Ledger.new_task 2 "b" 20 ∷ [] }

-- The same task leased again, after a minute.
abbrev lease_2 : Lease
lease_2 = record { task_id = 1; owner = 6; token = 60; generation = 2; payload = "a" }

abbrev row_2 : Task
row_2 = Ledger.take_lease 6 60 130000000 row_1

abbrev released : Db
released = record queued { tasks = row_2 ∷ Ledger.new_task 2 "b" 20 ∷ [] }

abbrev lease_b : Lease
lease_b = record { task_id = 2; owner = 6; token = 70; generation = 1; payload = "b" }

abbrev both : Db
both = record queued {
  tasks = row_1 ∷ Ledger.take_lease 6 70 62000000 (Ledger.new_task 2 "b" 20) ∷ [];
}

claim_first : Ledger.claim 5 60 3 none 1000000 50 queued ≡ ok (some lease_1, leased)
unfolding Ledger.claim Ledger.eligible Ledger.exhausted Ledger.valid_limits Ledger.in_range
claim_first = refl

claim_again : Ledger.claim 6 60 3 none 70000000 60 leased ≡ ok (some lease_2, released)
unfolding Ledger.claim Ledger.eligible Ledger.exhausted Ledger.valid_limits Ledger.in_range
claim_again = refl

claim_other : Ledger.claim 6 60 3 none 2000000 70 leased ≡ ok (some lease_b, both)
unfolding Ledger.claim Ledger.eligible Ledger.exhausted Ledger.valid_limits Ledger.in_range
claim_other = refl

held_1 : Ledger.fenced lease_1 2000000 leased ≡ ok tt
unfolding Ledger.fenced
held_1 = refl

-- A worker's tasks: finish the first, give the second back.
abbrev script : List Op
script =
    Op.complete lease_1 "r" 3000000
    ∷ Op.enqueue "b" 30
    ∷ Op.claim 9 60 3 none 4000000 90
    ∷ Op.checkpoint_at 4 "v" none
    ∷ []

run-Later_example :
    (b : Task) × (Ledger.lookup 1 (run digest leased script) ≡ some b) × Later row_1 b
unfolding Ledger.lookup
run-Later_example = run-Later digest leased script 1 row_1 (refl, (refl, tt)) refl

claim-Leases_example : (row : Task) × Leases lease_2 70000000 130000000 3 leased released row
claim-Leases_example =
    claim-Leases 6 60 3 none 70000000 60 leased released lease_2 (refl, (refl, tt)) claim_again

claim-fenced_example :
    (Ledger.fenced lease_2 80000000 released ≡ ok tt)
    × (Ledger.fenced lease_1 3000000 (run digest released script) ≡ err Ledger.stale_lease)
claim-fenced_example =
    claim-fenced digest 6 60 3 none 70000000 60 leased released lease_2 lease_1 80000000 2000000
      3000000 script (refl, (refl, tt)) claim_again (omega arith) held_1 refl

claim_spares_live_example :
    GrantsOther lease_1 (some lease_b) × (Ledger.fenced lease_1 2000000 both ≡ ok tt)
claim_spares_live_example =
    claim_spares_live 6 60 3 none 2000000 70 leased both (some lease_b) lease_1 (refl, (refl, tt))
      held_1 claim_other

claim-Fair_example :
    (lease : Option Lease) × (db' : Db) × (Ledger.claim 5 60 3 none 1000000 50 queued
      ≡ ok (lease, db'))
    × Fair (Claimable 3 1000000 none queued) lease db'
unfolding Ledger.valid_limits Ledger.in_range
claim-Fair_example = claim-Fair 5 60 3 none 1000000 50 queued (refl, (refl, tt)) refl

-- The graph as a list of batches: a batch that is there is not written again.
abbrev write_batch : Key → List Key → Option String × List Key
write_batch batch graph = (some "ok", if member batch graph then graph else batch ∷ graph)

abbrev bound : Db
bound = record leased {
  intents = record { task_id = 1; batch_id = 8; committed = false; receipt = none } ∷ [];
}

prepare-bound : Ledger.prepare lease_1 8 2000000 leased ≡ ok bound
unfolding Ledger.prepare Ledger.fenced
prepare-bound = refl

held_bound : Ledger.fenced lease_1 2000000 bound ≡ ok tt
unfolding Ledger.fenced
held_bound = refl

integrate-Integrated_example :
    Integrated
      (write_batch 8)
      lease_1
      8
      2000000
      bound
      []
      (Ledger.integrate (write_batch 8) lease_1 8 2000000 bound [])
integrate-Integrated_example = integrate-Integrated (write_batch 8) lease_1 8 2000000 bound []

abbrev rebound : Db
rebound = record released { intents = bound.intents }

claim_bound : Ledger.claim 6 60 3 none 70000000 60 bound ≡ ok (some lease_2, rebound)
unfolding Ledger.claim Ledger.eligible Ledger.exhausted Ledger.valid_limits Ledger.in_range
claim_bound = refl

claim-integrate_example :
    ((undead : Db) × (Ledger.integrate (write_batch 8) lease_1 8 2000000 bound []
        ≡ (ok "ok", undead, 8 ∷ [])))
    × ((last : Db) × (row : Task) × (Ledger.integrate
            (write_batch 8)
            lease_2
            8
            80000000
            rebound
            (8 ∷ [])
          ≡ (ok "ok", last, 8 ∷ []))
        × (Ledger.lookup 1 rebound ≡ some row)
        × (Ledger.lookup 1 last ≡ some (Ledger.finish "ok" row)))
    × (Ledger.integrate (write_batch 8) lease_1 8 3000000 rebound (8 ∷ [])
        ≡ (err Ledger.stale_lease, rebound, 8 ∷ []))
claim-integrate_example =
    claim-integrate (write_batch 8) digest 6 60 3 none 70000000 60 bound rebound lease_1 lease_2 8
      (record { task_id = 1; batch_id = 8; committed = false; receipt = none }) 2000000 80000000
      3000000 [] (8 ∷ []) "ok" (refl, (refl, tt)) held_bound refl refl refl refl claim_bound refl
      (omega arith)

checkpoint-read_checkpoint_example :
    let revision = (read_checkpoint 1 queued).1 in
    (checkpoint 1 "v" (some 3) queued ≡ err Ledger.concurrent_update)
    × ((db' : Db) × (checkpoint 1 "v" (some revision) queued ≡ ok (revision + 1, db'))
        × (read_checkpoint 1 db' ≡ (some "v", revision + 1))
        × (read_checkpoint 2 db' ≡ read_checkpoint 2 queued)
        × (db'.tasks ≡ queued.tasks)
        × (db'.intents ≡ queued.intents))
unfolding read_checkpoint
checkpoint-read_checkpoint_example =
    checkpoint-read_checkpoint 1 2 "v" 3 queued (omega arith) (omega arith)

abbrev saved : Db
saved = record queued { checkpoints = record { name = 1; value = "v"; revision = 1 } ∷ [] }

checkpoint-saved : checkpoint 1 "v" (some 0) queued ≡ ok (1, saved)
unfolding checkpoint
checkpoint-saved = refl
