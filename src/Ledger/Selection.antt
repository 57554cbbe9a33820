-- ===== src/Ledger/Selection.antt =====
-- Which row `claim` of src/kdiff/core/durable.py picks, and when it picks none.
use knowledge_diffusion.Base.{
  Key, Option, Option-cases, arith, err, false, find?-update_where-some, inl, inr, none, ok, refl,
  some, true, ℕ, ◌*◌, ◌+◌, ◌≡◌,
}
use knowledge_diffusion.Ledger
use knowledge_diffusion.Ledger.{Db, Task, Lease, LedgerError, has_id}
use knowledge_diffusion.Ledger.Table.{UniqueIds, earliest-first, earliest-none}
use knowledge_diffusion.Ledger.Evolution.{lookup-set_task, picked_lem, swept-UniqueIds}

-- An eligible row outlives the sweep.
swept_keeps :
    (max_attempts t : ℕ) (wanted : Option Key) (id : Key) (db : Db) (row : Task)
    → Ledger.eligible max_attempts t wanted row ≡ true
    → Ledger.lookup id db ≡ some row
    → Ledger.lookup id (Ledger.swept max_attempts t db) ≡ some row
unfolding Ledger.lookup Ledger.exhausted Ledger.eligible
swept_keeps max_attempts t wanted id db row fit found = ground (
  arith,
  find?-update_where-some (has_id id) (Ledger.exhausted max_attempts t) Ledger.mark_failed db.tasks
      row (λ x. refl) found,
)

-- A row of the tables that a `claim` may take.
pub record Claimable (max_attempts t : ℕ) (wanted : Option Key) (db : Db) (row : Task)
    : Type 0 where
  pub id : Key
  pub found : Ledger.lookup id db ≡ some row
  pub fit : Ledger.eligible max_attempts t wanted row ≡ true

-- The outcome of a `claim`: nothing, where there is no such row, or one that no such row precedes.
abbrev pub Fair : (Task → Type 0) → Option Lease → Db → Type 0
Fair May none db' = (row : Task) → ¬ (May row)
Fair May (some lease) db' =
    (taken : Task) × (Ledger.lookup lease.task_id db' ≡ some taken)
    × ((row : Task) → May row → Ledger.earlier row taken ≡ false)

-- Where identifiers are unique: with valid limits `claim` never raises. It grants nothing only
-- where no task is pending or expired, has attempts left and is the one asked for, and a lease that
-- it grants is of a task that no such task precedes in the order of creation.
pub claim-Fair :
    (owner : Key) (ttl max_attempts : ℕ) (wanted : Option Key) (t : ℕ) (token : Key) (db : Db)
    → UniqueIds db.tasks
    → Ledger.valid_limits ttl max_attempts ≡ true
    → (lease : Option Lease) × (db' : Db) × (Ledger.claim owner ttl max_attempts wanted t token db
        ≡ ok (lease, db'))
      × Fair (Claimable max_attempts t wanted db) lease db'
unfolding Ledger.lookup Ledger.claim
claim-Fair owner ttl max_attempts wanted t token db unique fine =
    let eligible = Ledger.eligible max_attempts t wanted in
    let swept = Ledger.swept max_attempts t db in
    elim (Option-cases (Ledger.picked max_attempts t wanted swept)) [
      | inl nothing ↦ (
        none,
        swept,
        rw (fine, nothing),
        λ row may. cc (
          may.fit,
          earliest-none eligible swept.tasks may.id row nothing
              (swept_keeps max_attempts t wanted may.id db row may.fit may.found),
        ),
      )
      | inr (x, e) ↦ (
        some (Ledger.lease_of owner token x),
        Ledger.set_task x.task_id (Ledger.take_lease owner token (t + ttl * Ledger.second)) swept,
        rw (fine, e),
        (
          Ledger.take_lease owner token (t + ttl * Ledger.second) x,
          lookup-set_task x.task_id (Ledger.take_lease owner token (t + ttl * Ledger.second)) swept
              x (λ y. refl)
              (picked_lem max_attempts t wanted swept x (swept-UniqueIds max_attempts t db unique)
                e).2,
          λ row may.
              earliest-first eligible swept.tasks x may.id row e
                (swept_keeps max_attempts t wanted may.id db row may.fit may.found) may.fit,
        ),
      )
    ]

-- With other limits it raises.
pub claim_invalid :
    (owner : Key) (ttl max_attempts : ℕ) (wanted : Option Key) (t : ℕ) (token : Key) (db : Db)
    → Ledger.valid_limits ttl max_attempts ≡ false
    → Ledger.claim owner ttl max_attempts wanted t token db ≡ err Ledger.invalid_limit
unfolding Ledger.claim
claim_invalid owner ttl max_attempts wanted t token db wrong = rw wrong
