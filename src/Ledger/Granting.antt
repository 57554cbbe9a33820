-- ===== src/Ledger/Granting.antt =====
-- `claim` of src/kdiff/core/durable.py: whom it grants a lease, and what the lease is good for.
use knowledge_diffusion.Base.{
  Bool-cases, Key, Option, Option-cases, Result, ap, arith, find?, find?-update_where-none,
  find?-update_where-some, inl, inr, none, ok, ok-injective, refl, some, sym, true, ℕ, ◌*◌, ◌+◌,
  ◌<◌, ◌≡◌,
}
use knowledge_diffusion.Ledger
use knowledge_diffusion.Ledger.{Db, Task, Lease, has_id}
use knowledge_diffusion.Ledger.Table.{UniqueIds}
use knowledge_diffusion.Ledger.Evolution.{picked_lem, lookup-set_task, swept-UniqueIds}

module _ (owner : Key) (ttl max_attempts : ℕ) (wanted : Option Key) (t : ℕ) (token : Key)
    (db : Db) where
  abbrev pub claiming : Result Ledger.LedgerError (Option Lease × Db)
  claiming = Ledger.claim owner ttl max_attempts wanted t token db

  -- The row that a successful `claim` picked.
  pub record Granted (lease : Lease) (db' : Db) (row : Task) : Type 0 where
    pub limits : Ledger.valid_limits ttl max_attempts ≡ true
    pub chosen : Ledger.picked max_attempts t wanted (Ledger.swept max_attempts t db) ≡ some row
    pub lease_lem : lease ≡ Ledger.lease_of owner token row
    pub tables :
        db'
        ≡ Ledger.set_task row.task_id
            (Ledger.take_lease owner token (t + ttl * Ledger.second))
            (Ledger.swept max_attempts t db)

  pub claim-grant :
      (r : Option Lease × Db)
      → claiming ≡ ok r
      → (Ledger.valid_limits ttl max_attempts ≡ true)
        × (Ledger.grant owner token
              (t + ttl * Ledger.second)
              (Ledger.swept max_attempts t db)
              (Ledger.picked max_attempts t wanted (Ledger.swept max_attempts t db))
            ≡ r)
  unfolding Ledger.claim
  claim-grant r h = elim (Bool-cases (Ledger.valid_limits ttl max_attempts)) [
    | inl fine ↦ (fine, ok-injective (rw fine at h))
    | inr wrong ↦ cc (wrong, h)
  ]

  grant-Granted :
      (picked : Option Task) (lease : Lease) (db' : Db)
      → Ledger.valid_limits ttl max_attempts ≡ true
      → Ledger.picked max_attempts t wanted (Ledger.swept max_attempts t db) ≡ picked
      → Ledger.grant owner token (t + ttl * Ledger.second) (Ledger.swept max_attempts t db) picked
        ≡ (some lease, db')
      → (row : Task) × Granted lease db' row
  grant-Granted none lease db' fine e h = cc
  grant-Granted (some row) lease db' fine e h =
      (row, record { limits = fine; chosen = e; lease_lem = cc; tables = ap (λ r. r.1) (sym h) })

  pub claim-Granted :
      (lease : Lease) (db' : Db)
      → claiming ≡ ok (some lease, db')
      → (row : Task) × Granted lease db' row
  claim-Granted lease db' h =
      let (fine, g) = claim-grant (some lease, db') h in
      grant-Granted (Ledger.picked max_attempts t wanted (Ledger.swept max_attempts t db)) lease db'
        fine refl g

-- The sweep leaves a row that `claim` may pick as it is.
swept-lookup :
    (max_attempts t : ℕ) (id : Key) (db : Db) (row : Task)
    → Ledger.reclaimable t row ≡ true
    → Ledger.lookup id (Ledger.swept max_attempts t db) ≡ some row
    → Ledger.lookup id db ≡ some row
unfolding Ledger.lookup
swept-lookup max_attempts t id db row claimable found =
    elim (Option-cases (find? (has_id id) db.tasks)) [
      | inl absent ↦ cc (
        found,
        find?-update_where-none (has_id id) (Ledger.exhausted max_attempts t) Ledger.mark_failed
            db.tasks (λ x. refl) absent,
      )
      | inr (old, e) ↦ ground (
        arith,
        find?-update_where-some (has_id id) (Ledger.exhausted max_attempts t) Ledger.mark_failed
            db.tasks old (λ x. refl) e,
      )
    ]

-- What `claim` knows of the row that it leases, in the tables before and after.
pub record Leases (lease : Lease) (t until max_attempts : ℕ) (db db' : Db) (row : Task)
    : Type 0 where
  pub before : Ledger.lookup lease.task_id db ≡ some row
  pub claimable : Ledger.reclaimable t row ≡ true
  pub attempts_left : row.attempts < max_attempts
  pub next_generation : lease.generation ≡ row.generation + 1
  pub after :
      Ledger.lookup lease.task_id db' ≡ some (Ledger.take_lease lease.owner lease.token until row)

granted-Leases :
    (owner : Key) (until max_attempts : ℕ) (wanted : Option Key) (t : ℕ) (token : Key) (db : Db)
    (row : Task)
    → Ledger.eligible max_attempts t wanted row ≡ true
    → Ledger.reclaimable t row ≡ true
    → Ledger.lookup row.task_id (Ledger.swept max_attempts t db) ≡ some row
    → Leases
        (Ledger.lease_of owner token row)
        t
        until
        max_attempts
        db
        (Ledger.set_task row.task_id
          (Ledger.take_lease owner token until)
          (Ledger.swept max_attempts t db))
        row
unfolding Ledger.eligible
granted-Leases owner until max_attempts wanted t token db row fit claimable found = record {
  before = swept-lookup max_attempts t row.task_id db row claimable found;
  claimable = claimable;
  attempts_left = ground arith;
  next_generation = refl;
  after =
      lookup-set_task row.task_id (Ledger.take_lease owner token until)
        (Ledger.swept max_attempts t db) row (λ x. refl) found;
}

-- Where identifiers are unique: a lease that `claim` grants is of a task that was pending, or whose lease had run out, with
-- attempts left; its generation is one more than the task had; the task's row in the new tables
-- is leased to it until `ttl` seconds after the clock, and it is the row of the old tables but
-- for the columns of the lease.
pub claim-Leases :
    (owner : Key) (ttl max_attempts : ℕ) (wanted : Option Key) (t : ℕ) (token : Key) (db db' : Db)
    (lease : Lease)
    → UniqueIds db.tasks
    → Ledger.claim owner ttl max_attempts wanted t token db ≡ ok (some lease, db')
    → (row : Task) × Leases lease t (t + ttl * Ledger.second) max_attempts db db' row
claim-Leases owner ttl max_attempts wanted t token db db' lease unique h =
    let (row, g) = claim-Granted owner ttl max_attempts wanted t token db lease db' h in
    let swept = Ledger.swept max_attempts t db in
    let p =
      picked_lem max_attempts t wanted swept row (swept-UniqueIds max_attempts t db unique)
        g.chosen in
    (
      row,
      rw (g.lease_lem, g.tables)
          (granted-Leases owner (t + ttl * Ledger.second) max_attempts wanted t token db row p.0 p.1
            p.2),
    )
