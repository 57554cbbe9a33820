-- ===== src/Ledger/Evolution.antt =====
-- What `claim` and a fenced update do to one task of src/kdiff/core/durable.py.
use knowledge_diffusion.Base.{
  Bool, Bool-cases, Key, List, Option, Option-cases, ap, arith, false, find?, find?-holds,
  find?-update_where-some, if◌then◌else◌, inl, inr, none, ok, refl, some, true, update_where, ℕ,
  ◌*◌, ◌+◌, ◌==◌, ◌≡◌, ◌≤◌,
}
use knowledge_diffusion.Ledger
use knowledge_diffusion.Ledger.{Db, Task, Lease, has_id, before, is_leased}
use knowledge_diffusion.Ledger.Steps
use knowledge_diffusion.Ledger.Table.{UniqueIds, update_where-UniqueIds, earliest-select}

-- A done row is never written again, and a failed one stays failed.
abbrev pub Settles : Ledger.TaskState → Task → Task → Type 0
Settles Ledger.done a b = b ≡ a
Settles Ledger.failed a b = b.state ≡ Ledger.failed
Settles _ a b = Unit

-- `b` is a later state of the row `a`.
pub record Later (a b : Task) : Type 0 where
  pub same_id : b.task_id ≡ a.task_id
  pub same_payload : b.payload ≡ a.payload
  pub generation_grows : a.generation ≤ b.generation
  pub counted : b.attempts + a.generation ≡ a.attempts + b.generation
  pub settled : Settles a.state a b

pub Later-refl : (a : Task) → Later a a
Later-refl a = ground arith

pub Later-trans : (a b c : Task) → Later a b → Later b c → Later a c
Later-trans a b c h k = ground arith

-- A row that is there stays, in a later state.
abbrev pub Evolves : Option Task → Option Task → Type 0
Evolves none b = Unit
Evolves (some a) none = ⊥
Evolves (some a) (some b) = Later a b

pub Evolves-refl : (a : Option Task) → Evolves a a
Evolves-refl none = tt
Evolves-refl (some a) = Later-refl a

pub Evolves-trans : (a b c : Option Task) → Evolves a b → Evolves b c → Evolves a c
Evolves-trans none b c h k = tt
Evolves-trans (some a) none c h k = absurd h
Evolves-trans (some a) (some b) none h k = absurd k
Evolves-trans (some a) (some b) (some c) h k = Later-trans a b c h k

-- The row that a fenced transaction found.
pub record Fenced (lease : Lease) (t : ℕ) (db : Db) (row : Task) : Type 0 where
  pub found : Ledger.lookup lease.task_id db ≡ some row
  pub held : Ledger.holds lease row ≡ true
  pub leased : row.state ≡ Ledger.leased
  pub unexpired : before row.expires t ≡ false

pub fenced-Fenced :
    (lease : Lease) (t : ℕ) (db : Db)
    → Ledger.fenced lease t db ≡ ok tt
    → (row : Task) × Fenced lease t db row
unfolding Ledger.fenced Ledger.lookup
fenced-Fenced lease t db h = elim (Option-cases (Ledger.lookup lease.task_id db)) [
  | inl absent ↦ ground arith
  | inr (row, found) ↦ (row, ground arith)
]

module _ (p : Task → Bool) (f : Task → Task) (tasks : List Task)
    (keep : (x : Task) → (f x).task_id ≡ x.task_id) where
  if_Later :
      (row : Task) → (p row ≡ true → Later row (f row)) → Later row (if p row then f row else row)
  if_Later row later = elim (Bool-cases (p row)) [
    | inl e ↦ rw e (later e)
    | inr e ↦ rw e (Later-refl row)
  ]

  -- An update that takes every row that it changes to a later state.
  pub update_where-Evolves :
      ((row : Task)
        → find? (has_id row.task_id) tasks ≡ some row
        → p row ≡ true
        → Later row (f row))
      → (j : Key) → Evolves (find? (has_id j) tasks) (find? (has_id j) (update_where p f tasks))
  update_where-Evolves later j = elim (Option-cases (find? (has_id j) tasks)) [
    | inl absent ↦ rw absent tt
    | inr (row, found) ↦
        rw
          (
            found,
            find?-update_where-some (has_id j) p f tasks row (λ y. ap (λ k. k == j) (keep y)) found,
          )
          (if_Later row (later row (ground (arith, find?-holds (has_id j) tasks row))))
  ]

-- The row that an `UPDATE … WHERE task_id=?` leaves.
pub lookup-set_task :
    (id : Key) (f : Task → Task) (db : Db) (row : Task)
    → ((x : Task) → (f x).task_id ≡ x.task_id)
    → Ledger.lookup id db ≡ some row
    → Ledger.lookup id (Ledger.set_task id f db) ≡ some (f row)
unfolding Ledger.lookup
lookup-set_task id f db row keep found = rw (
  find?-update_where-some (has_id id) (has_id id) f db.tasks row (λ x. ap (λ k. k == id) (keep x))
      found,
  find?-holds (has_id id) db.tasks row found,
)

-- The first half of `claim`.
pub fail_exhausted-Evolves :
    (max_attempts t : ℕ) (tasks : List Task) (j : Key)
    → Evolves
        (find? (has_id j) tasks)
        (find? (has_id j) (Ledger.fail_exhausted max_attempts t tasks))
unfolding Ledger.exhausted
fail_exhausted-Evolves max_attempts t tasks =
    update_where-Evolves (Ledger.exhausted max_attempts t) Ledger.mark_failed tasks (λ x. refl)
      (λ row found e. ground arith)

take_lease-Later :
    (owner token : Key) (expires t : ℕ) (row : Task)
    → Ledger.reclaimable t row ≡ true
    → Later row (Ledger.take_lease owner token expires row)
take_lease-Later owner token expires t row h = ground arith

-- The second half: only the row that is picked changes.
pub grant-Evolves :
    (owner token : Key) (expires t : ℕ) (db : Db) (picked : Option Task)
    → ((row : Task)
        → picked ≡ some row
        → (Ledger.reclaimable t row ≡ true) × (find? (has_id row.task_id) db.tasks ≡ some row))
    → (j : Key)
    → Evolves (Ledger.lookup j db) (Ledger.lookup j (Ledger.grant owner token expires db picked).1)
unfolding Ledger.lookup
grant-Evolves owner token expires t db none known j = Evolves-refl (Ledger.lookup j db)
grant-Evolves owner token expires t db (some row) known j =
    let fact = known row refl in
    update_where-Evolves (has_id row.task_id) (Ledger.take_lease owner token expires) db.tasks
      (λ x. refl)
      (λ found e same.
        take_lease-Later owner token expires t found (ground (arith, fact.0, fact.1)))
      j

-- An update of the row that a lease holds.
pub set_task-Evolves :
    (lease : Lease) (t : ℕ) (f : Task → Task) (db : Db)
    → Ledger.fenced lease t db ≡ ok tt
    → ((row : Task) → (f row).task_id ≡ row.task_id)
    → ((row : Task) → row.state ≡ Ledger.leased → Later row (f row))
    → (j : Key)
    → Evolves (Ledger.lookup j db) (Ledger.lookup j (Ledger.set_task lease.task_id f db))
unfolding Ledger.lookup
set_task-Evolves lease t f db h keep later j =
    let (row, fact) = fenced-Fenced lease t db h in
    update_where-Evolves (has_id lease.task_id) f db.tasks keep
      (λ found e same. later found (ground (arith, fact.found, fact.leased))) j

pub swept-UniqueIds :
    (max_attempts t : ℕ) (db : Db)
    → UniqueIds db.tasks
    → UniqueIds (Ledger.swept max_attempts t db).tasks
swept-UniqueIds max_attempts t db = update_where-UniqueIds _ _ db.tasks (λ x. refl)

-- The row that `claim` picks may be claimed, and is the one of its identifier.
pub picked_lem :
    (max_attempts t : ℕ) (wanted : Option Key) (db : Db) (row : Task)
    → UniqueIds db.tasks
    → Ledger.picked max_attempts t wanted db ≡ some row
    → (Ledger.eligible max_attempts t wanted row ≡ true)
      × (Ledger.reclaimable t row ≡ true)
      × (Ledger.lookup row.task_id db ≡ some row)
unfolding Ledger.eligible Ledger.lookup
picked_lem max_attempts t wanted db row unique e =
    ground (arith, earliest-select (Ledger.eligible max_attempts t wanted) db.tasks row)

pub claim-Evolves :
    (owner : Key) (ttl max_attempts : ℕ) (wanted : Option Key) (t : ℕ) (token : Key) (db : Db)
    → UniqueIds db.tasks
    → (j : Key)
    → Evolves (Ledger.lookup j db) (
        Ledger.lookup j
          (Steps.with_result db (Ledger.claim owner ttl max_attempts wanted t token db)))
unfolding Ledger.claim Ledger.lookup
claim-Evolves owner ttl max_attempts wanted t token db unique j =
    elim (Bool-cases (Ledger.valid_limits ttl max_attempts)) [
      | inr wrong ↦ rw wrong (Evolves-refl (Ledger.lookup j db))
      | inl fine ↦
          let db' = Ledger.swept max_attempts t db in
          let row = Ledger.picked max_attempts t wanted db' in
          rw fine (
            Evolves-trans (Ledger.lookup j db) (Ledger.lookup j db')
              (Ledger.lookup j (Ledger.grant owner token (t + ttl * Ledger.second) db' row).1)
              (fail_exhausted-Evolves max_attempts t db.tasks j)
              (grant-Evolves owner token (t + ttl * Ledger.second) t db' row
                (λ x e.
                  let fact =
                    picked_lem max_attempts t wanted db' x
                      (swept-UniqueIds max_attempts t db unique) e in
                  (fact.1, fact.2))
                j))
    ]
