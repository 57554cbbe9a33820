-- ===== src/Ledger/History.antt =====
-- What any sequence of transactions of src/kdiff/core/durable.py does to one task.
use mathlib.Core.Path.{subst}
use knowledge_diffusion.Base.{
  >>=-eq-ok, Bool-cases, Key, List, Option, Option-cases, Result-cases, String, [], any, any-find?,
  arith, find?, find?-append_some, inl, inr, none, ok, refl, some, sym, ℕ, ◌*◌, ◌+◌, ◌>>◌, ◌∷◌, ◌≡◌,
}
use knowledge_diffusion.Ledger
use knowledge_diffusion.Ledger.{Db, Task, Lease, has_id}
use knowledge_diffusion.Ledger.Steps
use knowledge_diffusion.Ledger.Steps.{Op, step, run, guard-keeps, raise_if-keeps}
use knowledge_diffusion.Ledger.Table.{UniqueIds, update_where-UniqueIds, append-UniqueIds}
use knowledge_diffusion.Ledger.Checkpoints.{checkpoint}
use knowledge_diffusion.Ledger.Evolution.{
  Later, Later-refl, Evolves, Evolves-refl, Evolves-trans, set_task-Evolves, claim-Evolves,
  swept-UniqueIds,
}

module _ (lease : Lease) (t : ℕ) (db : Db) (j : Key) where
  -- A fenced transaction that sets columns of its row.
  guarded-Evolves :
      (f : Task → Task)
      → ((row : Task) → (f row).task_id ≡ row.task_id)
      → ((row : Task) → row.state ≡ Ledger.leased → Later row (f row))
      → Evolves (Ledger.lookup j db) (
          Ledger.lookup j (
            Steps.or_rollback db
              (Ledger.fenced lease t db >> ok (Ledger.set_task lease.task_id f db))))
  guarded-Evolves f keep later =
      guard-keeps (λ db'. Evolves (Ledger.lookup j db) (Ledger.lookup j db')) db
        (Evolves-refl (Ledger.lookup j db)) (Ledger.fenced lease t db) _
        (λ h. set_task-Evolves lease t f db h keep later j)

  heartbeat-Evolves :
      (ttl later : ℕ)
      → Evolves
          (Ledger.lookup j db)
          (Ledger.lookup j (Steps.or_rollback db (Ledger.heartbeat lease ttl t later db)))
  unfolding Ledger.heartbeat
  heartbeat-Evolves ttl later =
      raise_if-keeps (λ db'. Evolves (Ledger.lookup j db) (Ledger.lookup j db')) db
        (Evolves-refl (Ledger.lookup j db)) (Ledger.not (Ledger.in_range 1 3600 ttl))
        Ledger.invalid_limit
        (Ledger.fenced lease t db
          >> ok (Ledger.set_task lease.task_id (Ledger.renew (later + ttl * Ledger.second)) db))
        (guarded-Evolves (Ledger.renew (later + ttl * Ledger.second)) (λ row. refl)
          (λ row h. ground arith))

  -- `prepare` writes no task.
  prepare-tasks :
      (batch : Key) → (Steps.or_rollback db (Ledger.prepare lease batch t db)).tasks ≡ db.tasks
  unfolding Ledger.prepare
  prepare-tasks batch = ground arith

  committed-Evolves :
      (batch : Key) (intent : Ledger.Intent) (outcome : Option String)
      → Ledger.may_integrate lease batch t db ≡ ok intent
      → Evolves (Ledger.lookup j db) (
          Ledger.lookup j
            (Ledger.after_callback (Steps.returning outcome) lease.task_id db (outcome, tt)).1)
  unfolding Ledger.lookup
  committed-Evolves batch intent none h = Evolves-refl (Ledger.lookup j db)
  committed-Evolves batch intent (some encoded) h =
      set_task-Evolves lease t (Ledger.finish encoded) db
        (>>=-eq-ok (Ledger.fenced lease t db) _ h).1 (λ row. refl) (λ row h. ground arith) j

  integrate-Evolves :
      (batch : Key) (outcome : Option String)
      → Evolves
          (Ledger.lookup j db)
          (Ledger.lookup j (Ledger.integrate (Steps.returning outcome) lease batch t db tt).1)
  unfolding Ledger.integrate
  integrate-Evolves batch outcome = elim (Result-cases (Ledger.may_integrate lease batch t db)) [
    | inl (intent, h) ↦ rw h (committed-Evolves batch intent outcome h)
    | inr (e, h) ↦ rw h (Evolves-refl (Ledger.lookup j db))
  ]

enqueue-Evolves :
    (digest : String → Key) (payload : String) (t : ℕ) (db : Db) (j : Key)
    → Evolves (Ledger.lookup j db) (Ledger.lookup j (Ledger.enqueue digest payload t db).1)
unfolding Ledger.enqueue Ledger.lookup
enqueue-Evolves digest payload t db j = elim (Bool-cases (any (has_id (digest payload)) db.tasks)) [
  | inl old ↦ rw old (Evolves-refl (Ledger.lookup j db))
  | inr new ↦ rw new (elim (Option-cases (find? (has_id j) db.tasks)) [
    | inl absent ↦ rw absent tt
    | inr (row, found) ↦
        rw
          (
            found,
            find?-append_some (has_id j) db.tasks (Ledger.new_task (digest payload) payload t ∷ [])
                row found,
          )
          (Later-refl row)
  ])
]

-- Each transaction takes every row to a later state, or leaves it.
pub step-Evolves :
    (digest : String → Key) (db : Db) (op : Op)
    → UniqueIds db.tasks
    → (j : Key) → Evolves (Ledger.lookup j db) (Ledger.lookup j (step digest db op))
unfolding step Ledger.complete Ledger.release Ledger.lookup checkpoint
step-Evolves digest db (Op.claim owner ttl max_attempts wanted t token) unique j =
    claim-Evolves owner ttl max_attempts wanted t token db unique j
step-Evolves digest db (Op.enqueue payload t) unique j = enqueue-Evolves digest payload t db j
step-Evolves digest db (Op.heartbeat lease ttl t later) unique j =
    heartbeat-Evolves lease t db j ttl later
step-Evolves digest db (Op.prepare lease batch t) unique j =
    subst (λ tasks. Evolves (Ledger.lookup j db) (find? (has_id j) tasks))
      (sym (prepare-tasks lease t db j batch)) (Evolves-refl (Ledger.lookup j db))
step-Evolves digest db (Op.integrate lease batch t outcome) unique j =
    integrate-Evolves lease t db j batch outcome
step-Evolves digest db (Op.complete lease result t) unique j =
    guarded-Evolves lease t db j _ (λ row. refl) (λ row h. ground arith)
step-Evolves digest db (Op.release lease error t) unique j =
    guarded-Evolves lease t db j _ (λ row. refl) (λ row h. ground arith)
step-Evolves digest db (Op.checkpoint_at name value expected) unique j =
    ground (arith, Evolves-refl (Ledger.lookup j db))

-- Setting columns keeps the primary key.
set_task-UniqueIds :
    (id : Key) (f : Task → Task) (db : Db)
    → ((row : Task) → (f row).task_id ≡ row.task_id)
    → UniqueIds db.tasks
    → UniqueIds (Ledger.set_task id f db).tasks
set_task-UniqueIds id f db keep h = update_where-UniqueIds (has_id id) f db.tasks keep h

guarded-UniqueIds :
    (lease : Lease) (t : ℕ) (db : Db) (f : Task → Task)
    → ((row : Task) → (f row).task_id ≡ row.task_id)
    → UniqueIds db.tasks
    → UniqueIds
        (Steps.or_rollback db
          (Ledger.fenced lease t db >> ok (Ledger.set_task lease.task_id f db))).tasks
guarded-UniqueIds lease t db f keep h =
    guard-keeps (λ d. UniqueIds d.tasks) db h (Ledger.fenced lease t db)
      (ok (Ledger.set_task lease.task_id f db)) (λ _. set_task-UniqueIds lease.task_id f db keep h)

grant-UniqueIds :
    (owner token : Key) (expires : ℕ) (db : Db) (picked : Option Task)
    → UniqueIds db.tasks
    → UniqueIds (Ledger.grant owner token expires db picked).1.tasks
grant-UniqueIds owner token expires db none h = h
grant-UniqueIds owner token expires db (some row) h =
    update_where-UniqueIds _ _ db.tasks (λ x. refl) h

pub claim-UniqueIds :
    (owner : Key) (ttl max_attempts : ℕ) (wanted : Option Key) (t : ℕ) (token : Key) (db : Db)
    → UniqueIds db.tasks
    → UniqueIds (Steps.with_result db (Ledger.claim owner ttl max_attempts wanted t token db)).tasks
unfolding Ledger.claim
claim-UniqueIds owner ttl max_attempts wanted t token db h =
    elim (Bool-cases (Ledger.valid_limits ttl max_attempts)) [
      | inr wrong ↦ rw wrong h
      | inl fine ↦ rw fine (
          grant-UniqueIds owner token _ (Ledger.swept max_attempts t db) _
            (swept-UniqueIds max_attempts t db h))
    ]

after_callback-UniqueIds :
    (id : Key) (db : Db) (outcome : Option String)
    → UniqueIds db.tasks
    → UniqueIds (Ledger.after_callback (Steps.returning outcome) id db (outcome, tt)).1.tasks
after_callback-UniqueIds id db none h = h
after_callback-UniqueIds id db (some encoded) h =
    update_where-UniqueIds _ _ db.tasks (λ row. refl) h

integrate-UniqueIds :
    (lease : Lease) (batch : Key) (t : ℕ) (outcome : Option String) (db : Db)
    → UniqueIds db.tasks
    → UniqueIds (Ledger.integrate (Steps.returning outcome) lease batch t db tt).1.tasks
unfolding Ledger.integrate
integrate-UniqueIds lease batch t outcome db h =
    elim (Result-cases (Ledger.may_integrate lease batch t db)) [
      | inl (intent, e) ↦ rw e (after_callback-UniqueIds lease.task_id db outcome h)
      | inr (e, bad) ↦ rw bad h
    ]

enqueue-UniqueIds :
    (digest : String → Key) (payload : String) (t : ℕ) (db : Db)
    → UniqueIds db.tasks
    → UniqueIds (Ledger.enqueue digest payload t db).1.tasks
unfolding Ledger.enqueue
enqueue-UniqueIds digest payload t db h =
    elim (Bool-cases (any (has_id (digest payload)) db.tasks)) [
      | inl old ↦ rw old h
      | inr new ↦ rw new (
          append-UniqueIds _ db.tasks (ground (arith, any-find? (has_id (digest payload)) db.tasks))
            h)
    ]

-- Each transaction keeps the primary key.
step-UniqueIds :
    (digest : String → Key) (db : Db) (op : Op)
    → UniqueIds db.tasks
    → UniqueIds (step digest db op).tasks
unfolding step Ledger.complete Ledger.release Ledger.heartbeat checkpoint
step-UniqueIds digest db (Op.enqueue payload t) h = enqueue-UniqueIds digest payload t db h
step-UniqueIds digest db (Op.claim owner ttl max_attempts wanted t token) h =
    claim-UniqueIds owner ttl max_attempts wanted t token db h
step-UniqueIds digest db (Op.heartbeat lease ttl t later) h =
    raise_if-keeps (λ d. UniqueIds d.tasks) db h (Ledger.not (Ledger.in_range 1 3600 ttl))
      Ledger.invalid_limit
      (Ledger.fenced lease t db
        >> ok (Ledger.set_task lease.task_id (Ledger.renew (later + ttl * Ledger.second)) db))
      (guarded-UniqueIds lease t db (Ledger.renew (later + ttl * Ledger.second)) (λ row. refl) h)
step-UniqueIds digest db (Op.prepare lease batch t) h =
    subst UniqueIds (sym (prepare-tasks lease t db 0 batch)) h
step-UniqueIds digest db (Op.integrate lease batch t outcome) h =
    integrate-UniqueIds lease batch t outcome db h
step-UniqueIds digest db (Op.complete lease result t) h =
    guarded-UniqueIds lease t db (Ledger.finish result) (λ row. refl) h
step-UniqueIds digest db (Op.release lease error t) h =
    guarded-UniqueIds lease t db (Ledger.give_back error) (λ row. refl) h
step-UniqueIds digest db (Op.checkpoint_at name value expected) h = ground arith

pub run-Evolves :
    (digest : String → Key) (db : Db) (ops : List Op)
    → UniqueIds db.tasks
    → (j : Key) → Evolves (Ledger.lookup j db) (Ledger.lookup j (run digest db ops))
unfolding run
run-Evolves digest db [] h j = Evolves-refl (Ledger.lookup j db)
run-Evolves digest db (op ∷ ops) h j =
    Evolves-trans (Ledger.lookup j db) (Ledger.lookup j (step digest db op))
      (Ledger.lookup j (run digest (step digest db op) ops)) (step-Evolves digest db op h j)
      (run-Evolves digest (step digest db op) ops (step-UniqueIds digest db op h) j)
