-- ===== src/Ledger/Integration.antt =====
-- `integrate`, `prepare` and `enqueue` of src/kdiff/core/durable.py.
use knowledge_diffusion.Base.{
  >>=-eq-ok, Key, Option, Option-cases, Result, Result-cases, String, [], any-find?, ap, arith, err,
  find?, find?-append_apart, find?-append_none, find?-holds, find?-update_where-some, inl, inr,
  none, ok, refl, some, ℕ, ◌++◌, ◌∙◌, ◌∷◌, ◌≡◌, ◌≢◌,
}
use knowledge_diffusion.Ledger
use knowledge_diffusion.Ledger.{Db, Task, Lease, LedgerError, callback_failed, has_id, intent_of}
use knowledge_diffusion.Ledger.Evolution.{fenced-Fenced, lookup-set_task}

-- What an accepted guard of `integrate` knows.
may_integrate-eq-ok :
    (lease : Lease) (batch : Key) (t : ℕ) (db : Db) (intent : Ledger.Intent)
    → Ledger.may_integrate lease batch t db ≡ ok intent
    → (Ledger.fenced lease t db ≡ ok tt)
      × (find? (intent_of lease.task_id) db.intents ≡ some intent)
      × (intent.batch_id ≡ batch)
may_integrate-eq-ok lease batch t db intent h =
    let (u, held, rest) = >>=-eq-ok (Ledger.fenced lease t db) _ h in
    elim (Option-cases (find? (intent_of lease.task_id) db.intents)) [
      | inl absent ↦ ground arith
      | inr (found, e) ↦ ground arith
    ]

-- After `prepare` the task's intent names the batch.
prepare-batch :
    (lease : Lease) (batch : Key) (t : ℕ) (db db' : Db)
    → Ledger.prepare lease batch t db ≡ ok db'
    → (intent : Ledger.Intent) × (find? (intent_of lease.task_id) db'.intents ≡ some intent)
      × (intent.batch_id ≡ batch)
unfolding Ledger.prepare
prepare-batch lease batch t db db' h =
    let intents = Ledger.add_intent lease.task_id batch db.intents in
    let (u, held, rest) = >>=-eq-ok (Ledger.fenced lease t db) _ h in
    elim (Option-cases (find? (intent_of lease.task_id) intents)) [
      | inl absent ↦ cc (rw absent at rest)
      | inr (found, e) ↦ let same = rw e at rest in (found, ground arith, ground arith)
    ]

module _ {W : Type 0} (callback : W → Option String × W) where
  -- What a call of `integrate` did to the tables and to the graph, by how it ended.
  abbrev pub Integrated : Lease → Key → ℕ → Db → W → Result LedgerError String × Db × W → Type 0
  Integrated lease batch t db w (ok encoded, db', w') =
      (callback w ≡ (some encoded, w'))
      × (Ledger.fenced lease t db ≡ ok tt)
      × ((intent : Ledger.Intent) × (find? (intent_of lease.task_id) db.intents ≡ some intent)
          × (intent.batch_id ≡ batch)
          × (find? (intent_of lease.task_id) db'.intents
              ≡ some (Ledger.commit_intent encoded intent)))
      × ((row : Task) × (Ledger.lookup lease.task_id db ≡ some row)
          × (Ledger.lookup lease.task_id db' ≡ some (Ledger.finish encoded row)))
  Integrated lease batch t db w (err callback_failed, db', w') =
      (db' ≡ db) × (callback w ≡ (none, w')) × (Ledger.fenced lease t db ≡ ok tt)
  Integrated lease batch t db w (err _, db', w') = (db' ≡ db) × (w' ≡ w)

  guard_error :
      (lease : Lease) (batch : Key) (t : ℕ) (db : Db)
      → Ledger.may_integrate lease batch t db ≢ err callback_failed
  unfolding Ledger.fenced
  guard_error lease batch t db h = ground arith

  refused :
      (lease : Lease) (batch : Key) (t : ℕ) (db : Db) (w : W) (e : LedgerError)
      → e ≢ callback_failed
      → Integrated lease batch t db w (err e, db, w)
  refused lease batch t db w callback_failed h = absurd (h refl)
  refused lease batch t db w _ h = (refl, refl)

  accepted :
      (lease : Lease) (batch : Key) (t : ℕ) (db : Db) (w : W) (intent : Ledger.Intent)
      (outcome : Option String × W)
      → Ledger.may_integrate lease batch t db ≡ ok intent
      → callback w ≡ outcome
      → Integrated lease batch t db w (Ledger.after_callback callback lease.task_id db outcome)
  unfolding Ledger.lookup
  accepted lease batch t db w intent (none, w') h e =
      (refl, e, (>>=-eq-ok (Ledger.fenced lease t db) _ h).1)
  accepted lease batch t db w intent (some encoded, w') h e =
      let (held, there, same) = may_integrate-eq-ok lease batch t db intent h in
      let (row, f) = fenced-Fenced lease t db held in
      (
        e,
        held,
        (
          intent,
          there,
          same,
          rw (
            find?-update_where-some (intent_of lease.task_id) (intent_of lease.task_id)
                (Ledger.commit_intent encoded) db.intents intent (λ x. refl) there,
            find?-holds (intent_of lease.task_id) db.intents intent there,
          ),
        ),
        (
          row,
          f.found,
          lookup-set_task lease.task_id (Ledger.finish encoded) db row (λ x. refl) f.found,
        ),
      )

  -- A call of `integrate` either succeeds: its lease was accepted and the task's intent named the
  -- batch, the callback ran once and returned the result, and in the new tables the task is done
  -- with that result and the intent is committed with it as receipt; or the callback ran and
  -- raised, and the tables are as before; or the guard refused, and neither the tables nor the
  -- graph were touched.
  pub integrate-Integrated :
      (lease : Lease) (batch : Key) (t : ℕ) (db : Db) (w : W)
      → Integrated lease batch t db w (Ledger.integrate callback lease batch t db w)
  unfolding Ledger.integrate
  integrate-Integrated lease batch t db w =
      elim (Result-cases (Ledger.may_integrate lease batch t db)) [
        | inl (intent, h) ↦ rw h (accepted lease batch t db w intent (callback w) h refl)
        | inr (e, h) ↦
            rw h (
              refused lease batch t db w e (λ same. guard_error lease batch t db (h ∙ ap err same)))
      ]

-- Once `prepare` has bound a task to a batch, it and `integrate` refuse any other batch for it, at
-- every time at which the lease is accepted, and `integrate` leaves tables and graph alone.
pub prepare_binds :
    {W : Type 0} (callback : W → Option String × W) (lease : Lease) (batch other : Key) (t u : ℕ)
    (db db' : Db) (w : W)
    → Ledger.prepare lease batch t db ≡ ok db'
    → other ≢ batch
    → Ledger.fenced lease u db' ≡ ok tt
    → (Ledger.prepare lease other u db' ≡ err Ledger.input_changed)
      × (Ledger.integrate callback lease other u db' w ≡ (err Ledger.no_intent, db', w))
unfolding Ledger.prepare Ledger.integrate
prepare_binds callback lease batch other t u db db' w h ne held =
    let (intent, there, same) = prepare-batch lease batch t db db' h in
    let old = any-find? (intent_of lease.task_id) db'.intents in
    (rw (held, old, there) (ground arith), rw (held, there) (ground arith))

-- A second `enqueue` of a payload, at any time, returns the same identifier and changes nothing;
-- the first one touches no other task.
pub enqueue-enqueue :
    (digest : String → Key) (payload : String) (t u : ℕ) (db : Db) (id : Key)
    → id ≢ digest payload
    → let (first, db') = Ledger.enqueue digest payload t db in
      (first ≡ digest payload)
      × (Ledger.enqueue digest payload u db' ≡ (first, db'))
      × (Ledger.lookup id db' ≡ Ledger.lookup id db)
unfolding Ledger.enqueue Ledger.lookup
enqueue-enqueue digest payload t u db id ne =
    let row = Ledger.new_task (digest payload) payload t in
    let here = any-find? (has_id (digest payload)) db.tasks in
    elim (Option-cases (find? (has_id (digest payload)) db.tasks)) [
      | inl new ↦
          let added : find? (has_id (digest payload)) (db.tasks ++ row ∷ []) ≡ some row =
            find?-append_none (has_id (digest payload)) db.tasks (row ∷ []) new ∙ ground arith in
          rw (here, new)
            (
              refl,
              rw (any-find? (has_id (digest payload)) (db.tasks ++ row ∷ []), added),
              find?-append_apart (has_id id) row db.tasks (ground arith),
            )
      | inr (old, found) ↦ rw (here, found) (refl, rw (here, found), refl)
    ]
