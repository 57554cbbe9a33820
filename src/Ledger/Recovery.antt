-- ===== src/Ledger/Recovery.antt =====
-- A crash between the graph commit and the ledger commit of `integrate` in
-- src/kdiff/core/durable.py, and the owner that takes over.
use knowledge_diffusion.Base.{
  Key, Option, String, [], ap, arith, err, find?, ok, refl, some, sym, true, ℕ, ◌*◌, ◌+◌, ◌==◌, ◌∙◌,
  ◌≡◌, ◌≤◌,
}
use knowledge_diffusion.Ledger
use knowledge_diffusion.Ledger.{Db, Task, Lease, intent_of}
use knowledge_diffusion.Ledger.Table.{UniqueIds}
use knowledge_diffusion.Ledger.Evolution.{lookup-set_task, fenced-Fenced}
use knowledge_diffusion.Ledger.Granting.{claim-Granted}
use knowledge_diffusion.Ledger.Exclusion.{claim-fenced}

-- A claim leaves the intents.
claim-intents :
    (owner : Key) (ttl max_attempts : ℕ) (wanted : Option Key) (t : ℕ) (token : Key) (db db' : Db)
    (lease : Lease)
    → Ledger.claim owner ttl max_attempts wanted t token db ≡ ok (some lease, db')
    → db'.intents ≡ db.intents
claim-intents owner ttl max_attempts wanted t token db db' lease h =
    let (row, g) = claim-Granted owner ttl max_attempts wanted t token db lease db' h in
    ap (λ d. d.intents) g.tables

module _ {W : Type 0} (callback : W → Option String × W) where
  -- A call whose guard accepts and whose callback returns.
  integrate-eq-ok :
      (lease : Lease) (batch : Key) (intent : Ledger.Intent) (u : ℕ) (db : Db) (w w' : W)
      (encoded : String)
      → Ledger.fenced lease u db ≡ ok tt
      → find? (intent_of lease.task_id) db.intents ≡ some intent
      → intent.batch_id ≡ batch
      → callback w ≡ (some encoded, w')
      → Ledger.integrate callback lease batch u db w
        ≡ (ok encoded, Ledger.commit lease.task_id encoded db, w')
  unfolding Ledger.integrate
  integrate-eq-ok lease batch intent u db w w' encoded held there same ran =
      let named : (intent.batch_id == batch) ≡ true = ground (arith, same) in
      rw (held, there, named, ran) refl

  -- A process that holds a lease, and whose task's intent names the batch, runs the callback of
  -- `integrate` and dies before the tables are written. Where identifiers are unique and the
  -- callback, repeated on the graph that it has written, returns the same result and leaves that
  -- graph: the next owner of the task finishes it, at any time up to `ttl` seconds after its claim,
  -- with the result and the graph that the dead process would have had, and its own tables say that
  -- the task is done with that result. A late `integrate` of the dead process is refused, at any
  -- time, and touches neither the tables nor the graph.
  pub claim-integrate :
      (digest : String → Key) (owner : Key) (ttl max_attempts : ℕ) (wanted : Option Key) (t : ℕ)
      (token : Key) (db db' : Db) (dead lease : Lease) (batch : Key) (intent : Ledger.Intent)
      (s u v : ℕ) (w w' : W) (encoded : String)
      → UniqueIds db.tasks
      → Ledger.fenced dead s db ≡ ok tt
      → find? (intent_of dead.task_id) db.intents ≡ some intent
      → intent.batch_id ≡ batch
      → callback w ≡ (some encoded, w')
      → callback w' ≡ (some encoded, w')
      → Ledger.claim owner ttl max_attempts wanted t token db ≡ ok (some lease, db')
      → dead.task_id ≡ lease.task_id
      → u ≤ t + ttl * Ledger.second
      → ((undead : Db) × (Ledger.integrate callback dead batch s db w ≡ (ok encoded, undead, w')))
        × ((last : Db) × (row : Task) × (Ledger.integrate callback lease batch u db' w'
              ≡ (ok encoded, last, w'))
            × (Ledger.lookup lease.task_id db' ≡ some row)
            × (Ledger.lookup lease.task_id last ≡ some (Ledger.finish encoded row)))
        × (Ledger.integrate callback dead batch v db' w' ≡ (err Ledger.stale_lease, db', w'))
  unfolding Ledger.integrate Ledger.Steps.run Ledger.lookup
  claim-integrate digest owner ttl max_attempts wanted t token db db' dead lease batch intent s u v
        w w' encoded unique held bound same_batch first again claimed same inside =
      let (accepted, refused) =
        claim-fenced digest owner ttl max_attempts wanted t token db db' lease dead u s v [] unique
          claimed inside held same in
      let stale : Ledger.fenced dead v db' ≡ err Ledger.stale_lease = refused in
      let kept : find? (intent_of lease.task_id) db'.intents ≡ some intent =
        ap (find? (intent_of lease.task_id))
          (claim-intents owner ttl max_attempts wanted t token db db' lease claimed)
        ∙ ap (λ id. find? (intent_of id) db.intents) (sym same)
        ∙ bound in
      let (row, f) = fenced-Fenced lease u db' accepted in
      (
        (
          Ledger.commit dead.task_id encoded db,
          integrate-eq-ok dead batch intent s db w w' encoded held bound same_batch first,
        ),
        (
          Ledger.commit lease.task_id encoded db',
          row,
          integrate-eq-ok lease batch intent u db' w' w' encoded accepted kept same_batch again,
          f.found,
          lookup-set_task lease.task_id (Ledger.finish encoded) db' row (λ x. refl) f.found,
        ),
        rw stale refl,
      )
