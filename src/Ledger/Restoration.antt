-- ===== src/Ledger/Restoration.antt =====
-- What `restore_empty` of src/kdiff/core/durable.py brings back.
use knowledge_diffusion.Base.{
  >>=-eq-ok, All, All-append, Bool, Bool-cases, Key, List, Option-cases, String, [], ap, arith, err,
  false, find?, inl, inr, ltb, not, ok, ok-injective, raise_if, refl, some, true, ℕ, ◌++◌, ◌==◌,
  ◌||◌, ◌∙◌, ◌∷◌, ◌≡◌,
}
use mathlib.Core.Path.{subst}
use knowledge_diffusion.Ledger
use knowledge_diffusion.Ledger.{Db, Task, Intent, Checkpoint, Lease, LedgerError}
use knowledge_diffusion.Ledger.Backup
use knowledge_diffusion.Ledger.Backup.{
  Dump, export, restore_empty, insert_rows, restore_table, restored_task,
}

module _
    (digest_tables : List (Bool × Task)
      → List (Bool × Intent)
      → List (Bool × Checkpoint)
      → Key) where
  -- What every inserted row has, the table has.
  insert_rows-All :
      {A : Type 0} (P : A → Type 0) (key : A → Key) (sound : A → Bool) (change : A → A)
      (rows : List (Bool × A)) (table result : List A)
      → ((x : A) → P (change x))
      → All P table
      → insert_rows digest_tables key sound change rows table ≡ ok result
      → All P result
  insert_rows-All P key sound change [] table result h a e = subst (All P) (ok-injective e) a
  insert_rows-All P key sound change ((columns, row) ∷ rows) table result h a e =
      let next : insert_rows digest_tables key sound change rows (table ++ change row ∷ [])
          ≡ ok result =
        ground arith in
      insert_rows-All P key sound change rows (table ++ change row ∷ []) result h
        (All-append P table (change row ∷ []) a (h row, tt)) next

  restored_task_free : (x : Task) → Ledger.is_leased (restored_task x).state ≡ false
  restored_task_free x = ground arith

  restore_table-eq-ok :
      {A : Type 0} (key : A → Key) (sound : A → Bool) (change : A → A) (rows : List (Bool × A))
      (table result : List A)
      → restore_table digest_tables key sound change rows table ≡ ok result
      → (table ≡ []) × (insert_rows digest_tables key sound change rows [] ≡ ok result)
  restore_table-eq-ok key sound change rows [] result h = (refl, h)
  restore_table-eq-ok key sound change rows (x ∷ xs) result h = cc

  -- The restored tables, one by one.
  restore_empty-eq-ok :
      (digest : String → Key) (dump : Dump) (db db' : Db)
      → restore_empty digest_tables digest dump db ≡ ok db'
      → restore_table digest_tables
          (λ x. x.task_id)
          (λ x. digest x.payload == x.task_id)
          restored_task
          dump.tasks
          db.tasks
        ≡ ok db'.tasks
  unfolding restore_empty
  restore_empty-eq-ok digest dump db db' h =
      let (_, _, h1) =
        >>=-eq-ok (raise_if (ltb Backup.file_cap dump.file_size) Ledger.budget_exceeded) _ h in
      let (_, _, h2) =
        >>=-eq-ok
          (raise_if
            (not (digest_tables dump.tasks dump.intents dump.checkpoints == dump.sha256)
              || not dump.is_task_checkpoint)
            Ledger.integrity_failure)
          _ h1 in
      let (_, _, h3) = >>=-eq-ok (raise_if (not dump.has_tables) Ledger.unexpected_table) _ h2 in
      let (tasks, e, h4) =
        >>=-eq-ok
          (restore_table digest_tables (λ x. x.task_id) (λ x. digest x.payload == x.task_id)
            restored_task dump.tasks db.tasks)
          _ h3 in
      let (intents, _, h5) =
        >>=-eq-ok
          (restore_table digest_tables (λ i. i.task_id) (λ _. true) (λ i. i) dump.intents
            db.intents)
          _ h4 in
      let (checkpoints, _, h6) =
        >>=-eq-ok
          (restore_table digest_tables (λ c. c.name) (λ _. true) (λ c. c) dump.checkpoints
            db.checkpoints)
          _ h5 in
      e ∙ ap ok (ap (λ d. d.tasks) (ok-injective h6))

  All-find? :
      {A : Type 0} (P : A → Type 0) (q : A → Bool) (xs : List A) (x : A)
      → All P xs
      → find? q xs ≡ some x
      → P x
  All-find? P q [] x a e = cc
  All-find? P q (y ∷ ys) x a e = elim (Bool-cases (q y)) [
    | inl here ↦ let same : y ≡ x = ground (arith, here) in subst P same a.0
    | inr later ↦ All-find? P q ys x a.1 (ground (arith, later))
  ]

  fenced-no_lease :
      (lease : Lease) (t : ℕ) (db : Db)
      → All (λ (row : Task). Ledger.is_leased row.state ≡ false) db.tasks
      → Ledger.fenced lease t db ≡ err Ledger.stale_lease
  unfolding Ledger.fenced
  fenced-no_lease lease t db a =
      elim (Option-cases (find? (Ledger.has_id lease.task_id) db.tasks)) [
        | inl e ↦ rw e
        | inr (row, e) ↦
            let free =
              All-find? (λ (x : Task). Ledger.is_leased x.state ≡ false)
                (Ledger.has_id lease.task_id) db.tasks row a e in
            rw (e, free)
      ]

  -- After a restoration no lease is accepted, whatever was saved and whenever the lease was granted.
  pub restore_empty-fenced :
      (digest : String → Key) (dump : Dump) (db db' : Db) (lease : Lease) (t : ℕ)
      → restore_empty digest_tables digest dump db ≡ ok db'
      → Ledger.fenced lease t db' ≡ err Ledger.stale_lease
  restore_empty-fenced digest dump db db' lease t h =
      let (_, inserted) =
        restore_table-eq-ok (λ x. x.task_id) (λ x. digest x.payload == x.task_id) restored_task
          dump.tasks db.tasks db'.tasks (restore_empty-eq-ok digest dump db db' h) in
      fenced-no_lease lease t db' (
        insert_rows-All (λ (x : Task). Ledger.is_leased x.state ≡ false) (λ x. x.task_id)
          (λ x. digest x.payload == x.task_id) restored_task dump.tasks [] db'.tasks
          restored_task_free tt inserted)
