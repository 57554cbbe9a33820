-- ===== src/Ledger/Roundtrip.antt =====
-- `restore_empty` after `export`, in src/kdiff/core/durable.py.
use knowledge_diffusion.Base.{
  All, Bool, Key, List, String, [], any, ap, arith, false, ltb, map, ok, refl, sym, true, ℕ, ◌++◌,
  ◌==◌, ◌||◌, ◌∙◌, ◌∷◌, ◌≡◌, ◌≤◌,
}
use knowledge_diffusion.Ledger
use knowledge_diffusion.Ledger.{Db, Task, Intent, Checkpoint, LedgerError}
use knowledge_diffusion.Ledger.Backup
use knowledge_diffusion.Ledger.Backup.{Dump, export, restore_empty, insert_rows, restored_task}

any-append {ℓ} :
    {A : Type ℓ} (p : A → Bool) (xs ys : List A) → any p (xs ++ ys) ≡ any p xs || any p ys
any-append p [] ys = refl
any-append p (x ∷ xs) ys = ground (arith, any-append p xs ys)

append_cons {ℓ} : {A : Type ℓ} (xs ys : List A) (x : A) → (xs ++ x ∷ []) ++ ys ≡ xs ++ x ∷ ys
append_cons [] ys x = refl
append_cons (y ∷ xs) ys x = ap (λ zs. y ∷ zs) (append_cons xs ys x)

==-refl : (n : ℕ) → (n == n) ≡ true
==-refl n = ground arith

append_nil {ℓ} : {A : Type ℓ} (xs : List A) → xs ++ [] ≡ xs
append_nil [] = refl
append_nil (x ∷ xs) = ap (λ zs. x ∷ zs) (append_nil xs)

map_id : {A : Type 0} (xs : List A) → map (λ (x : A). x) xs ≡ xs
map_id [] = refl
map_id (x ∷ xs) = ap (λ zs. x ∷ zs) (map_id xs)

All-true : {A : Type 0} (xs : List A) → All (λ (x : A). ◌≡◌ {A = Bool} true true) xs
All-true [] = tt
All-true (x ∷ xs) = (refl, All-true xs)

module _ {A : Type 0} (key : A → Key) where
  -- Some row of a table has the key.
  abbrev pub taken : Key → List A → Bool
  taken k xs = any (λ x. key x == k) xs

  -- A primary key.
  abbrev pub Distinct : List A → Type 0
  Distinct [] = Unit
  Distinct (x ∷ xs) = (taken (key x) xs ≡ false) × Distinct xs

  abbrev Fresh : List A → List A → Type 0
  Fresh table rows = All (λ r. taken (key r) table ≡ false) rows

  Fresh-append :
      (table rows : List A) (x : A)
      → Fresh table rows
      → taken (key x) rows ≡ false
      → Fresh (table ++ x ∷ []) rows
  Fresh-append table [] x f n = tt
  Fresh-append table (r ∷ rows) x f n = (
    ground (arith, any-append (λ y. key y == key r) table (x ∷ [])),
    Fresh-append table rows x f.1 (ground arith),
  )

  Fresh-nil : (rows : List A) → Fresh [] rows
  Fresh-nil [] = tt
  Fresh-nil (r ∷ rows) = (refl, Fresh-nil rows)

  module _
      (digest_tables : List (Bool × Task) → List (Bool × Intent) → List (Bool × Checkpoint) → Key)
      (sound : A → Bool) (change : A → A) (keep : (x : A) → key (change x) ≡ key x) where
    -- Rows with distinct keys, none of them in the table, are all inserted.
    pub insert_rows-Distinct :
        (rows table : List A)
        → All (λ r. sound r ≡ true) rows
        → Distinct rows
        → Fresh table rows
        → insert_rows digest_tables key sound change (map Backup.with_columns rows) table
          ≡ ok (table ++ map change rows)
    insert_rows-Distinct [] table s d f = ap ok (sym (append_nil table))
    insert_rows-Distinct (x ∷ rows) table s d f =
        rw (s.0, f.0)
          (insert_rows-Distinct rows (table ++ change x ∷ []) s.1 d.1
              (Fresh-append table rows (change x) f.1 (rw (keep x) d.0))
            ∙ ap ok (append_cons table (map change rows) (change x)))

module _
    (digest_tables : List (Bool × Task)
      → List (Bool × Intent)
      → List (Bool × Checkpoint)
      → Key) where
  export-dump_of :
      (max_records size : ℕ) (db : Db) (dump : Dump)
      → export digest_tables max_records size db ≡ ok dump
      → dump ≡ Backup.dump_of digest_tables size db
  unfolding export
  export-dump_of max_records size db dump h = ground arith

  restored_task_keeps : (x : Task) → (restored_task x).task_id ≡ x.task_id
  restored_task_keeps x = ground arith

  restore_kept :
      {A : Type 0} (key : A → Key) (rows : List A)
      → Distinct key rows
      → insert_rows digest_tables key (λ _. true) (λ x. x) (map Backup.with_columns rows) []
        ≡ ok rows
  restore_kept key rows d =
      insert_rows-Distinct key digest_tables (λ _. true) (λ x. x) (λ x. refl) rows []
        (All-true rows) d (Fresh-nil key rows)
      ∙ ap ok (map_id rows)

  restore_dump_of :
      (digest : String → Key) (size : ℕ) (db : Db)
      → size ≤ Backup.file_cap
      → All (λ (x : Task). (digest x.payload == x.task_id) ≡ true) db.tasks
      → Distinct (λ x. x.task_id) db.tasks
      → Distinct (λ i. i.task_id) db.intents
      → Distinct (λ c. c.name) db.checkpoints
      → restore_empty digest_tables digest (Backup.dump_of digest_tables size db) Ledger.empty
        ≡ ok (record db { tasks = map restored_task db.tasks })
  unfolding restore_empty
  restore_dump_of digest size db small named tasks intents checkpoints =
      let fits : ltb Backup.file_cap size ≡ false = ground (arith, small) in
      rw (
        fits,
        ==-refl (
            digest_tables (map Backup.with_columns db.tasks) (map Backup.with_columns db.intents)
              (map Backup.with_columns db.checkpoints)),
        insert_rows-Distinct (λ (x : Task). x.task_id) digest_tables
            (λ x. digest x.payload == x.task_id) restored_task restored_task_keeps db.tasks [] named
            tasks (Fresh-nil (λ (x : Task). x.task_id) db.tasks),
        restore_kept (λ (i : Intent). i.task_id) db.intents intents,
        restore_kept (λ (c : Checkpoint). c.name) db.checkpoints checkpoints,
      )

  -- What `export` writes of tables with distinct keys, whose tasks are named by the hash of their
  -- payloads, `restore_empty` reads into empty tables, if the file is not too large: every row is
  -- back, in its place and as it was, but that a leased task is pending, without owner, token and
  -- expiry.
  pub export-restore_empty :
      (digest : String → Key) (max_records size : ℕ) (db : Db) (dump : Dump)
      → size ≤ Backup.file_cap
      → All (λ (x : Task). (digest x.payload == x.task_id) ≡ true) db.tasks
      → Distinct (λ x. x.task_id) db.tasks
      → Distinct (λ i. i.task_id) db.intents
      → Distinct (λ c. c.name) db.checkpoints
      → export digest_tables max_records size db ≡ ok dump
      → restore_empty digest_tables digest dump Ledger.empty
        ≡ ok (record db { tasks = map restored_task db.tasks })
  export-restore_empty digest max_records size db dump small named tasks intents checkpoints h =
      ap (λ d. restore_empty digest_tables digest d Ledger.empty)
        (export-dump_of max_records size db dump h)
      ∙ restore_dump_of digest size db small named tasks intents checkpoints
