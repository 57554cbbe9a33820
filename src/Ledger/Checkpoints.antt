-- ===== src/Ledger/Checkpoints.antt =====
-- `checkpoint` and `read_checkpoint` of src/kdiff/core/durable.py: named values whose update is a
-- compare-and-set on the revision.
use knowledge_diffusion.Base.{
  Bool, Bool-cases, Key, List, Option, Result, String, [], any, ap, arith, err, false, find?,
  find?-append_apart, find?-update_where_apart, if◌then◌else◌, inl, inr, none, not, ok, raise_if,
  refl, some, update_where, ℕ, ◌++◌, ◌+◌, ◌==◌, ◌>>◌, ◌∷◌, ◌≡◌, ◌≢◌,
}
use knowledge_diffusion.Ledger.{Db, Checkpoint, LedgerError, concurrent_update}

abbrev pub is_named : Key → Checkpoint → Bool
is_named name row = row.name == name

abbrev pub revision_of : Option Checkpoint → ℕ
revision_of none = 0
revision_of (some row) = row.revision

-- `expected_revision is not None and revision != expected_revision`
abbrev pub differs : Option ℕ → ℕ → Bool
differs none revision = false
differs (some expected) revision = not (revision == expected)

-- `INSERT … ON CONFLICT(name) DO UPDATE SET value=…,revision=…`
abbrev pub upsert : Key → String → ℕ → List Checkpoint → List Checkpoint
upsert name value revision rows =
    if any (is_named name) rows
    then update_where (is_named name) (λ row. record row { value = value; revision = revision })
        rows
    else rows ++ record { name = name; value = value; revision = revision } ∷ []

unfoldable pub checkpoint : Key → String → Option ℕ → Db → Result LedgerError (ℕ × Db)
checkpoint name value expected db = do
  let revision = revision_of (find? (is_named name) db.checkpoints)
  raise_if (differs expected revision) concurrent_update
  ok (revision + 1, record db { checkpoints = upsert name value (revision + 1) db.checkpoints })

abbrev pub value_of : Option Checkpoint → Option String × ℕ
value_of none = (none, 0)
value_of (some row) = (some row.value, row.revision)

unfoldable pub read_checkpoint : Key → Db → Option String × ℕ
read_checkpoint name db = value_of (find? (is_named name) db.checkpoints)

find?-upsert_self :
    (name : Key) (value : String) (revision : ℕ) (rows : List Checkpoint)
    → value_of (find? (is_named name) (upsert name value revision rows)) ≡ (some value, revision)
find?-upsert_self name value revision [] = ground arith
find?-upsert_self name value revision (row ∷ rows) =
    ground (arith, find?-upsert_self name value revision rows)

find?-upsert_ne :
    (name other : Key) (value : String) (revision : ℕ) (rows : List Checkpoint)
    → other ≢ name
    → find? (is_named other) (upsert name value revision rows) ≡ find? (is_named other) rows
find?-upsert_ne name other value revision rows h = elim (Bool-cases (any (is_named name) rows)) [
  | inl old ↦
      rw old
        (find?-update_where_apart (is_named other) (is_named name) _ rows (λ row e. ground arith))
  | inr new ↦ rw new (find?-append_apart (is_named other) _ rows (ground arith))
]

-- A successful update leaves every other name.
pub checkpoint-apart :
    (name other : Key) (value : String) (expected : Option ℕ) (db db' : Db) (r : ℕ)
    → other ≢ name
    → checkpoint name value expected db ≡ ok (r, db')
    → read_checkpoint other db' ≡ read_checkpoint other db
unfolding checkpoint read_checkpoint
checkpoint-apart name other value expected db db' r ne h =
    let revision = revision_of (find? (is_named name) db.checkpoints) in
    ground (arith, find?-upsert_ne name other value (revision + 1) db.checkpoints ne)

-- What a successful update has written.
pub checkpoint-value_of :
    (name : Key) (value : String) (expected : Option ℕ) (db db' : Db) (r : ℕ)
    → checkpoint name value expected db ≡ ok (r, db')
    → (read_checkpoint name db').0 ≡ some value
unfolding checkpoint read_checkpoint
checkpoint-value_of name value expected db db' r h =
    let revision = revision_of (find? (is_named name) db.checkpoints) in
    ground (arith, find?-upsert_self name value (revision + 1) db.checkpoints)

-- A checkpoint that names the revision that was read succeeds, is read back under the next
-- revision, and leaves every other name and both other tables as they are; one that names
-- another revision is refused.
pub checkpoint-read_checkpoint :
    (name other : Key) (value : String) (expected : ℕ) (db : Db)
    → other ≢ name
    → expected ≢ (read_checkpoint name db).1
    → let revision = (read_checkpoint name db).1 in
      (checkpoint name value (some expected) db ≡ err concurrent_update)
      × ((db' : Db) × (checkpoint name value (some revision) db ≡ ok (revision + 1, db'))
          × (read_checkpoint name db' ≡ (some value, revision + 1))
          × (read_checkpoint other db' ≡ read_checkpoint other db)
          × (db'.tasks ≡ db.tasks)
          × (db'.intents ≡ db.intents))
unfolding checkpoint read_checkpoint
checkpoint-read_checkpoint name other value expected db h ne = (
  ground arith,
  (
    record db { checkpoints = upsert name value ((read_checkpoint name db).1 + 1) db.checkpoints },
    ground arith,
    find?-upsert_self name value _ db.checkpoints,
    ap value_of (find?-upsert_ne name other value _ db.checkpoints h),
    refl,
    refl,
  ),
)

-- Of two updates that name the same revision the second is refused, whatever the first wrote.
pub checkpoint-checkpoint :
    (name : Key) (first second : String) (expected : ℕ) (db db' : Db) (r : ℕ)
    → checkpoint name first (some expected) db ≡ ok (r, db')
    → checkpoint name second (some expected) db' ≡ err concurrent_update
unfolding checkpoint
checkpoint-checkpoint name first second expected db db' r h =
    ground (arith, find?-upsert_self name first (expected + 1) db.checkpoints)
