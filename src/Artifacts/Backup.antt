-- ===== src/Artifacts/Backup.antt =====
-- `export` and `restore_files_empty` of `PostgresArtifacts` in src/kdiff/core/durable.py: the table
-- of artifacts, copied to a directory of files and back.
-- `link_size` is what the system says of the size of a link's target. Writing a capture is one step.
pub mod Sorting
pub mod Listing
mod Order
pub mod Copying
pub mod Restoring
mod Examples
use knowledge_diffusion.Base.{
  Bool, Key, List, Option, Result, [], any, err, false, if◌then◌else◌, length, ltb, not, ok,
  or_raise, put_row, raise_if, row_at, sort_by, true, ℕ, ◌++◌, ◌+◌, ◌==◌, ◌>>=◌, ◌>>◌, ◌||◌, ◌∷◌,
}
use knowledge_diffusion.Artifacts
use knowledge_diffusion.Artifacts.{File, Files, ArtifactError}
use knowledge_diffusion.Artifacts.Database.{Row, Capture}

pub data BackupError : Type 0 where
  over_budget grew_beyond integrity_failure not_empty no_metadata metadata_mismatch : BackupError
  duplicate_row : BackupError
  in_store : ArtifactError → BackupError

abbrev pub total_by : {A : Type 0} → (A → ℕ) → List A → ℕ
total_by f [] = 0
total_by f (x ∷ xs) = f x + total_by f xs

abbrev pub is_empty : {A : Type 0} → List A → Bool
is_empty [] = true
is_empty (x ∷ xs) = false

module _ {Data Json : Type 0} (size : Data → ℕ) (hash : Data → Key) (parse : Data → Option Json)
    (link_size : Key → ℕ) where
  -- The artifacts, and the files `capture-<sha>.json`.
  pub record Directory : Type 0 where
    pub files : Files size hash
    pub captures : List (Key × Capture)

  abbrev pub empty_directory : Directory
  empty_directory = record { files = []; captures = [] }

  abbrev pub capture_of : Row Data Json → Capture
  capture_of row = record {
    sha256 = row.sha;
    bytes = size row.bytes;
    retrieved_at = row.captured_at;
  }

  abbrev pub stored :
      Row Data Json
      → Directory
      → Result ArtifactError (Key × Files size hash)
      → Result BackupError (Unit {0}) × Directory
  stored row dir (err e) = (err (in_store e), dir)
  stored row dir (ok (sha, files)) =
      if sha == row.sha
      then (
        ok tt,
        record {
          files = files;
          captures = put_row (λ c. c.0) (row.sha, capture_of row) dir.captures;
        },
      )
      else (err integrity_failure, record dir { files = files })

  abbrev pub export_row : Row Data Json → Directory → Result BackupError (Unit {0}) × Directory
  export_row row dir = stored row dir (Artifacts.put_bytes size hash row.bytes dir.files)

  abbrev pub and_then :
      (Directory → Result BackupError (Unit {0}) × Directory)
      → Result BackupError (Unit {0}) × Directory
      → Result BackupError (Unit {0}) × Directory
  and_then rest (err e, dir) = (err e, dir)
  and_then rest (ok _, dir) = rest dir

  -- The loop over the cursor: `index` and `total` are those before the row. What is written before
  -- an error stays.
  unfoldable pub export_rows :
      ℕ → ℕ → ℕ → ℕ → List (Row Data Json) → Directory → Result BackupError (Unit {0}) × Directory
  export_rows max_bytes max_records index total [] dir = (ok tt, dir)
  export_rows max_bytes max_records index total (row ∷ rows) dir =
      let index' = index + 1 in
      let total' = total + size row.bytes in
      let rest = export_rows max_bytes max_records index' total' rows in
      if ltb max_records index' || ltb max_bytes total'
      then (err grew_beyond, dir)
      else and_then rest (export_row row dir)

  -- The table as it is counted, and as the cursor reads it later.
  unfoldable pub export :
      ℕ
      → ℕ
      → List (Row Data Json)
      → List (Row Data Json)
      → Directory
      → Result BackupError (Unit {0}) × Directory
  export max_bytes max_records counted table dir =
      if ltb max_records (length counted)
        || ltb max_bytes (total_by (λ (r : Row Data Json). size r.bytes) counted)
      then (err over_budget, dir)
      else export_rows max_bytes max_records 0 0 (sort_by (λ r. r.sha) table) dir

  abbrev pub file_size : Key × File Data → ℕ
  file_size (name, Artifacts.symlink) = link_size name
  file_size (name, Artifacts.regular bytes) = size bytes

  abbrev pub or_in_store : {A : Type 0} → Result ArtifactError A → Result BackupError A
  or_in_store (ok a) = ok a
  or_in_store (err e) = err (in_store e)

  abbrev pub restored_row : Key → Data → Capture → Row Data Json
  restored_row name bytes c = record {
    sha = name;
    bytes = bytes;
    payload = parse bytes;
    captured_at = c.retrieved_at;
  }

  -- The `INSERT`, whose key must be new.
  abbrev pub insert_row :
      Row Data Json → List (Row Data Json) → Result BackupError (List (Row Data Json))
  insert_row row table = do
    raise_if (any (λ r. r.sha == row.sha) table) duplicate_row
    ok (table ++ row ∷ [])

  unfoldable pub restore_row :
      Directory → Key → List (Row Data Json) → Result BackupError (List (Row Data Json))
  restore_row dir name table = do
    bytes ← or_in_store (Artifacts.get_bytes size hash name dir.files)
    c ← or_raise (row_at (λ c. c.0) dir.captures name) no_metadata
    raise_if (not (c.1.sha256 == name) || not (c.1.bytes == size bytes)) metadata_mismatch
    insert_row (restored_row name bytes c.1) table

  unfoldable pub restore_rows :
      Directory → Files size hash → List (Row Data Json) → Result BackupError (List (Row Data Json))
  restore_rows dir [] table = ok table
  restore_rows dir ((name, file) ∷ files) table = do
    more ← restore_row dir name table
    restore_rows dir files more

  -- The transaction under a lock of the table: an error leaves the table as it was. `glob` lists the
  -- files in the order of the file system.
  unfoldable pub restore_files_empty :
      (Files size hash → Files size hash)
      → ℕ
      → ℕ
      → Directory
      → List (Row Data Json)
      → Result BackupError (List (Row Data Json))
  restore_files_empty glob max_bytes max_records dir table = do
    let files = glob dir.files
    raise_if (ltb max_records (length files) || ltb max_bytes (total_by file_size files))
        over_budget
    raise_if (not (is_empty table)) not_empty
    restore_rows dir files table
