-- ===== src/Artifacts/Backup/Examples.antt =====
-- The round trip of the table of artifacts at two rows, whose bytes are numbers and whose hash is
-- the last digit, and runs of its copies.
use knowledge_diffusion.Base.{Key, List, Option, [], arith, err, none, ok, refl, ℕ, ◌%◌, ◌∷◌, ◌≡◌}
use knowledge_diffusion.Artifacts
use knowledge_diffusion.Artifacts.{Files}
use knowledge_diffusion.Artifacts.Database.{Row}
use knowledge_diffusion.Artifacts.Backup
use knowledge_diffusion.Artifacts.Backup.{Directory, export, restore_files_empty, empty_directory}
use knowledge_diffusion.Artifacts.Backup.Order
use knowledge_diffusion.Artifacts.Backup.Order.{Reordered, Reordered-refl}
use knowledge_diffusion.Artifacts.Backup.Restoring.{export-restore_files_empty}

abbrev size : ℕ → ℕ
size _ = 1

abbrev hash : ℕ → Key
hash n = n % 10

abbrev no_json : ℕ → Option ℕ
no_json _ = none

abbrev link_size : Key → ℕ
link_size _ = 0

abbrev row : ℕ → Row ℕ ℕ
row n = record { sha = n % 10; bytes = n; payload = none; captured_at = "t" }

abbrev table : List (Row ℕ ℕ)
table = row 15 ∷ row 12 ∷ []

-- A file system that lists two files the last first.
abbrev backwards : Files size hash → Files size hash
backwards (a ∷ b ∷ []) = b ∷ a ∷ []
backwards files = files

backwards-Reordered : (files : Files size hash) → Reordered (backwards files) files
backwards-Reordered [] = Reordered-refl []
backwards-Reordered (a ∷ []) = Reordered-refl (a ∷ [])
backwards-Reordered (a ∷ b ∷ []) = Order.swap b a []
backwards-Reordered (a ∷ b ∷ c ∷ files) = Reordered-refl (a ∷ b ∷ c ∷ files)

export-restore_files_empty_example :
    (dir : Directory size hash no_json link_size) × (back : List (Row ℕ ℕ)) × (export size hash
        no_json link_size 10 5 table table
        (empty_directory size hash no_json link_size)
      ≡ (ok tt, dir))
    × (restore_files_empty size hash no_json link_size backwards 10 5 dir [] ≡ ok back)
    × Reordered back table
export-restore_files_empty_example =
    export-restore_files_empty size hash no_json link_size backwards 10 5 table backwards-Reordered
      (
        record { named = refl; bounded = omega arith; parsed = refl },
        (record { named = refl; bounded = omega arith; parsed = refl }, tt),
      )
      (refl, (refl, tt)) (omega arith) (omega arith)

-- A table that grows between the count and the cursor is noticed when it passes the budget.
export_grown :
    export size hash no_json link_size 10 1
      (row 15 ∷ [])
      table
      (empty_directory size hash no_json link_size)
    ≡ (
      err Backup.grew_beyond,
      record {
        files = (2, Artifacts.regular 12) ∷ [];
        captures = (2, record { sha256 = 2; bytes = 1; retrieved_at = "t" }) ∷ [];
      },
    )
unfolding export Backup.export_rows Artifacts.put_bytes
export_grown = refl
