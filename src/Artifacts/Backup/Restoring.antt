-- ===== src/Artifacts/Backup/Restoring.antt =====
-- The round trip of `export` and `restore_files_empty` in src/kdiff/core/durable.py, in whatever order
-- the file system lists the files.
use knowledge_diffusion.Base.{
  All, Bool, Key, List, Option, Unique, Unique-sorted, [], all, ap, arith, false, find?, length,
  ltb, map, ok, refl, row_at, some, sort_by, sym, true, ℕ, ◌++◌, ◌==◌, ◌∙◌, ◌∷◌, ◌≡◌, ◌≤◌,
}
use mathlib.Core.Path.{subst}
use knowledge_diffusion.Artifacts.Backup.Order
use knowledge_diffusion.Artifacts.{File, Files, at_path, get_bytes}
use knowledge_diffusion.Artifacts.Database.{Row, Capture}
use knowledge_diffusion.Artifacts.Backup.{
  Directory, total_by, capture_of, export, empty_directory, restored_row, restore_row, restore_rows,
  restore_files_empty, file_size,
}
use knowledge_diffusion.Artifacts.Backup.Listing
use knowledge_diffusion.Artifacts.Backup.Listing.{append-cons, append-nil, map-append_one}
use knowledge_diffusion.Artifacts.Backup.Copying.{export_rows-copies}
use knowledge_diffusion.Artifacts.Backup.Order.{
  Reordered, Reordered-map, Reordered-sort_by, All-Reordered, length-Reordered, total-Reordered,
  Unique-Reordered,
}
use knowledge_diffusion.Artifacts.Backup.Sorting.{
  total-sort_by, length-sort_by, map-sort_by, All-sort_by,
}

module _ {Data Json : Type 0} (size : Data → ℕ) (hash : Data → Key) (parse : Data → Option Json)
    (link_size : Key → ℕ) where
  abbrev Rows : Type 0
  Rows = List (Row Data Json)

  abbrev Fits : Row Data Json → Type 0
  Fits = Listing.Fits size hash parse link_size

  abbrev entry_of : Row Data Json → Key × File Data
  entry_of = Listing.entry_of size hash parse link_size

  abbrev captured : Row Data Json → Key × Capture
  captured = Listing.captured size hash parse link_size

  abbrev directory_of : Rows → Directory size hash parse link_size
  directory_of = Listing.directory_of size hash parse link_size

  abbrev has_row : Key → Rows → Bool
  has_row = Listing.has_row size hash parse link_size

  -- A row whose files are in the directory.
  record Found (all : Rows) (r : Row Data Json) : Type 0 where
    entry : find? (at_path size hash r.sha) (map entry_of all) ≡ some (entry_of r)
    capture : row_at (λ c. c.0) (map captured all) r.sha ≡ some (captured r)

  all-Found :
      (before after : Rows)
      → Unique (map (λ r. r.sha) (before ++ after))
      → All (Found (before ++ after)) after
  all-Found before [] u = tt
  all-Found before (r ∷ after) u =
      let fresh = Listing.Unique-fresh size hash parse link_size r before after u in
      (
        record {
          entry = Listing.find?-entry size hash parse link_size r before after fresh;
          capture = Listing.row_at-captured size hash parse link_size r before after fresh;
        },
        subst (λ l. All (Found l) after) (append-cons before r after)
            (all-Found (before ++ r ∷ []) after
              (subst (λ l. Unique (map (λ r. r.sha) l)) (sym (append-cons before r after)) u)),
      )

  restore_row-copied :
      (all : Rows) (r : Row Data Json) (done : Rows)
      → Fits r
      → Found all r
      → has_row r.sha done ≡ false
      → restore_row size hash parse link_size (directory_of all) r.sha done ≡ ok (done ++ r ∷ [])
  unfolding restore_row get_bytes
  restore_row-copied all r done fits found fresh =
      let same : (r.sha == r.sha) ≡ true = ground arith in
      let equal : (size r.bytes == size r.bytes) ≡ true = ground arith in
      let again : restored_row size hash parse link_size r.sha r.bytes
            (capture_of size hash parse link_size r)
          ≡ r =
        ap (λ p. record r { payload = p }) (sym fits.parsed) in
      rw (found.entry, fits.named, same, found.capture, same, equal, fresh)
        (ap (λ x. ok (done ++ x ∷ [])) again)

  -- The loop over the files gives the rows that are left.
  restore_rows-copies :
      (all rows done : Rows)
      → All Fits rows
      → All (Found all) rows
      → Unique (map (λ r. r.sha) (done ++ rows))
      → restore_rows size hash parse link_size (directory_of all) (map entry_of rows) done
        ≡ ok (done ++ rows)
  unfolding restore_rows
  restore_rows-copies all [] done fits found u = ap ok (sym (append-nil done))
  restore_rows-copies all (r ∷ rows) done fits found u =
      rw
        (restore_row-copied all r done fits.0 found.0
          (Listing.Unique-fresh size hash parse link_size r done rows u))
        (restore_rows-copies all rows (done ++ r ∷ []) fits.1 found.1
            (subst (λ l. Unique (map (λ r. r.sha) l)) (sym (append-cons done r rows)) u)
          ∙ ap ok (append-cons done r rows))

  total-entries :
      (rows : Rows)
      → total_by (file_size size hash parse link_size) (map entry_of rows)
        ≡ total_by (λ (r : Row Data Json). size r.bytes) rows
  total-entries [] = refl
  total-entries (r ∷ rows) = omega (arith, total-entries rows)

  length-entries : (rows : Rows) → length (map entry_of rows) ≡ length rows
  length-entries [] = refl
  length-entries (r ∷ rows) = omega (arith, length-entries rows)

  -- A table whose rows are as they were inserted and whose keys are distinct, within the limits on
  -- records and bytes: its export into an empty directory succeeds, and whatever the order in which
  -- the file system lists that directory, each file once, restoring it into an empty table succeeds
  -- and gives the rows of the table, in some order.
  pub export-restore_files_empty :
      (glob : Files size hash → Files size hash) (max_bytes max_records : ℕ) (table : Rows)
      → ((files : Files size hash) → Reordered (glob files) files)
      → All Fits table
      → Unique (map (λ r. r.sha) table)
      → length table ≤ max_records
      → total_by (λ (r : Row Data Json). size r.bytes) table ≤ max_bytes
      → (dir : Directory size hash parse link_size) × (back : Rows) × (export size hash parse
            link_size max_bytes max_records table table
            (empty_directory size hash parse link_size)
          ≡ (ok tt, dir))
        × (restore_files_empty size hash parse link_size glob max_bytes max_records dir []
            ≡ ok back)
        × Reordered back table
  unfolding export restore_files_empty
  export-restore_files_empty glob max_bytes max_records table lists fits u h b =
      let rows = sort_by (λ (r : Row Data Json). r.sha) table in
      let sorting = Reordered-sort_by (λ (r : Row Data Json). r.sha) table in
      let few = length-sort_by (λ (r : Row Data Json). r.sha) table in
      let small =
        total-sort_by (λ (r : Row Data Json). r.sha) (λ (r : Row Data Json). size r.bytes) table in
      let fine = All-sort_by (λ (r : Row Data Json). r.sha) Fits table fits in
      let distinct_keys : Unique (map (λ r. r.sha) rows) =
        subst Unique (sym (map-sort_by (λ (r : Row Data Json). r.sha) table))
          (Unique-sorted (map (λ r. r.sha) table) u) in
      let copied =
        export_rows-copies size hash parse link_size max_bytes max_records 0 0 rows [] fine
          distinct_keys (omega (arith, few, h)) (omega (arith, small, b)) in
      let in_count : ltb max_records (length table) ≡ false = ground (arith, h) in
      let in_bytes : ltb max_bytes (total_by (λ (r : Row Data Json). size r.bytes) table) ≡ false =
        ground (arith, b) in
      let (back, listed, order) = Reordered-map entry_of (lists (map entry_of rows)) rows refl in
      let back_few = length-Reordered order in
      let back_small = total-Reordered (λ (r : Row Data Json). size r.bytes) order in
      let files_count : ltb max_records (length (map entry_of back)) ≡ false =
        rw (length-entries back, back_few, few, in_count) refl in
      let files_bytes : ltb max_bytes
            (total_by (file_size size hash parse link_size) (map entry_of back))
          ≡ false =
        rw (total-entries back, back_small, small, in_bytes) refl in
      let restored =
        restore_rows-copies rows back [] (All-Reordered Fits order fine)
          (All-Reordered (Found rows) order (all-Found [] rows distinct_keys))
          (Unique-Reordered (λ (r : Row Data Json). r.sha) order distinct_keys) in
      (
        directory_of rows,
        back,
        rw (in_count, in_bytes) copied,
        rw (listed, files_count, files_bytes) restored,
        Order.trans order sorting,
      )
