-- ===== src/Artifacts/Backup/Copying.antt =====
-- What the loop of `export` in src/kdiff/core/durable.py writes.
use knowledge_diffusion.Base.{
  All, Bool, Key, List, Option, Unique, [], arith, false, length, ltb, map, ok, refl, sym, true, ℕ,
  ◌++◌, ◌+◌, ◌==◌, ◌∷◌, ◌≡◌, ◌≤◌,
}
use mathlib.Core.Path.{subst}
use knowledge_diffusion.Artifacts.{File, cap, put_bytes}
use knowledge_diffusion.Artifacts.Database.{Row, Capture}
use knowledge_diffusion.Artifacts.Backup.{Directory, total_by, export_row, export_rows}
use knowledge_diffusion.Artifacts.Backup.Listing
use knowledge_diffusion.Artifacts.Backup.Listing.{append-cons, append-nil, map-append_one}

module _ {Data Json : Type 0} (size : Data → ℕ) (hash : Data → Key) (parse : Data → Option Json)
    (link_size : Key → ℕ) where
  abbrev Rows : Type 0
  Rows = List (Row Data Json)

  abbrev Fits : Row Data Json → Type 0
  Fits = Listing.Fits size hash parse link_size

  abbrev entry_of : Row Data Json → Key × File Data
  entry_of = Listing.entry_of size hash parse link_size

  abbrev captured : Row Data Json → Key × Capture
  captured = Listing.captured size hash parse link_size

  abbrev directory_of : Rows → Directory size hash parse link_size
  directory_of = Listing.directory_of size hash parse link_size

  abbrev has_row : Key → Rows → Bool
  has_row = Listing.has_row size hash parse link_size

  put_bytes-fresh :
      (r : Row Data Json) (done : Rows)
      → Fits r
      → has_row r.sha done ≡ false
      → put_bytes size hash r.bytes (map entry_of done) ≡ ok (r.sha, map entry_of (done ++ r ∷ []))
  unfolding put_bytes
  put_bytes-fresh r done fits fresh =
      let small : ltb cap (size r.bytes) ≡ false = ground (arith, fits.bounded) in
      rw
        (
          fits.named,
          small,
          Listing.find?-absent size hash parse link_size r.sha done fresh,
          map-append_one entry_of done r,
        )
        refl

  export_row-fresh :
      (r : Row Data Json) (done : Rows)
      → Fits r
      → has_row r.sha done ≡ false
      → export_row size hash parse link_size r (directory_of done)
        ≡ (ok tt, directory_of (done ++ r ∷ []))
  export_row-fresh r done fits fresh =
      let same : (r.sha == r.sha) ≡ true = ground arith in
      rw
        (
          put_bytes-fresh r done fits fresh,
          same,
          Listing.put_row-absent size hash parse link_size r done fresh,
          map-append_one captured done r,
        )
        refl

  -- The cursor's loop copies the rows that are left.
  pub export_rows-copies :
      (max_bytes max_records index total : ℕ) (rows done : Rows)
      → All Fits rows
      → Unique (map (λ r. r.sha) (done ++ rows))
      → index + length rows ≤ max_records
      → total + total_by (λ (r : Row Data Json). size r.bytes) rows ≤ max_bytes
      → export_rows size hash parse link_size max_bytes max_records index total rows
          (directory_of done)
        ≡ (ok tt, directory_of (done ++ rows))
  unfolding export_rows
  export_rows-copies max_bytes max_records index total [] done fits u h b =
      rw (append-nil done) refl
  export_rows-copies max_bytes max_records index total (r ∷ rows) done fits u h b =
      let few : ltb max_records (index + 1) ≡ false = ground (arith, h) in
      let small : ltb max_bytes (total + size r.bytes) ≡ false = ground (arith, b) in
      rw
        (
          few,
          small,
          export_row-fresh r done fits.0
              (Listing.Unique-fresh size hash parse link_size r done rows u),
          ← append-cons done r rows,
        )
        (export_rows-copies max_bytes max_records (index + 1) (total + size r.bytes) rows
          (done ++ r ∷ []) fits.1
          (subst (λ l. Unique (map (λ r. r.sha) l)) (sym (append-cons done r rows)) u)
          (omega (arith, h)) (omega (arith, b)))
