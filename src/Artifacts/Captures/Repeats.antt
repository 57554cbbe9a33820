-- ===== src/Artifacts/Captures/Repeats.antt =====
-- A repeated `capture` of src/kdiff/core/artifacts.py.
use knowledge_diffusion.Base.{
  >>=-eq-ok, Key, Option, Option-cases, Result, String, ap, arith, err, find?, inl, inr, ok,
  ok-injective, refl, some, sym, ℕ, ◌∙◌, ◌≡◌,
}
use knowledge_diffusion.Artifacts
use knowledge_diffusion.Artifacts.{Files, put_bytes, get_bytes, at_path}
use knowledge_diffusion.Artifacts.Contents.{put_bytes-read}
use knowledge_diffusion.Artifacts.Database.{Capture}
use knowledge_diffusion.Artifacts.Captures.{
  Captures, Store, capture, capture_at, link_capture, published, or_in_store, with_metadata,
  new_capture,
}

or_in_store-eq-ok :
    {A : Type 0} (r : Result Artifacts.ArtifactError A) (a : A) → or_in_store r ≡ ok a → r ≡ ok a
or_in_store-eq-ok (ok b) a h = cc
or_in_store-eq-ok (err e) a h = cc

module _ {Data : Type 0} (size : Data → ℕ) (hash : Data → Key) where
  -- What is returned is in the directory.
  with_metadata-kept :
      (sha : Key) (c d : Capture) (m : Option Capture) (captures after : Captures)
      → with_metadata size hash sha c m captures ≡ ok (d, after)
      → capture_at after sha ≡ some d
  with_metadata-kept sha c d m captures after h = elim (Option-cases (capture_at captures sha)) [
    | inl e ↦ elim (Option-cases (capture_at (link_capture sha c (published sha m captures)) sha)) [
      | inl f ↦ ground (arith, e, f)
      | inr (x, f) ↦ ground (arith, e, f)
    ]
    | inr (x, e) ↦ ground (arith, e)
  ]

  -- Metadata that is there is returned, and stays.
  with_metadata-again :
      (sha : Key) (c d : Capture) (m : Option Capture) (captures : Captures)
      → capture_at captures sha ≡ some d
      → with_metadata size hash sha c m captures ≡ ok (d, captures)
  with_metadata-again sha c d m captures h = rw h refl

  -- Bytes that have been put are found, and nothing is written.
  put_bytes_again :
      (bytes : Data) (files files' : Files size hash) (sha : Key)
      → put_bytes size hash bytes files ≡ ok (sha, files')
      → put_bytes size hash bytes files' ≡ ok (sha, files')
  unfolding put_bytes get_bytes
  put_bytes_again bytes files files' sha h =
      let (same, (e, read, _)) = put_bytes-read size hash bytes files files' sha h in
      let kept = ap (λ k. get_bytes size hash k files') (sym same) ∙ read in
      elim (Option-cases (find? (at_path size hash (hash bytes)) files')) [
        | inl f ↦ ground (arith, f, kept)
        | inr (x, f) ↦ ground (arith, f, kept, same, h)
      ]

  record Captured (bytes : Data) (t : String) (m : Option Capture) (store store' : Store size hash)
      (c : Capture) : Type 0 where
    sha : Key
    stored : put_bytes size hash bytes store.files ≡ ok (sha, store'.files)
    shown :
        with_metadata size hash sha (new_capture size hash sha bytes t) m store.captures
        ≡ ok (c, store'.captures)

  -- The parts of a capture that did not raise.
  capture-Captured :
      (bytes : Data) (t : String) (m : Option Capture) (store store' : Store size hash)
      → (c : Capture) → capture size hash bytes t m store ≡ ok (c, store')
      → Captured bytes t m store store' c
  unfolding capture
  capture-Captured bytes t m store store' c h =
      let (stored, e, f) = >>=-eq-ok (or_in_store (put_bytes size hash bytes store.files)) _ h in
      let (shown, g, k) =
        >>=-eq-ok
          (with_metadata size hash stored.0 (new_capture size hash stored.0 bytes t) m
            store.captures)
          _ f in
      let same = ok-injective k in
      record {
        sha = stored.0;
        stored =
            or_in_store-eq-ok (put_bytes size hash bytes store.files) stored e
            ∙ ap (λ r. ok (stored.0, r.1.files)) same;
        shown = g ∙ ap (λ r. ok (r.0, r.1.captures)) same;
      }

  -- A repeated capture of the same bytes, whatever the time and whatever another process publishes
  -- meanwhile, returns the metadata of the first and leaves the store.
  pub capture-capture :
      (bytes : Data) (t t' : String) (m m' : Option Capture) (store store' : Store size hash)
      → (c : Capture) → capture size hash bytes t m store ≡ ok (c, store')
      → capture size hash bytes t' m' store' ≡ ok (c, store')
  unfolding capture
  capture-capture bytes t t' m m' store store' c h =
      let p = capture-Captured bytes t m store store' c h in
      let kept =
        with_metadata-kept p.sha (new_capture size hash p.sha bytes t) c m store.captures
          store'.captures p.shown in
      rw
        (
          put_bytes_again bytes store.files store'.files p.sha p.stored,
          with_metadata-again p.sha (new_capture size hash p.sha bytes t') c m' store'.captures
              kept,
        )
        refl
