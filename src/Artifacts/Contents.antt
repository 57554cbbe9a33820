-- ===== src/Artifacts/Contents.antt =====
-- What the store of src/kdiff/core/artifacts.py returns of what it was given.
use knowledge_diffusion.Base.{
  Key, Option-cases, Result-cases, [], arith, find?, find?-append_none, find?-append_some, inl, inr,
  none, ok, refl, ℕ, ◌++◌, ◌∷◌, ◌≡◌, ◌⊎◌,
}
use knowledge_diffusion.Artifacts
use knowledge_diffusion.Artifacts.{ArtifactError, Files, get_bytes, put_bytes}

module _ {Data : Type 0} (size : Data → ℕ) (hash : Data → Key) where
  -- Bytes that are read have the hash that they are named by.
  pub get_bytes-hash :
      (sha : Key) (files : Files size hash) (d : Data)
      → get_bytes size hash sha files ≡ ok d
      → hash d ≡ sha
  unfolding get_bytes
  get_bytes-hash sha files d h = ground (arith, find? (Artifacts.at_path size hash sha) files)

  get_bytes-append :
      (other : Key) (files more : Files size hash) (d : Data)
      → get_bytes size hash other files ≡ ok d
      → get_bytes size hash other (files ++ more) ≡ ok d
  unfolding get_bytes
  get_bytes-append other files more d h =
      elim (Option-cases (find? (Artifacts.at_path size hash other) files)) [
        | inl e ↦ ground (arith, e)
        | inr (x, e) ↦
            rw (find?-append_some (Artifacts.at_path size hash other) files more x e) (rw e at h)
      ]

  get_bytes-new :
      (bytes : Data) (files : Files size hash)
      → find? (Artifacts.at_path size hash (hash bytes)) files ≡ none
      → get_bytes size hash (hash bytes) (files ++ (hash bytes, Artifacts.regular bytes) ∷ [])
        ≡ ok bytes
  unfolding get_bytes
  get_bytes-new bytes files e =
      rw
        (find?-append_none (Artifacts.at_path size hash (hash bytes)) files
          ((hash bytes, Artifacts.regular bytes) ∷ []) e)
        (ground arith)

  -- A successful `put_bytes` found the bytes' name taken, or added a file.
  put_bytes-eq-ok :
      (bytes : Data) (files files' : Files size hash) (sha : Key)
      → put_bytes size hash bytes files ≡ ok (sha, files')
      → (sha ≡ hash bytes)
        × (((e : Data) × (get_bytes size hash (hash bytes) files ≡ ok e) × (files' ≡ files))
            ⊎ ((find? (Artifacts.at_path size hash (hash bytes)) files ≡ none)
                × (files' ≡ files ++ (hash bytes, Artifacts.regular bytes) ∷ [])))
  unfolding put_bytes
  put_bytes-eq-ok bytes files files' sha h =
      elim (Option-cases (find? (Artifacts.at_path size hash (hash bytes)) files)) [
        | inl e ↦ ground (arith, e)
        | inr (x, e) ↦ elim (Result-cases (get_bytes size hash (hash bytes) files)) [
          | inl (d, f) ↦ (ground (arith, e, f), inl (d, f, ground (arith, e, f)))
          | inr (d, f) ↦ ground (arith, e, f)
        ]
      ]

  pub put_bytes-read :
      (bytes : Data) (files files' : Files size hash) (sha : Key)
      → put_bytes size hash bytes files ≡ ok (sha, files')
      → (sha ≡ hash bytes)
        × ((e : Data) × (get_bytes size hash sha files' ≡ ok e) × (hash e ≡ hash bytes))
  put_bytes-read bytes files files' sha h =
      let (same, how) = put_bytes-eq-ok bytes files files' sha h in
      elim how [
        | inl (e, f, g) ↦ (same, rw (same, g) (e, f, get_bytes-hash (hash bytes) files e f))
        | inr (f, g) ↦ (same, rw (same, g) (bytes, get_bytes-new bytes files f, refl))
      ]

  -- Bytes that have been put are read back under the returned name, as bytes of the same hash, and
  -- what could be read before is read as before.
  pub put_bytes-get_bytes :
      (bytes : Data) (files files' : Files size hash) (sha other : Key) (d : Data)
      → put_bytes size hash bytes files ≡ ok (sha, files')
      → get_bytes size hash other files ≡ ok d
      → ((e : Data) × (get_bytes size hash sha files' ≡ ok e) × (hash e ≡ hash bytes))
        × (get_bytes size hash other files' ≡ ok d)
  put_bytes-get_bytes bytes files files' sha other d h k =
      let (same, how) = put_bytes-eq-ok bytes files files' sha h in
      (
        (put_bytes-read bytes files files' sha h).1,
        elim how [
          | inl (e, f, g) ↦ rw g k
          | inr (f, g) ↦
              rw g (get_bytes-append other files ((hash bytes, Artifacts.regular bytes) ∷ []) d k)
        ],
      )
