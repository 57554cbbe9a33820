-- ===== src/Artifacts/Captures.antt =====
-- `ArtifactStore.capture` of src/kdiff/core/artifacts.py.
-- The metadata files of the directory are read already. `meanwhile` is what another process
-- publishes between the look for the metadata and the link.
pub mod Repeats
mod Examples
use knowledge_diffusion.Base.{
  Key, List, Option, Result, String, [], err, if◌then◌else◌, is_some, none, ok, or_raise, row_at,
  some, ℕ, ◌++◌, ◌>>=◌, ◌>>◌, ◌∷◌,
}
use knowledge_diffusion.Artifacts
use knowledge_diffusion.Artifacts.{ArtifactError, Files, put_bytes}
use knowledge_diffusion.Artifacts.Database.{Capture}

pub data CaptureError : Type 0 where
  in_store : ArtifactError → CaptureError
  no_metadata : CaptureError

abbrev pub Captures : Type 0
Captures = List (Key × Capture)

abbrev pub capture_at : Captures → Key → Option Capture
capture_at captures sha = elim (row_at (λ c. c.0) captures sha) [ some c ↦ some c.1 | none ↦ none ]

-- `os.link`: a name that is taken stays.
abbrev pub link_capture : Key → Capture → Captures → Captures
link_capture sha c captures =
    if is_some (capture_at captures sha) then captures else captures ++ (sha, c) ∷ []

abbrev pub published : Key → Option Capture → Captures → Captures
published sha none captures = captures
published sha (some c) captures = link_capture sha c captures

abbrev pub or_in_store : {A : Type 0} → Result ArtifactError A → Result CaptureError A
or_in_store (ok a) = ok a
or_in_store (err e) = err (in_store e)

module _ {Data : Type 0} (size : Data → ℕ) (hash : Data → Key) where
  pub record Store : Type 0 where
    pub files : Files size hash
    pub captures : Captures

  -- The metadata that is there after the call, read from the directory.
  abbrev pub with_metadata :
      Key → Capture → Option Capture → Captures → Result CaptureError (Capture × Captures)
  with_metadata sha c meanwhile captures =
      if is_some (capture_at captures sha)
      then (do found ← or_raise (capture_at captures sha) no_metadata; ok (found, captures))
      else (do
        let after = link_capture sha c (published sha meanwhile captures)
        found ← or_raise (capture_at after sha) no_metadata
        ok (found, after))

  abbrev pub new_capture : Key → Data → String → Capture
  new_capture sha bytes t = record { sha256 = sha; bytes = size bytes; retrieved_at = t }

  unfoldable pub capture :
      Data → String → Option Capture → Store → Result CaptureError (Capture × Store)
  capture bytes t meanwhile store = do
    stored ← or_in_store (put_bytes size hash bytes store.files)
    shown ← with_metadata stored.0 (new_capture stored.0 bytes t) meanwhile store.captures
    ok (shown.0, record { files = stored.1; captures = shown.1 })
