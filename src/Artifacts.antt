-- ===== src/Artifacts.antt =====
-- `ArtifactStore` of src/kdiff/core/artifacts.py: files named by the hash of their bytes.
-- The contents of the directory are its state, since other processes may have written there.
-- A name is a well-formed digest here.
pub mod Contents
pub mod Database
pub mod Backup
pub mod Captures
mod Examples
use knowledge_diffusion.Base.{
  Bool, Key, List, Option, Result, [], err, find?, if◌then◌else◌, is_some, ltb, none, ok, raise_if,
  some, ℕ, ◌++◌, ◌==◌, ◌>>=◌, ◌>>◌, ◌∷◌,
}

-- What stands at a path.
pub data File (Data : Type 0) : Type 0 where
  symlink : File Data
  regular : Data → File Data

pub data ArtifactError : Type 0 where
  too_large link_forbidden corrupted not_found : ArtifactError

-- 64 MiB
abbrev pub cap : ℕ
cap = 67108864

module _ {Data : Type 0} (size : Data → ℕ) (hash : Data → Key) where
  abbrev pub Files : Type 0
  Files = List (Key × File Data)

  abbrev pub at_path : Key → Key × File Data → Bool
  at_path sha entry = entry.0 == sha

  abbrev pub read_file : Key → Option (Key × File Data) → Result ArtifactError Data
  read_file sha none = err not_found
  read_file sha (some (_, symlink)) = err link_forbidden
  read_file sha (some (_, regular bytes)) = if hash bytes == sha then ok bytes else err corrupted

  unfoldable pub get_bytes : Key → Files → Result ArtifactError Data
  get_bytes sha files = read_file sha (find? (at_path sha) files)

  -- A path that is taken is read instead of written: a dangling link is found by the `link` call.
  unfoldable pub put_bytes : Data → Files → Result ArtifactError (Key × Files)
  put_bytes bytes files = do
    raise_if (ltb cap (size bytes)) too_large
    let sha = hash bytes
    if is_some (find? (at_path sha) files)
        then (get_bytes sha files >>= λ _. ok (sha, files))
        else ok (sha, files ++ (sha, regular bytes) ∷ [])
