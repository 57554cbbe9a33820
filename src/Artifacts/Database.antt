-- ===== src/Artifacts/Database.antt =====
-- `PostgresArtifacts` of src/kdiff/core/durable.py: a table of immutable bytes under their hashes.
-- Each statement is one step; `parse` is the JSON reader, whose result is stored and never read.
mod Examples
use knowledge_diffusion.Base.{
  Bool, Key, List, Option, Result, String, [], any, find?, if◌then◌else◌, ltb, not, ok, or_raise,
  raise_if, ℕ, ◌++◌, ◌==◌, ◌>>=◌, ◌>>◌, ◌∷◌,
}
use knowledge_diffusion.Artifacts.{cap}

pub record Row (Data Json : Type 0) : Type 0 where
  pub sha : Key
  pub bytes : Data
  pub payload : Option Json
  pub captured_at : String

pub record Capture : Type 0 where
  pub sha256 : Key
  pub bytes : ℕ
  pub retrieved_at : String

pub data DatabaseError : Type 0 where
  over_limit mismatch missing_artifact altered no_row : DatabaseError

module _ {Data Json : Type 0} (size : Data → ℕ) (hash : Data → Key) (parse : Data → Option Json)
    (same : Data → Data → Bool) where
  abbrev pub under : Key → Row Data Json → Bool
  under sha row = row.sha == sha

  -- `INSERT … ON CONFLICT DO NOTHING`
  abbrev pub insert_new : Row Data Json → List (Row Data Json) → List (Row Data Json)
  insert_new row table = if any (under row.sha) table then table else table ++ row ∷ []

  abbrev pub new_row : Data → String → Row Data Json
  new_row bytes t = record {
    sha = hash bytes;
    bytes = bytes;
    payload = parse bytes;
    captured_at = t;
  }

  -- A mismatch is found only where the row was there before: the table is then as it was.
  unfoldable pub put_bytes :
      Data → String → List (Row Data Json) → Result DatabaseError (Key × List (Row Data Json))
  put_bytes bytes t table = do
    raise_if (ltb cap (size bytes)) over_limit
    let sha = hash bytes
    let after = insert_new (new_row bytes t) table
    saved ← or_raise (find? (under sha) after) no_row
    raise_if (not (same saved.bytes bytes)) mismatch
    ok (sha, after)

  unfoldable pub get_bytes : Key → List (Row Data Json) → Result DatabaseError Data
  get_bytes sha table = do
    row ← or_raise (find? (under sha) table) missing_artifact
    raise_if (not (hash row.bytes == sha)) altered
    ok row.bytes

  unfoldable pub capture :
      Data → String → List (Row Data Json) → Result DatabaseError (Capture × List (Row Data Json))
  capture bytes t table = do
    stored ← put_bytes bytes t table
    row ← or_raise (find? (under (stored.0)) (stored.1)) no_row
    ok (record { sha256 = stored.0; bytes = size bytes; retrieved_at = row.captured_at }, stored.1)
