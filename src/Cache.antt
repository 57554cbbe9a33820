-- ===== src/Cache.antt =====
-- `ExtractionCache` of src/kdiff/core/cache.py: pointers to artifacts, kept in memory, in Redis and
-- in the ledger's checkpoints.
-- The JSON texts are parameters: `entry` is the artifact of a key and a result, `cache_key_of` and
-- `result_of` read its fields, `pointer_text` is a checkpoint's text and `body_of` reads it. What
-- Redis answers is an argument of `get`: `none` where it has no pointer, raises or is not used.
pub mod Recency
pub mod Evidence
mod Later
pub mod Publication
mod Examples
use knowledge_diffusion.Base.{
  Bool, Key, List, Option, Result, String, [], err, false, find?, if◌then◌else◌, leb, length, none,
  not, ok, or_raise, raise_if, select, some, ℕ, ◌&&◌, ◌++◌, ◌+◌, ◌==◌, ◌>>=◌, ◌>>◌, ◌||◌, ◌∷◌,
}
use knowledge_diffusion.Ledger
use knowledge_diffusion.Ledger.{Db}
use knowledge_diffusion.Ledger.Checkpoints.{checkpoint, read_checkpoint}
use knowledge_diffusion.Artifacts.{ArtifactError, Files, get_bytes, put_bytes}

-- A checkpoint's dictionary: with an artifact, empty, or another one.
pub data Body : Type 0 where
  artifact : Key → Body
  no_fields : Body
  other_fields : Body

pub data CacheError : Type 0 where
  invalid_bounds wrong_key changed missing_field : CacheError
  storing : ArtifactError → CacheError
  in_database : Ledger.LedgerError → CacheError

pub record Hits : Type 0 where
  pub l1 : ℕ
  pub l2 : ℕ
  pub durable : ℕ
  pub miss : ℕ

-- `local` is the ordered dictionary, the oldest entry first.
pub record Cache : Type 0 where
  pub capacity : ℕ
  pub local : List (Key × Key)
  pub hits : Hits

pub data Tier : Type 0 where
  in_memory in_redis in_ledger : Tier

-- `ExtractionCache.__init__`
unfoldable pub new_cache : ℕ → ℕ → Result CacheError Cache
new_cache capacity ttl = do
  raise_if (not (leb 1 capacity && leb capacity 10000) || not (leb 1 ttl && leb ttl 604800))
      invalid_bounds
  ok (record {
    capacity = capacity;
    local = [];
    hits = record { l1 = 0; l2 = 0; durable = 0; miss = 0 };
  })

abbrev pub is_entry : Key → Key × Key → Bool
is_entry key e = e.0 == key

abbrev pub pointer_in : Option (Key × Key) → Option Key
pointer_in none = none
pointer_in (some e) = some e.1

-- `self.local.get(key)`
abbrev pub local_pointer : Cache → Key → Option Key
local_pointer c key = pointer_in (find? (is_entry key) c.local)

-- `while len(self.local) > self.capacity: self.local.popitem(last=False)`
abbrev pub evict : ℕ → List (Key × Key) → List (Key × Key)
evict capacity [] = []
evict capacity (e ∷ es) =
    let rest = evict capacity es in if leb (length (e ∷ es)) capacity then e ∷ es else rest

-- The assignment and `move_to_end`.
abbrev pub moved_to_end : Key → Key → List (Key × Key) → List (Key × Key)
moved_to_end key pointer es = select (λ e. not (is_entry key e)) es ++ (key, pointer) ∷ []

unfoldable pub remember : Key → Key → Cache → Cache
remember key pointer c = record c { local = evict c.capacity (moved_to_end key pointer c.local) }

abbrev pub count_hit : Tier → Hits → Hits
count_hit in_memory h = record h { l1 = h.l1 + 1 }
count_hit in_redis h = record h { l2 = h.l2 + 1 }
count_hit in_ledger h = record h { durable = h.durable + 1 }

abbrev pub from_store {ℓ} : {A : Type ℓ} → Result ArtifactError A → Result CacheError A
from_store (ok a) = ok a
from_store (err e) = err (storing e)

abbrev pub is_key_of : Key → Option Key → Bool
is_key_of key none = false
is_key_of key (some k) = k == key

module _ {Data R : Type 0} (size : Data → ℕ) (hash : Data → Key) (entry : Key → R → Data)
    (cache_key_of : Data → Option Key) (result_of : Data → Option R) (name_of : Key → Key)
    (pointer_text : Key → String) (body_of : String → Body) where
  abbrev pub body_at : Option String → Option Body
  body_at none = none
  body_at (some text) = some (body_of text)

  -- `checkpoint, _ = self.ledger.read_checkpoint('extraction:' + key)`
  abbrev pub durable_body : Key → Db → Option Body
  durable_body key db = body_at (read_checkpoint (name_of key) db).0

  -- `(checkpoint or {}).get('artifact')`
  abbrev pub artifact_in : Option Body → Option Key
  artifact_in (some (artifact pointer)) = some pointer
  artifact_in _ = none

  abbrev pub or_tier : Option Key → Tier → Option (Key × Tier) → Option (Key × Tier)
  or_tier (some pointer) tier next = some (pointer, tier)
  or_tier none tier next = next

  -- The pointer that the tiers give for a key, and the tier that gives it.
  unfoldable pub locate : Key → Option Key → Db → Cache → Option (Key × Tier)
  locate key answer db c =
      or_tier (local_pointer c key) in_memory
        (or_tier answer in_redis (or_tier (artifact_in (durable_body key db)) in_ledger none))

  -- `value.get('cache_key') != key` and what follows it.
  abbrev pub serve : Key → Key → Tier → Data → Cache → Result CacheError (Option R × Cache)
  serve key pointer tier value c = do
    raise_if (not (is_key_of key (cache_key_of value))) wrong_key
    result ← or_raise (result_of value) missing_field
    ok (some result, remember key pointer (record c { hits = count_hit tier c.hits }))

  abbrev pub get_located :
      Key → Option (Key × Tier) → Files size hash → Cache → Result CacheError (Option R × Cache)
  get_located key none files c =
      ok (none, record c { hits = record (c.hits) { miss = c.hits.miss + 1 } })
  get_located key (some (pointer, tier)) files c =
      from_store (get_bytes size hash pointer files) >>= λ value. serve key pointer tier value c

  unfoldable pub get :
      Key → Option Key → Files size hash → Db → Cache → Result CacheError (Option R × Cache)
  get key answer files db c = get_located key (locate key answer db c) files c

  -- After `checkpoint` has raised: another process's pointer must be the same.
  abbrev pub agrees : Key → Option Body → Bool
  agrees pointer (some (artifact p)) = p == pointer
  agrees pointer _ = false

  abbrev pub settle : Key → Key → Db → Result Ledger.LedgerError (ℕ × Db) → Result CacheError Db
  settle key pointer db (ok (_, db')) = ok db'
  settle key pointer db (err e) = do
    raise_if (not (agrees pointer (durable_body key db))) (in_database e)
    ok db

  -- The part of `put` on the ledger: `meanwhile` is what other processes do to it between the
  -- read and the write.
  unfoldable pub publish : Key → Key → (Db → Db) → Db → Option Body → ℕ → Result CacheError Db
  publish key pointer meanwhile db none revision =
      let db' = meanwhile db in
      settle key pointer db' (checkpoint (name_of key) (pointer_text pointer) (some revision) db')
  publish key pointer meanwhile db (some no_fields) revision = ok db
  publish key pointer meanwhile db (some other_fields) revision = err missing_field
  publish key pointer meanwhile db (some (artifact p)) revision = do
    raise_if (not (p == pointer)) changed
    ok db

  abbrev pub after_store :
      Key
      → (Db → Db)
      → Db
      → Cache
      → Files size hash
      → Result ArtifactError (Key × Files size hash)
      → Result CacheError (Db × Cache) × Files size hash
  after_store key meanwhile db c files (err e) = (err (storing e), files)
  after_store key meanwhile db c files (ok (pointer, files')) = (
    publish key pointer meanwhile db (durable_body key db) (read_checkpoint (name_of key) db).1
        >>= λ db'. ok (db', remember key pointer c),
    files',
  )

  -- Redis is only told. An artifact that has been stored stays if the call raises.
  unfoldable pub put :
      Key
      → R
      → (Db → Db)
      → Files size hash
      → Db
      → Cache
      → Result CacheError (Db × Cache) × Files size hash
  put key result meanwhile files db c =
      after_store key meanwhile db c files (put_bytes size hash (entry key result) files)
