-- ===== src/Cache/Examples.antt =====
-- The theorems on the cache, with numbers as artifacts that are their own hashes.
use knowledge_diffusion.Base.{
  Key, Option, String, [], arith, err, if◌then◌else◌, none, ok, refl, some, str_eq, ℕ, ◌%◌, ◌*◌,
  ◌+◌, ◌/◌, ◌==◌, ◌∷◌, ◌≡◌, ◌≢◌,
}
use knowledge_diffusion.Ledger
use knowledge_diffusion.Ledger.{Db}
use knowledge_diffusion.Ledger.Checkpoints.{checkpoint, read_checkpoint}
use knowledge_diffusion.Artifacts
use knowledge_diffusion.Artifacts.{Files, get_bytes, put_bytes}
use knowledge_diffusion.Cache
use knowledge_diffusion.Cache.{Cache, Body, get, put, remember, local_pointer}
use knowledge_diffusion.Cache.Evidence.{Evidence, get-Evidence, put-get}
use knowledge_diffusion.Cache.Later
use knowledge_diffusion.Cache.Publication.{put-put}

abbrev one_byte : ℕ → ℕ
one_byte _ = 1

abbrev same : ℕ → Key
same n = n

-- An artifact: its key in the hundreds, and a result below a hundred.
abbrev entry : Key → ℕ → ℕ
entry key r = key * 100 + r

abbrev key_of : ℕ → Option Key
key_of n = some (n / 100)

abbrev result_of : ℕ → Option ℕ
result_of n = some (n % 100)

abbrev text_of : Key → String
text_of pointer = if pointer == 307 then "307" else "308"

abbrev body_of : String → Body
body_of text = if str_eq text "307" then Cache.artifact 307 else Cache.artifact 308

abbrev idle : Db → Db
idle db = db

abbrev small : Cache
small = record {
  capacity = 1;
  local = (9, 900) ∷ [];
  hits = record { l1 = 0; l2 = 0; durable = 0; miss = 0 };
}

abbrev kept : Cache
kept = record small { local = (3, 307) ∷ [] }

abbrev hit : Cache
hit = record kept { hits = record { l1 = 1; l2 = 0; durable = 0; miss = 0 } }

abbrev files : Files one_byte same
files = (307, Artifacts.regular 307) ∷ []

abbrev noted : Db
noted = record Ledger.empty { checkpoints = record { name = 3; value = "307"; revision = 1 } ∷ [] }

put-first :
    put one_byte same entry key_of result_of same text_of body_of 3 7 idle [] Ledger.empty small
    ≡ (ok (noted, kept), files)
unfolding put put_bytes Cache.publish checkpoint read_checkpoint remember
put-first = refl

get-first :
    get one_byte same entry key_of result_of same text_of body_of 3 none files noted kept
    ≡ ok (some 7, hit)
unfolding get Cache.locate get_bytes remember
get-first = refl

-- Another result for the same key is refused.
put-second :
    (put one_byte same entry key_of result_of same text_of body_of 3 8 idle files noted kept).0
    ≡ err Cache.changed
unfolding put put_bytes Cache.publish read_checkpoint
put-second = refl

get-Evidence_example : Evidence one_byte same entry key_of result_of same text_of body_of 3 7 files
get-Evidence_example =
    get-Evidence one_byte same entry key_of result_of same text_of body_of 3 none files noted kept
      hit 7 get-first

put-get_example :
    (c : Cache) × (get one_byte same entry key_of result_of same text_of body_of 3
        (some 900)
        files
        noted
        kept
      ≡ ok (some 7, c))
put-get_example =
    put-get one_byte same entry key_of result_of same text_of body_of 3 7 idle [] files Ledger.empty
      noted small kept (some 900) refl refl (λ d e. e) (omega arith) put-first

unnoted :
    Cache.durable_body one_byte same entry key_of result_of same text_of body_of 3 Ledger.empty
    ≢ some Cache.no_fields
unfolding read_checkpoint
unnoted = λ e. cc

-- Another key's checkpoint, written by another process.
abbrev busier : Db
busier = record noted {
  checkpoints =
      record { name = 3; value = "307"; revision = 1 }
      ∷ record { name = 4; value = "x"; revision = 1 }
      ∷ [];
}

put-put_example :
    (Cache.durable_body one_byte same entry key_of result_of same text_of body_of 3 busier
      ≡ some (Cache.artifact 307))
    × (put one_byte same entry key_of result_of same text_of body_of 3 8 idle files busier kept
        ≢ (ok (busier, kept), files))
unfolding read_checkpoint
put-put_example =
    put-put one_byte same entry key_of result_of same text_of body_of 3 7 8 idle idle [] files files
      Ledger.empty noted busier busier small kept kept kept files refl (λ j k h. h) unnoted
      (omega arith) put-first (Later.after_other Later.at_once refl)
