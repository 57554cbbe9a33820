-- ===== src/Artifacts/Database/Examples.antt =====
-- Runs of the database of artifacts, whose bytes are numbers and whose hash is the last digit.
use knowledge_diffusion.Base.{Bool, Key, Option, [], err, none, ok, refl, ℕ, ◌%◌, ◌==◌, ◌∷◌, ◌≡◌}
use knowledge_diffusion.Artifacts.Database.{Row, capture, get_bytes, mismatch, put_bytes}

abbrev size : ℕ → ℕ
size _ = 1

abbrev hash : ℕ → Key
hash n = n % 10

abbrev no_json : ℕ → Option ℕ
no_json _ = none

abbrev same : ℕ → ℕ → Bool
same a b = a == b

abbrev row_12 : Row ℕ ℕ
row_12 = record { sha = 2; bytes = 12; payload = none; captured_at = "first" }

put_new : put_bytes size hash no_json same 12 "first" [] ≡ ok (2, row_12 ∷ [])
unfolding put_bytes
put_new = refl

-- The second capture of the same bytes keeps the first time.
capture_again :
    capture size hash no_json same 12 "second" (row_12 ∷ [])
    ≡ ok (record { sha256 = 2; bytes = 1; retrieved_at = "first" }, row_12 ∷ [])
unfolding capture put_bytes
capture_again = refl

put_collision : put_bytes size hash no_json same 22 "second" (row_12 ∷ []) ≡ err mismatch
unfolding put_bytes
put_collision = refl

get_stored : get_bytes size hash no_json same 2 (row_12 ∷ []) ≡ ok 12
unfolding get_bytes
get_stored = refl
