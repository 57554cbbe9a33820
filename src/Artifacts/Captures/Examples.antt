-- ===== src/Artifacts/Captures/Examples.antt =====
-- Captures of numbers that are their own hashes.
use knowledge_diffusion.Base.{Key, [], none, ok, refl, some, ℕ, ◌∷◌, ◌≡◌}
use knowledge_diffusion.Artifacts
use knowledge_diffusion.Artifacts.{get_bytes, put_bytes}
use knowledge_diffusion.Artifacts.Database.{Capture}
use knowledge_diffusion.Artifacts.Captures.{Store, capture}

abbrev one_byte : ℕ → ℕ
one_byte _ = 1

abbrev same : ℕ → Key
same n = n

abbrev empty : Store one_byte same
empty = record { files = []; captures = [] }

abbrev mine : Capture
mine = record { sha256 = 7; bytes = 1; retrieved_at = "t0" }

-- What another process publishes first.
abbrev theirs : Capture
theirs = record { sha256 = 7; bytes = 1; retrieved_at = "t1" }

abbrev after : Capture → Store one_byte same
after c = record { files = (7, Artifacts.regular 7) ∷ []; captures = (7, c) ∷ [] }

capture-mine : capture one_byte same 7 "t0" none empty ≡ ok (mine, after mine)
unfolding capture put_bytes
capture-mine = refl

capture-theirs : capture one_byte same 7 "t0" (some theirs) empty ≡ ok (theirs, after theirs)
unfolding capture put_bytes
capture-theirs = refl

-- Another clock and another process: the metadata that is there stays.
capture-again : capture one_byte same 7 "t2" (some mine) (after theirs) ≡ ok (theirs, after theirs)
unfolding capture put_bytes get_bytes
capture-again = refl
