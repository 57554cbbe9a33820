-- ===== src/Artifacts/Examples.antt =====
-- Runs of the artifact store at a store of numbers that are their own hashes.
use knowledge_diffusion.Base.{Key, [], err, ok, refl, ℕ, ◌∷◌, ◌≡◌}
use knowledge_diffusion.Artifacts
use knowledge_diffusion.Artifacts.{Files, get_bytes, put_bytes}

abbrev one_byte : ℕ → ℕ
one_byte _ = 1

abbrev same : ℕ → Key
same n = n

abbrev files : Files one_byte same
files = (5, Artifacts.regular 5) ∷ (6, Artifacts.symlink) ∷ (8, Artifacts.regular 9) ∷ []

abbrev more : Files one_byte same
more =
    (5, Artifacts.regular 5)
    ∷ (6, Artifacts.symlink)
    ∷ (8, Artifacts.regular 9)
    ∷ (7, Artifacts.regular 7)
    ∷ []

put-seven : put_bytes one_byte same 7 files ≡ ok (7, more)
unfolding put_bytes
put-seven = refl

read-five : get_bytes one_byte same 5 files ≡ ok 5
unfolding get_bytes
read-five = refl

-- A link and a corrupted file are refused, by a writer too.
put-link : put_bytes one_byte same 6 files ≡ err Artifacts.link_forbidden
unfolding put_bytes get_bytes
put-link = refl

put-corrupted : put_bytes one_byte same 8 files ≡ err Artifacts.corrupted
unfolding put_bytes get_bytes
put-corrupted = refl
