-- ===== src/Witness/Freezing.antt =====
-- `freeze` of src/kdiff/analysis/witness.py, over the store of src/kdiff/core/artifacts.py.
-- The graph is exported already. `encode` is the JSON text of a release with its other fields (the
-- namespace, the clock, the revision of the code), and `decode` reads it back.
use knowledge_diffusion.Base.{
  >>=-eq-ok, All, Bool, Key, List, Option, Result, [], any, any-All, err, false, is_ok, member,
  none, not, ok, refl, some, true, ℕ, ◌>>=◌, ◌∷◌, ◌≡◌,
}
use knowledge_diffusion.Artifacts.{ArtifactError, Files, get_bytes, put_bytes}
use knowledge_diffusion.Artifacts.Contents.{put_bytes-get_bytes, put_bytes-read}
use knowledge_diffusion.Witness
use knowledge_diffusion.Witness.{WitnessError}
use knowledge_diffusion.Witness.Counts.{Evidence, FrozenGraph, Release, source_ids}
use knowledge_diffusion.Witness.Bundles.{load_release}
use knowledge_diffusion.Witness.Replays.{eq_refl}

abbrev pub release_of : (FrozenGraph → Key) → FrozenGraph → Release
release_of digest_graph g = record { graph = g; graph_hash = digest_graph g; known_format = true }

module _ {Data : Type 0} (size : Data → ℕ) (hash : Data → Key) (encode : Release → Key → Data)
    (decode : Data → Option Release) (digest_graph : FrozenGraph → Key) where
  abbrev pub read_sources : List Key → Files size hash → Result ArtifactError (Unit {0})
  read_sources [] files = ok tt
  read_sources (s ∷ ss) files = do d ← get_bytes size hash s files; read_sources ss files

  unfoldable pub freeze :
      FrozenGraph → Key → Files size hash → Result ArtifactError (Key × Files size hash)
  freeze g other files = do
    checked ← read_sources (source_ids g) files
    put_bytes size hash (encode (release_of digest_graph g) other) files

  abbrev value_of : Result ArtifactError Data → Option Release
  value_of (ok d) = decode d
  value_of (err e) = none

  -- `store.get` of a release, and the reading of a source.
  abbrev pub release_in : Files size hash → Key → Option Release
  release_in files id = value_of (get_bytes size hash id files)

  abbrev pub stored_in : Files size hash → Key → Bool
  stored_in files id = is_ok (get_bytes size hash id files)

  -- Sources that have been read are readable as long as what is readable stays so.
  read_sources-stored :
      (ss : List Key) (files files' : Files size hash)
      → read_sources ss files ≡ ok tt
      → ((s : Key) (d : Data)
          → get_bytes size hash s files ≡ ok d
          → get_bytes size hash s files' ≡ ok d)
      → any (λ s. not (stored_in files' s)) ss ≡ false
  read_sources-stored [] files files' h kept = refl
  read_sources-stored (s ∷ ss) files files' h kept =
      let (d, e, rest) = >>=-eq-ok (get_bytes size hash s files) _ h in
      rw (kept s d e) (read_sources-stored ss files files' rest kept)

  -- A release that is frozen is loaded, by the name that freeze returns, as the graph that was
  -- frozen, if every record of the graph cites one of its sources, the text of the release can be
  -- read back and no other text has its hash.
  pub freeze-load_release :
      (digest_evidence : Evidence → Key) (digest_claim : Key → Witness.CountRequest → Key → Key)
      (g : FrozenGraph) (other id : Key) (files files' : Files size hash)
      → decode (encode (release_of digest_graph g) other) ≡ some (release_of digest_graph g)
      → ((d : Data)
          → hash d ≡ hash (encode (release_of digest_graph g) other)
          → d ≡ encode (release_of digest_graph g) other)
      → All (λ o. member o.raw_artifact_pointer (source_ids g) ≡ true) g.observations
      → All (λ a. member a.raw_artifact_pointer (source_ids g) ≡ true) g.assertions
      → freeze g other files ≡ ok (id, files')
      → load_release digest_graph digest_evidence digest_claim
          (stored_in files')
          (release_in files')
          id
        ≡ ok (release_of digest_graph g)
  unfolding freeze load_release
  freeze-load_release digest_evidence digest_claim g other id files files' decodes unique observed
        asserted h =
      let text = encode (release_of digest_graph g) other in
      let (_, read, put) = >>=-eq-ok (read_sources (source_ids g) files) _ h in
      let (_, (d, got, same)) = put_bytes-read size hash text files files' id put in
      let kept =
        read_sources-stored (source_ids g) files files' read
          (λ s e f. (put_bytes-get_bytes size hash text files files' id s e put f).1) in
      let seen : any (λ o. not (member o.raw_artifact_pointer (source_ids g))) g.observations
          ≡ false =
        (any-All (λ o. member o.raw_artifact_pointer (source_ids g)) g.observations).1 observed in
      let cited : any (λ a. not (member a.raw_artifact_pointer (source_ids g))) g.assertions
          ≡ false =
        (any-All (λ a. member a.raw_artifact_pointer (source_ids g)) g.assertions).1 asserted in
      rw (got, unique d same, decodes, eq_refl (digest_graph g), kept) (rw (seen, cited) refl)
