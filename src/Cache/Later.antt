-- ===== src/Cache/Later.antt =====
-- What calls of `put` in src/kdiff/core/cache.py, and other transactions, leave of a key that has its
-- artifact in the ledger.
use knowledge_diffusion.Base.{
  ==→eq, Bool-cases, Key, Option, Result, Result-cases, String, ap, arith, inl, inr, none, ok,
  ok-injective, some, sym, ℕ, ◌==◌, ◌∙◌, ◌≡◌, ◌≢◌,
}
use mathlib.Core.Path.{subst}
use knowledge_diffusion.Ledger.{Db}
use knowledge_diffusion.Ledger.Checkpoints.{checkpoint, read_checkpoint, checkpoint-apart}
use knowledge_diffusion.Artifacts.{Files}
use knowledge_diffusion.Cache
use knowledge_diffusion.Cache.{Cache, CacheError, Body, put, publish}
use knowledge_diffusion.Cache.Evidence.{put-eq-ok}

module _ {Data R : Type 0} (size : Data → ℕ) (hash : Data → Key) (entry : Key → R → Data)
    (cache_key_of : Data → Option Key) (result_of : Data → Option R) (name_of : Key → Key)
    (pointer_text : Key → String) (body_of : String → Body) where
  abbrev putting :
      Key
      → R
      → (Db → Db)
      → Files size hash
      → Db
      → Cache
      → Result CacheError (Db × Cache) × Files size hash
  putting = put size hash entry cache_key_of result_of name_of pointer_text body_of

  abbrev publishing : Key → Key → (Db → Db) → Db → Option Body → ℕ → Result CacheError Db
  publishing = publish size hash entry cache_key_of result_of name_of pointer_text body_of

  abbrev body : Key → Db → Option Body
  body = Cache.durable_body size hash entry cache_key_of result_of name_of pointer_text body_of

  -- The tables after further transactions: calls of `put`, for this key or others, with other
  -- processes between their read and their write, and any transaction that leaves the key's
  -- checkpoint.
  pub data Later (key : Key) (db : Db) : Db → Type 0 where
    at_once : Later key db db
    after_put :
        {d d' : Db} (k : Key) (s : R) (meanwhile : Db → Db) (files files' : Files size hash)
        (c c' : Cache)
        → Later key db d
        → body key (meanwhile d) ≡ body key d
        → putting k s meanwhile files d c ≡ (ok (d', c'), files')
        → Later key db d'
    after_other : {d d' : Db} → Later key db d → body key d' ≡ body key d → Later key db d'

  -- A `put` that finds an artifact leaves the tables.
  publish-found :
      (k pointer p : Key) (meanwhile : Db → Db) (d d' : Db) (n : ℕ)
      → publishing k pointer meanwhile d (some (Cache.artifact p)) n ≡ ok d'
      → d ≡ d'
  unfolding publish
  publish-found k pointer p meanwhile d d' n h = ground arith

  -- A `put` for another key leaves what the ledger has of this one.
  publish-apart :
      (key k pointer : Key) (meanwhile : Db → Db) (d d' : Db) (b : Option Body) (n : ℕ)
      → name_of key ≢ name_of k
      → body key (meanwhile d) ≡ body key d
      → publishing k pointer meanwhile d b n ≡ ok d'
      → body key d' ≡ body key d
  unfolding publish
  publish-apart key k pointer meanwhile d d' none n ne idle h =
      elim (Result-cases (checkpoint (name_of k) (pointer_text pointer) (some n) (meanwhile d))) [
        | inl ((m, e), f) ↦
            let same : e ≡ d' = ground (arith, f) in
            let kept =
              checkpoint-apart (name_of k) (name_of key) (pointer_text pointer) (some n)
                (meanwhile d) e m ne f in
            subst (λ x. body key x ≡ body key d) same (rw kept idle)
        | inr (x, f) ↦
            let same : meanwhile d ≡ d' = ground (arith, f, h) in
            subst (λ x. body key x ≡ body key d) same idle
      ]
  publish-apart key k pointer meanwhile d d' (some Cache.no_fields) n ne idle h =
      ap (body key) (sym (ok-injective h))
  publish-apart key k pointer meanwhile d d' (some Cache.other_fields) n ne idle h = cc
  publish-apart key k pointer meanwhile d d' (some (Cache.artifact p)) n ne idle h =
      ap (body key) (sym (publish-found k pointer p meanwhile d d' n h))

  -- An artifact stays in the ledger.
  pub Later-body :
      (key p : Key) (db d : Db)
      → ((j k : Key) → name_of j ≡ name_of k → j ≡ k)
      → body key db ≡ some (Cache.artifact p)
      → Later key db d
      → body key d ≡ some (Cache.artifact p)
  Later-body key p db d own held at_once = held
  Later-body key p db d own held (after_other {d = e} l same) =
      same ∙ Later-body key p db e own held l
  Later-body key p db d own held (after_put {d = e} k s meanwhile files files' c c' l idle h) =
      let before = Later-body key p db e own held l in
      let (_, published, _) =
        put-eq-ok size hash entry cache_key_of result_of name_of pointer_text body_of k s meanwhile
          files files' e d c c' h in
      elim (Bool-cases (k == key)) [
        | inl same ↦
            let found : body k e ≡ some (Cache.artifact p) =
              ap (λ j. body j e) (==→eq k key same) ∙ before in
            let revision = (read_checkpoint (name_of k) e).1 in
            let stays = publish-found k (hash (entry k s)) p meanwhile e d revision (
              ap (λ b. publishing k (hash (entry k s)) meanwhile e b revision) (sym found)
              ∙ published) in
            ap (body key) (sym stays) ∙ before
        | inr other ↦
            publish-apart key k (hash (entry k s)) meanwhile e d (body k e)
              (read_checkpoint (name_of k) e).1
              (λ same. ground (arith, ap (λ j. j == key) (own key k same), other)) idle published
            ∙ before
      ]
