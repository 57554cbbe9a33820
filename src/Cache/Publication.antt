-- ===== src/Cache/Publication.antt =====
-- What `put` of src/kdiff/core/cache.py leaves in the ledger.
use knowledge_diffusion.Base.{
  Bool-cases, Key, Option, Result, Result-cases, String, ap, arith, inl, inr, none, ok, refl, some,
  sym, true, ℕ, ◌∙◌, ◌≡◌, ◌≢◌, ◌⊎◌,
}
use mathlib.Core.Path.{subst}
use knowledge_diffusion.Ledger.{Db}
use knowledge_diffusion.Ledger.Checkpoints.{checkpoint, read_checkpoint, checkpoint-value_of}
use knowledge_diffusion.Artifacts.{Files}
use knowledge_diffusion.Cache
use knowledge_diffusion.Cache.{Cache, CacheError, Body, put, publish}
use knowledge_diffusion.Cache.Evidence.{put-eq-ok}
use knowledge_diffusion.Cache.Later.{Later, Later-body}

module _ {Data R : Type 0} (size : Data → ℕ) (hash : Data → Key) (entry : Key → R → Data)
    (cache_key_of : Data → Option Key) (result_of : Data → Option R) (name_of : Key → Key)
    (pointer_text : Key → String) (body_of : String → Body) where
  abbrev putting :
      Key
      → R
      → (Db → Db)
      → Files size hash
      → Db
      → Cache
      → Result CacheError (Db × Cache) × Files size hash
  putting = put size hash entry cache_key_of result_of name_of pointer_text body_of

  abbrev publishing : Key → Key → (Db → Db) → Db → Option Body → ℕ → Result CacheError Db
  publishing = publish size hash entry cache_key_of result_of name_of pointer_text body_of

  abbrev body : Key → Db → Option Body
  body = Cache.durable_body size hash entry cache_key_of result_of name_of pointer_text body_of

  agrees-body :
      (pointer : Key) (b : Option Body)
      → Cache.agrees size hash entry cache_key_of result_of name_of pointer_text body_of pointer b
        ≡ true
      → b ≡ some (Cache.artifact pointer)
  agrees-body pointer b h = ground arith

  publish-body :
      (key pointer : Key) (meanwhile : Db → Db) (db db' : Db) (b : Option Body) (n : ℕ)
      → body_of (pointer_text pointer) ≡ Cache.artifact pointer
      → body key db ≡ b
      → publishing key pointer meanwhile db b n ≡ ok db'
      → (body key db' ≡ some (Cache.artifact pointer)) ⊎ (b ≡ some Cache.no_fields)
  unfolding publish
  publish-body key pointer meanwhile db db' none n t e h =
      elim (Result-cases
        (checkpoint (name_of key) (pointer_text pointer) (some n) (meanwhile db))) [
          | inl ((m, d), f) ↦
              let written =
                checkpoint-value_of (name_of key) (pointer_text pointer) (some n) (meanwhile db) d m
                  f in
              let same : d ≡ db' = ground (arith, f) in
              inl (
                subst (λ x. body key x ≡ some (Cache.artifact pointer)) same
                  (rw written (ap some t)))
          | inr (x, f) ↦
              let agreeing =
                Cache.agrees size hash entry cache_key_of result_of name_of pointer_text body_of
                  pointer (body key (meanwhile db)) in
              elim (Bool-cases agreeing) [
                | inl g ↦
                    let same : meanwhile db ≡ db' = ground (arith, f, g) in
                    inl (
                      subst (λ x. body key x ≡ some (Cache.artifact pointer)) same
                        (agrees-body pointer (body key (meanwhile db)) g))
                | inr g ↦ ground (arith, f, g)
              ]
        ]
  publish-body key pointer meanwhile db db' (some Cache.no_fields) n t e h = inr refl
  publish-body key pointer meanwhile db db' (some Cache.other_fields) n t e h = cc
  publish-body key pointer meanwhile db db' (some (Cache.artifact p)) n t e h =
      inl (ground (arith, e))

  publish-artifact :
      (key pointer p : Key) (meanwhile : Db → Db) (db db' : Db) (n : ℕ)
      → p ≢ pointer
      → publishing key pointer meanwhile db (some (Cache.artifact p)) n ≢ ok db'
  unfolding publish
  publish-artifact key pointer p meanwhile db db' n ne h = ground arith

  -- A `put` that succeeds leaves its artifact's hash in the ledger, whatever other processes wrote
  -- there between its read and its write, unless the ledger held an empty dictionary for the key.
  -- Where keys have checkpoints of different names: from then on, after any further calls of `put`
  -- for this key and others, and any transactions that leave this key's checkpoint, between those
  -- calls and during them, the hash is still there, and no `put` of a result whose artifact has
  -- another hash succeeds for that key.
  pub put-put :
      (key : Key) (r s : R) (meanwhile other : Db → Db) (files files' more : Files size hash)
      (db db' later last : Db) (c c' d e : Cache) (end : Files size hash)
      → body_of (pointer_text (hash (entry key r))) ≡ Cache.artifact (hash (entry key r))
      → ((j k : Key) → name_of j ≡ name_of k → j ≡ k)
      → body key db ≢ some Cache.no_fields
      → hash (entry key r) ≢ hash (entry key s)
      → putting key r meanwhile files db c ≡ (ok (db', c'), files')
      → Later size hash entry cache_key_of result_of name_of pointer_text body_of key db' later
      → (body key later ≡ some (Cache.artifact (hash (entry key r))))
        × (putting key s other more later d ≢ (ok (last, e), end))
  put-put key r s meanwhile other files files' more db db' later last c c' d e end text own full ne
        h l =
      let (_, published, _) =
        put-eq-ok size hash entry cache_key_of result_of name_of pointer_text body_of key r
          meanwhile files files' db db' c c' h in
      let written : body key db' ≡ some (Cache.artifact (hash (entry key r))) =
        elim (publish-body key (hash (entry key r)) meanwhile db db' (body key db)
          (read_checkpoint (name_of key) db).1 text refl published) [
            | inl w ↦ w
            | inr empty ↦ absurd (full empty)
          ] in
      let held =
        Later-body size hash entry cache_key_of result_of name_of pointer_text body_of key
          (hash (entry key r)) db' later own written l in
      (
        held,
        λ k.
            let (_, again, _) =
              put-eq-ok size hash entry cache_key_of result_of name_of pointer_text body_of key s
                other more end later last d e k in
            publish-artifact key (hash (entry key s)) (hash (entry key r)) other later last
              (read_checkpoint (name_of key) later).1 ne
              (ap
                  (λ b.
                    publishing key (hash (entry key s)) other later b
                      (read_checkpoint (name_of key) later).1)
                  (sym held)
                ∙ again),
      )
