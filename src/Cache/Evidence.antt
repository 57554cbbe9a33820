-- ===== src/Cache/Evidence.antt =====
-- What `get` of src/kdiff/core/cache.py returns, and what `put` leaves behind.
use knowledge_diffusion.Base.{
  Key, Option, Option-cases, Result, Result-cases, String, ap, arith, inl, inr, ok, some, ℕ, ◌∙◌,
  ◌≡◌, ◌≤◌,
}
use knowledge_diffusion.Ledger.{Db}
use knowledge_diffusion.Ledger.Checkpoints.{read_checkpoint}
use knowledge_diffusion.Artifacts.{Files, get_bytes, put_bytes}
use knowledge_diffusion.Artifacts.Contents.{get_bytes-hash, put_bytes-read}
use knowledge_diffusion.Cache
use knowledge_diffusion.Cache.{
  Cache, CacheError, Body, Tier, get, put, locate, publish, remember, local_pointer,
}
use knowledge_diffusion.Cache.Recency.{remember-local_pointer}

module _ {Data R : Type 0} (size : Data → ℕ) (hash : Data → Key) (entry : Key → R → Data)
    (cache_key_of : Data → Option Key) (result_of : Data → Option R) (name_of : Key → Key)
    (pointer_text : Key → String) (body_of : String → Body) where
  abbrev getting :
      Key → Option Key → Files size hash → Db → Cache → Result CacheError (Option R × Cache)
  getting = get size hash entry cache_key_of result_of name_of pointer_text body_of

  abbrev putting :
      Key
      → R
      → (Db → Db)
      → Files size hash
      → Db
      → Cache
      → Result CacheError (Db × Cache) × Files size hash
  putting = put size hash entry cache_key_of result_of name_of pointer_text body_of

  abbrev locating : Key → Option Key → Db → Cache → Option (Key × Tier)
  locating = locate size hash entry cache_key_of result_of name_of pointer_text body_of

  abbrev publishing : Key → Key → (Db → Db) → Db → Option Body → ℕ → Result CacheError Db
  publishing = publish size hash entry cache_key_of result_of name_of pointer_text body_of

  abbrev body : Key → Db → Option Body
  body = Cache.durable_body size hash entry cache_key_of result_of name_of pointer_text body_of

  abbrev serving : Key → Key → Tier → Data → Cache → Result CacheError (Option R × Cache)
  serving = Cache.serve size hash entry cache_key_of result_of name_of pointer_text body_of

  -- Bytes that the store holds under their hash, whose own key is the one asked for.
  abbrev pub Evidence : Key → R → Files size hash → Type 0
  Evidence key r files =
      (pointer : Key) × (d : Data) × (get_bytes size hash pointer files ≡ ok d)
      × (hash d ≡ pointer)
      × (cache_key_of d ≡ some key)
      × (result_of d ≡ some r)

  serve-eq-ok :
      (key pointer : Key) (tier : Tier) (d : Data) (c c' : Cache) (r : R)
      → serving key pointer tier d c ≡ ok (some r, c')
      → (cache_key_of d ≡ some key) × (result_of d ≡ some r)
  serve-eq-ok key pointer tier d c c' r h = elim (Option-cases (cache_key_of d)) [
    | inl e ↦ ground (arith, e)
    | inr (k, e) ↦ elim (Option-cases (result_of d)) [
      | inl f ↦ ground (arith, e, f)
      | inr (s, f) ↦ (ground (arith, e, f), ground (arith, e, f))
    ]
  ]

  -- Whatever memory, Redis and the ledger answer, a result that `get` returns is that of an
  -- artifact of the store whose bytes have the hash that names them and carry the key asked for.
  pub get-Evidence :
      (key : Key) (answer : Option Key) (files : Files size hash) (db : Db) (c c' : Cache) (r : R)
      → getting key answer files db c ≡ ok (some r, c')
      → Evidence key r files
  unfolding get
  get-Evidence key answer files db c c' r h = elim (Option-cases (locating key answer db c)) [
    | inl e ↦ ground (arith, e)
    | inr ((pointer, tier), e) ↦ elim (Result-cases (get_bytes size hash pointer files)) [
      | inl (d, f) ↦
          let served : serving key pointer tier d c ≡ ok (some r, c') = ground (arith, e, f) in
          let (k, s) = serve-eq-ok key pointer tier d c c' r served in
          (pointer, d, f, get_bytes-hash size hash pointer files d f, k, s)
      | inr (x, f) ↦ ground (arith, e, f)
    ]
  ]

  serve_entry :
      (key pointer : Key) (tier : Tier) (d : Data) (c : Cache) (r : R)
      → cache_key_of d ≡ some key
      → result_of d ≡ some r
      → (c' : Cache) × (serving key pointer tier d c ≡ ok (some r, c'))
  serve_entry key pointer tier d c r e f = (
    remember key pointer (record c { hits = Cache.count_hit tier c.hits }),
    rw (e, f) (ground arith),
  )

  -- A successful `put` has stored the entry and remembers its hash.
  pub put-eq-ok :
      (key : Key) (r : R) (meanwhile : Db → Db) (files files' : Files size hash) (db db' : Db)
      (c c' : Cache)
      → putting key r meanwhile files db c ≡ (ok (db', c'), files')
      → (put_bytes size hash (entry key r) files ≡ ok (hash (entry key r), files'))
        × (publishing key
              (hash (entry key r))
              meanwhile
              db
              (body key db)
              (read_checkpoint (name_of key) db).1
            ≡ ok db')
        × (c' ≡ remember key (hash (entry key r)) c)
  unfolding put
  put-eq-ok key r meanwhile files files' db db' c c' h =
      elim (Result-cases (put_bytes size hash (entry key r) files)) [
        | inl ((sha, fs), e) ↦
            let same = (put_bytes-read size hash (entry key r) files fs sha e).0 in
            elim (Result-cases (
              publishing key sha meanwhile db (body key db) (read_checkpoint (name_of key) db).1)) [
                | inl (d, f) ↦ (
                  ground (arith, e, f, same),
                  ground (arith, e, f, same),
                  ground (arith, e, f, same),
                )
                | inr (x, f) ↦ ground (arith, e, f)
              ]
        | inr (x, e) ↦ ground (arith, e)
      ]

  locate-local :
      (key pointer : Key) (answer : Option Key) (db : Db) (c : Cache)
      → local_pointer c key ≡ some pointer
      → locating key answer db c ≡ some (pointer, Cache.in_memory)
  unfolding locate
  locate-local key pointer answer db c e = rw e

  get-local :
      (key pointer : Key) (answer : Option Key) (files : Files size hash) (db : Db) (c : Cache)
      (d : Data) (r : R)
      → local_pointer c key ≡ some pointer
      → get_bytes size hash pointer files ≡ ok d
      → cache_key_of d ≡ some key
      → result_of d ≡ some r
      → (c' : Cache) × (getting key answer files db c ≡ ok (some r, c'))
  unfolding get
  get-local key pointer answer files db c d r e f k s =
      let (c', served) = serve_entry key pointer Cache.in_memory d c r k s in
      (c', rw (locate-local key pointer answer db c e, f) served)

  -- Where the JSON text of an entry reads back as the entry, no other bytes have its hash and the
  -- capacity is not 0: after a successful `put` of a result, `get` returns that result for its
  -- key, whatever Redis answers.
  pub put-get :
      (key : Key) (r : R) (meanwhile : Db → Db) (files files' : Files size hash) (db db' : Db)
      (c c' : Cache) (answer : Option Key)
      → cache_key_of (entry key r) ≡ some key
      → result_of (entry key r) ≡ some r
      → ((d : Data) → hash d ≡ hash (entry key r) → d ≡ entry key r)
      → 1 ≤ c.capacity
      → putting key r meanwhile files db c ≡ (ok (db', c'), files')
      → (c'' : Cache) × (getting key answer files' db' c' ≡ ok (some r, c''))
  put-get key r meanwhile files files' db db' c c' answer k s alone room h =
      let (stored, _, kept) = put-eq-ok key r meanwhile files files' db db' c c' h in
      let (_, (d, found, same)) =
        put_bytes-read size hash (entry key r) files files' (hash (entry key r)) stored in
      let near = (remember-local_pointer key (hash (entry key r)) c room).0 in
      get-local key (hash (entry key r)) answer files' db' c' (entry key r) r
        (ap (λ x. local_pointer x key) kept ∙ near) (found ∙ ap ok (alone d same)) k s
