-- ===== src/Api/Server/Guarded.antt =====
-- What a request may change, and on whose authority.
use web_scraper.Base.{
  ℕ, ◌≡◌, refl, ◌⊎◌, inl, inr, Bool, true, false, Option, none, some, Text, Bool-cases,
  Option-cases, is_empty, text_eq, text_eq_iff, find_where, find_where-none, find_where-Among,
  update_where-none, Among,
}
use web_scraper.Store.Db.{
  StoreError, KeyRow, Db, Link, up, refused, reply_lost, over, err, no_rows, db_error, Postgres,
}
use web_scraper.Store.Keys.{ApiKey, authenticate_api_key, unlocks}
use web_scraper.Api.Header.{bearer}
use web_scraper.Api.Limiter.{RateLimiter}
use web_scraper.Api.Reply.{Reply, write_error}
use web_scraper.Api.Handlers.{
  stopped, with_admin, with_api_key, limit_gate, revoke_key, list_keys, workers,
}
use web_scraper.Api.Handlers.Served.{job_unchanged, unlocks-unrevoked}
use web_scraper.Api.Search.{create_key}
use web_scraper.Api.Server.{
  Pattern, healthz, readyz, search_route, job_route, history_route, key_creation, key_listing,
  key_revocation, worker_listing, Request, Surroundings, behind_admin, behind_key, serve,
}

-- the routes that change the tables, each behind its check
abbrev pub is_keyed : Pattern → Bool
is_keyed search_route = true
is_keyed (history_route marketplace id) = true
is_keyed _ = false

abbrev pub is_admins : Pattern → Bool
is_admins key_creation = true
is_admins (key_revocation id) = true
is_admins _ = false

module _ (pg : Postgres) (hash : Text → Text) where
  authenticate-unknown :
      (link : Link) (now : ℕ) (raw : Text) (db : Db)
      → find_where (unlocks (hash raw)) db.api_keys ≡ none
      → (e : StoreError) × (authenticate_api_key pg hash link now raw db ≡ (err e, db))
  unfolding authenticate_api_key over
  authenticate-unknown up now raw db h = (
    no_rows,
    rw
        (
          h,
          update_where-none (unlocks (hash raw)) _ db.api_keys
              (find_where-none (unlocks (hash raw)) db.api_keys h),
        )
        refl,
  )
  authenticate-unknown refused now raw db h = (db_error, refl)
  authenticate-unknown reply_lost now raw db h = (
    db_error,
    rw
        (update_where-none (unlocks (hash raw)) _ db.api_keys
          (find_where-none (unlocks (hash raw)) db.api_keys h))
        refl,
  )

  -- Without a key that unlocks, the check stops the request and changes nothing.
  with_api_key-unknown :
      (link : Link) (now tick : ℕ) (header : Text) (l : RateLimiter) (db : Db)
      → find_where (unlocks (hash (bearer header))) db.api_keys ≡ none
      → (r : Reply) × (with_api_key pg hash link now tick header l db ≡ ((stopped r, l), db))
  unfolding limit_gate with_api_key
  with_api_key-unknown link now tick header l db h = elim (Bool-cases (is_empty (bearer header))) [
    | inl e ↦ (write_error 401 "missing bearer API key", rw (e, with_api_key) refl)
    | inr e ↦
        let (x, f) = authenticate-unknown link now (bearer header) db h in
        (write_error 401 "invalid API key", rw (e, with_api_key) (rw f refl))
  ]

  -- A key of the request is stored and not revoked.
  abbrev pub HasKey : Request → Db → Type 0
  HasKey q db =
      (k : KeyRow) × Among k db.api_keys
      × (k.key_hash ≡ hash (bearer q.authorization))
      × (k.revoked_at ≡ none)

  module _ (message : StoreError → Text) (admin_token : Text) where
    -- The request bears the administrator's token, and there is one.
    abbrev pub HasToken : Request → Type 0
    HasToken q = (is_empty admin_token ≡ false) × (bearer q.authorization ≡ admin_token)

    abbrev Allowed : Pattern → Request → Db → Db → Type 0
    Allowed route q db db' =
        (db' ≡ db)
        ⊎ ((is_keyed route ≡ true) × HasKey q db)
        ⊎ ((is_admins route ≡ true) × HasToken q)

    behind_key-Allowed :
        (route : Pattern) (q : Request) (e : Surroundings)
        (handler : ApiKey → Db → Option Reply × Db) (l : RateLimiter) (db : Db)
        → is_keyed route ≡ true
        → Allowed route q db (behind_key pg hash message admin_token q e handler l db).1
    behind_key-Allowed route q e handler l db i =
        let found = find_where (unlocks (hash (bearer q.authorization))) db.api_keys in
        elim (Option-cases found) [
          | inl h ↦
              let (r, g) =
                with_api_key-unknown e.key_link e.key_now e.tick q.authorization l db h in
              inl (rw g refl)
          | inr (k, h) ↦
              let (m, t) =
                find_where-Among (unlocks (hash (bearer q.authorization))) db.api_keys k h in
              let (same, unrevoked) =
                unlocks-unrevoked pg hash (hash (bearer q.authorization)) k t in
              inr (inl (i, (k, m, same, unrevoked)))
        ]

    behind_admin-Allowed :
        (route : Pattern) (q : Request) (handler : Db → Reply × Db) (l : RateLimiter) (db : Db)
        → is_admins route ≡ true
        → Allowed route q db (behind_admin (with_admin admin_token q.authorization) handler l db).1
    unfolding with_admin
    behind_admin-Allowed route q handler l db i = elim (Bool-cases (is_empty admin_token)) [
      | inl e ↦ inl (rw e refl)
      | inr e ↦ elim (Bool-cases (text_eq (bearer q.authorization) admin_token)) [
        | inl t ↦ inr (inr (i, (e, (text_eq_iff (bearer q.authorization) admin_token).0 t)))
        | inr t ↦ inl (rw (e, t) refl)
      ]
    ]

    reads_only :
        (o : Option Reply) (f : Db → Reply) (l : RateLimiter) (db : Db)
        → (behind_admin o (λ d. (f d, d)) l db).1 ≡ db
    reads_only none f l db = refl
    reads_only (some r) f l db = refl

    -- A request changes nothing, or it is a search or asks for a history, with a key that is stored
    -- and not revoked, or it creates or revokes a key, with the administrator's token, which is not
    -- empty; whatever else it holds, and however its round trips end.
    pub serve-Guarded :
        (route : Pattern) (q : Request) (e : Surroundings) (l : RateLimiter) (db : Db)
        → let db' = (serve pg hash message admin_token route q e l db).1 in
          (db' ≡ db)
          ⊎ ((is_keyed route ≡ true) × HasKey q db)
          ⊎ ((is_admins route ≡ true) × HasToken q)
    unfolding serve
    serve-Guarded healthz q e l db = inl refl
    serve-Guarded readyz q e l db = inl refl
    serve-Guarded search_route q e l db = behind_key-Allowed search_route q e _ l db refl
    serve-Guarded (job_route id) q e l db = inl (job_unchanged pg hash e.link id q.authorization db)
    serve-Guarded (history_route marketplace id) q e l db =
        behind_key-Allowed (history_route marketplace id) q e _ l db refl
    serve-Guarded key_creation q e l db =
        behind_admin-Allowed key_creation q
          (create_key pg hash message e.link e.fresh e.now e.secret q.key_body) l db refl
    serve-Guarded key_listing q e l db =
        inl (reads_only (with_admin admin_token q.authorization) (list_keys pg hash e.link) l db)
    serve-Guarded (key_revocation id) q e l db =
        behind_admin-Allowed (key_revocation id) q (revoke_key pg hash e.link e.now id) l db refl
    serve-Guarded worker_listing q e l db =
        inl (reads_only (with_admin admin_token q.authorization) (workers e.link) l db)
