-- ===== src/Api/Server/Refines.antt =====
-- What a request does to the tables is a sequence of calls of the store.
use web_scraper.Base.{ℕ, inl, inr, Bool, Option, none, some, List, Text, Bool-cases, is_empty}
use web_scraper.Base.Int.{ℤ}
use web_scraper.Go.Strings.{trim_space}
use web_scraper.Store.Db.{StoreError, Db, Link, Postgres}
use web_scraper.Store.Keys.{ApiKey}
use web_scraper.Store.Lifecycle.{create, add_key, authenticate, revoke, step}
use web_scraper.Worker.Loop.Refines.{IsRun, IsRun-refl, IsRun-trans, IsRun-one, IsOthers}
use web_scraper.Api.Header.{bearer}
use web_scraper.Api.Limiter.{RateLimiter}
use web_scraper.Api.Reply.{Reply}
use web_scraper.Api.Handlers.{
  Gate, stopped, with_admin, with_api_key, revoke_key, list_keys, workers,
}
use web_scraper.Api.Handlers.Served.{job_unchanged}
use web_scraper.Api.Search.{
  Checked, refused, passed, check_request, search, search_checked, create_key, wants_compact,
}
use web_scraper.Api.Await.{Event, enqueue}
use web_scraper.Api.Server.{
  Pattern, healthz, readyz, search_route, job_route, history_route, key_creation, key_listing,
  key_revocation, worker_listing, Request, Surroundings, after_gate, behind_admin, behind_key,
  serve,
}

module _ (pg : Postgres) (hash : Text → Text) where
  with_api_key-IsRun :
      (link : Link) (now tick : ℕ) (header : Text) (l : RateLimiter) (db : Db)
      → IsRun pg hash db (with_api_key pg hash link now tick header l db).1
  unfolding with_api_key step
  with_api_key-IsRun link now tick header l db = elim (Bool-cases (is_empty (bearer header))) [
    | inl e ↦ rw (e, with_api_key) (IsRun-refl pg hash db)
    | inr e ↦ rw (e, with_api_key) (IsRun-one pg hash (authenticate link now (bearer header)) db)
  ]

  after_gate-IsRun :
      (handler : ApiKey → Db → Option Reply × Db) (gate : Gate) (l : RateLimiter) (db : Db)
      → ((key : ApiKey) (d : Db) → IsRun pg hash d (handler key d).1)
      → IsRun pg hash db (after_gate handler gate l db).1
  after_gate-IsRun handler (stopped r) l db h = IsRun-refl pg hash db
  after_gate-IsRun handler (Gate.serve key) l db h = h key db

  behind_admin-IsRun :
      (o : Option Reply) (handler : Db → Reply × Db) (l : RateLimiter) (db : Db)
      → IsRun pg hash db (handler db).1
      → IsRun pg hash db (behind_admin o handler l db).1
  behind_admin-IsRun none handler l db h = h
  behind_admin-IsRun (some r) handler l db h = IsRun-refl pg hash db

  enqueued-IsRun :
      (r : Checked) (compact : Bool) (link : Link) (fresh now : ℕ) (key_id : Text) (es : List Event)
      (db : Db)
      → IsRun pg hash db (search_checked pg r compact link fresh now key_id es db).1
  unfolding enqueue step
  enqueued-IsRun (refused r) compact link fresh now key_id es db = IsRun-refl pg hash db
  enqueued-IsRun (passed req wait_ms) compact link fresh now key_id es db =
      IsRun-one pg hash (create link fresh now req key_id) db

  search-IsRun :
      (content_type compact key_id : Text) (body : _) (link : Link) (fresh now : ℕ)
      (es : List Event) (db : Db)
      → IsRun pg hash db (search pg content_type body compact link fresh now key_id es db).1
  unfolding search
  search-IsRun content_type compact key_id body link fresh now es db =
      enqueued-IsRun (check_request content_type body) (wants_compact compact) link fresh now key_id
        es db

  create_key-IsRun :
      (message : StoreError → Text) (link : Link) (fresh now : ℕ) (secret : Option Text)
      (body : Option (Text × ℤ)) (db : Db)
      → IsRun pg hash db (create_key pg hash message link fresh now secret body db).1
  unfolding create_key step
  create_key-IsRun message link fresh now secret none db = IsRun-refl pg hash db
  create_key-IsRun message link fresh now secret (some (name, rpm)) db =
      IsRun-one pg hash (add_key link fresh now secret (trim_space name) rpm) db

  revoke_key-IsRun :
      (link : Link) (now : ℕ) (id : Text) (db : Db)
      → IsRun pg hash db (revoke_key pg hash link now id db).1
  unfolding revoke_key step
  revoke_key-IsRun link now id db = elim (Bool-cases (is_empty (trim_space id))) [
    | inl e ↦ rw (e, revoke_key) (IsRun-refl pg hash db)
    | inr e ↦ rw (e, revoke_key) (IsRun-one pg hash (revoke link now (trim_space id)) db)
  ]

  module _ (message : StoreError → Text) (admin_token : Text) where
    behind_key-IsRun :
        (q : Request) (e : Surroundings) (handler : ApiKey → Db → Option Reply × Db)
        (l : RateLimiter) (db : Db)
        → ((key : ApiKey) (d : Db) → IsRun pg hash d (handler key d).1)
        → IsRun pg hash db (behind_key pg hash message admin_token q e handler l db).1
    behind_key-IsRun q e handler l db h =
        let checked = with_api_key pg hash e.key_link e.key_now e.tick q.authorization l db in
        IsRun-trans pg hash db checked.1 _
          (with_api_key-IsRun e.key_link e.key_now e.tick q.authorization l db)
          (after_gate-IsRun handler checked.0.0 checked.0.1 checked.1 h)

    -- Whatever route a request takes, and however its round trips end: while the other processes
    -- change the tables by calls of the store only, so does the request.
    pub serve-IsRun :
        (route : Pattern) (q : Request) (e : Surroundings) (l : RateLimiter) (db : Db)
        → IsOthers pg hash e.others
        → IsRun pg hash db (serve pg hash message admin_token route q e l db).1
    unfolding serve
    serve-IsRun healthz q e l db o = IsRun-refl pg hash db
    serve-IsRun readyz q e l db o = IsRun-refl pg hash db
    serve-IsRun search_route q e l db o = behind_key-IsRun q e _ l db λ key d.
        IsRun-trans pg hash d (e.others d) _ (o d) (
          search-IsRun q.content_type q.compact key.id q.search_body e.link e.fresh e.now e.events
            (e.others d))
    serve-IsRun (job_route id) q e l db o =
        rw (job_unchanged pg hash e.link id q.authorization db) (IsRun-refl pg hash db)
    serve-IsRun (history_route marketplace id) q e l db o = behind_key-IsRun q e _ l db λ key d. o d
    serve-IsRun key_creation q e l db o =
        behind_admin-IsRun (with_admin admin_token q.authorization)
          (create_key pg hash message e.link e.fresh e.now e.secret q.key_body) l db
          (create_key-IsRun message e.link e.fresh e.now e.secret q.key_body db)
    serve-IsRun key_listing q e l db o =
        behind_admin-IsRun (with_admin admin_token q.authorization)
          (λ d. (list_keys pg hash e.link d, d)) l db (IsRun-refl pg hash db)
    serve-IsRun (key_revocation id) q e l db o =
        behind_admin-IsRun (with_admin admin_token q.authorization)
          (revoke_key pg hash e.link e.now id) l db (revoke_key-IsRun e.link e.now id db)
    serve-IsRun worker_listing q e l db o =
        behind_admin-IsRun (with_admin admin_token q.authorization) (λ d. (workers e.link d, d)) l
          db (IsRun-refl pg hash db)
