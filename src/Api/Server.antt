-- ===== src/Api/Server.antt =====
-- internal/api/server.go: `New`, its table of routes with the checks in front of each handler. The
-- pattern that net/http finds for a request comes with its wildcards. Between the check of a key
-- and the handler other processes may act.
pub mod Refines
pub mod Guarded
use web_scraper.Base.{ℕ, Bool, true, false, Option, none, some, List, Text}
use web_scraper.Base.Int.{ℤ}
use web_scraper.Store.Db.{StoreError, Db, Link, Postgres}
use web_scraper.Store.Keys.{ApiKey}
use web_scraper.Api.Limiter.{RateLimiter}
use web_scraper.Api.Reply.{Reply, reply, is_ok}
use web_scraper.Api.Handlers.{
  Gate, stopped, with_admin, with_api_key, ready, workers, job, revoke_key, list_keys,
}
use web_scraper.Api.Await.{Event}
use web_scraper.Api.Search.{SearchBody, search, get_history, create_key}

-- the patterns of the table
pub data Pattern : Type 0 where
  healthz readyz search_route key_creation key_listing worker_listing : Pattern
  job_route key_revocation : Text → Pattern
  history_route : Text → Text → Pattern

-- the parts of a request that the handlers read: the header Authorization, the content type, the
-- body of a search or of the creation of a key, and the parameters compact and days
pub record Request : Type 0 where
  pub authorization : Text
  pub content_type : Text
  pub search_body : SearchBody
  pub key_body : Option (Text × ℤ)
  pub compact : Text
  pub days : Text

-- what the outside adds to a request: how the round trips end, the clocks, a fresh id and the bytes
-- of a fresh key, what others do after the check of the key, and what a search waits for
pub record Surroundings : Type 0 where
  pub key_link : Link
  pub link : Link
  pub tick : ℕ
  pub key_now : ℕ
  pub now : ℕ
  pub fresh : ℕ
  pub secret : Option Text
  pub others : Db → Db
  pub events : List Event

-- the reply, if one is written, with the limiter and the tables after the request
abbrev pub Served : Type 0
Served = (Option Reply × RateLimiter) × Db

-- a handler after `withAPIKey` has decided
abbrev pub after_gate : (ApiKey → Db → Option Reply × Db) → Gate → RateLimiter → Db → Served
after_gate handler (stopped r) l db = ((some r, l), db)
after_gate handler (Gate.serve key) l db = let (r, db') = handler key db in ((r, l), db')

-- a handler behind `withAdmin`
abbrev pub behind_admin : Option Reply → (Db → Reply × Db) → RateLimiter → Db → Served
behind_admin (some r) handler l db = ((some r, l), db)
behind_admin none handler l db = let (r, db') = handler db in ((some r, l), db')

module _ (pg : Postgres) (hash : Text → Text) (message : StoreError → Text)
    (admin_token : Text) where
  -- a handler behind `withAPIKey`, with the check
  abbrev pub behind_key :
      Request → Surroundings → (ApiKey → Db → Option Reply × Db) → RateLimiter → Db → Served
  behind_key q e handler l db =
      let ((gate, l'), db') =
        with_api_key pg hash e.key_link e.key_now e.tick q.authorization l db in
      after_gate handler gate l' db'

  unfoldable pub serve : Pattern → Request → Surroundings → RateLimiter → Db → Served
  unfolding with_admin ready revoke_key list_keys
  serve healthz q e l db = ((some (reply 200 is_ok), l), db)
  serve readyz q e l db = ((some (ready e.link), l), db)
  serve search_route q e l db =
      behind_key q e
        (λ key d.
          search pg q.content_type q.search_body q.compact e.link e.fresh e.now key.id e.events
            (e.others d))
        l db
  serve (job_route id) q e l db =
      let (r, db') = job pg hash e.link id q.authorization db in ((some r, l), db')
  serve (history_route marketplace id) q e l db =
      behind_key q e
        (λ key d.
          (some (get_history pg e.link e.now marketplace id q.days (e.others d)), e.others d))
        l db
  serve key_creation q e l db =
      behind_admin (with_admin admin_token q.authorization)
        (create_key pg hash message e.link e.fresh e.now e.secret q.key_body) l db
  serve key_listing q e l db =
      behind_admin (with_admin admin_token q.authorization) (λ d. (list_keys pg hash e.link d, d)) l
        db
  serve (key_revocation id) q e l db =
      behind_admin (with_admin admin_token q.authorization) (revoke_key pg hash e.link e.now id) l
        db
  serve worker_listing q e l db =
      behind_admin (with_admin admin_token q.authorization) (λ d. (workers e.link d, d)) l db
