-- ===== src/Api/Handlers.antt =====
-- internal/api/server.go: the checks before a handler, `withAPIKey` and `withAdmin`, and the
-- handlers of the routes that read or change a stored row by its id, from the parts of a request
-- that they read to the reply.
pub mod Served
use web_scraper.Base.{
  ℕ, Bool, true, false, not, Option, none, some, List, [], ◌∷◌, Text, codes, text_eq, is_empty,
  if◌then◌else◌,
}
use web_scraper.Model.{Job, Worker}
use web_scraper.Store.Db.{Db, StoreError, no_rows, Result, ok, err, Sql, Link, up, Postgres}
use web_scraper.Store.Keys.{
  ApiKey, authenticate_api_key, revoke_api_key, list_api_keys, list_workers, get_job_by_api_key,
  ApiKeyRecord,
}
use web_scraper.Api.Limiter.{RateLimiter, allow}
use web_scraper.Go.Strings.{trim_space}
use web_scraper.Api.Header.{bearer}
use web_scraper.Api.Reply.{
  Reply, reply, write_error, is_ok, job_body, key_list, revoked, worker_list,
}

-- What the checks before a handler decide: a reply, or to run the handler with this key.
pub data Gate : Type 0 where
  stopped : Reply → Gate
  serve : ApiKey → Gate

abbrev is_no_rows : StoreError → Bool
is_no_rows no_rows = true
is_no_rows _ = false

-- `withAdmin`: none is to run the handler
unfoldable pub with_admin : Text → Text → Option Reply
with_admin admin_token header =
    if is_empty admin_token
    then some (write_error 503 "ADMIN_TOKEN is not configured")
    else if text_eq (bearer header) admin_token
    then none
    else some (write_error 401 "invalid admin token")

abbrev list_reply : Result (List ApiKeyRecord) → Reply
list_reply (ok keys) = reply 200 (key_list keys)
list_reply (err _) = write_error 500 "could not list API keys"

abbrev workers_reply : Result (List Worker) → Reply
workers_reply (ok workers) = reply 200 (worker_list workers)
workers_reply (err _) = write_error 500 "could not list workers"

-- `readyz`, by how the ping ends
unfoldable pub ready : Link → Reply
ready up = reply 200 is_ok
ready _ = write_error 503 "database unavailable"

unfoldable pub workers : Link → Db → Reply
workers link db = workers_reply (list_workers link db).0

-- after `AuthenticateAPIKey`
unfoldable pub limit_gate : ℕ → Result ApiKey → RateLimiter → Gate × RateLimiter
limit_gate now (err _) l = (stopped (write_error 401 "invalid API key"), l)
limit_gate now (ok key) l =
    let (go, l') = allow key.id key.rate_limit_per_minute now l in
    if go then (serve key, l') else (stopped (write_error 429 "rate limit exceeded"), l')

module _ (pg : Postgres) (hash : Text → Text) where
  -- `tick` is the limiter's clock, `now` the server's
  unfoldable pub with_api_key : Link → ℕ → ℕ → Text → RateLimiter → Db → (Gate × RateLimiter) × Db
  unfolding limit_gate
  with_api_key link now tick header l db = elim (is_empty (bearer header)) [
    | true ↦ ((stopped (write_error 401 "missing bearer API key"), l), db)
    | false ↦
        let (r, db') = authenticate_api_key pg hash link now (bearer header) db in
        (limit_gate tick r l, db')
  ]

  abbrev pub job_reply : Result Job → Reply
  job_reply (ok job) = reply 200 (job_body job)
  job_reply (err e) =
      if is_no_rows e then write_error 404 "job not found" else write_error 500 "could not read job"

  -- GET /v1/jobs/{id}
  unfoldable pub job : Link → Text → Text → Db → Reply × Db
  job link id header db = elim (is_empty (bearer header)) [
    | true ↦ (write_error 401 "missing bearer API key", db)
    | false ↦
        let (r, db') = get_job_by_api_key pg hash link id (bearer header) db in (job_reply r, db')
  ]

  abbrev revoke_reply : Text → Result (Unit {0}) → Reply
  revoke_reply id (ok _) = reply 200 (revoked id)
  revoke_reply id (err e) =
      if is_no_rows e
      then write_error 404 "API key not found"
      else write_error 500 "could not revoke API key"

  -- DELETE /admin/api-keys/{id}
  unfoldable pub revoke_key : Link → ℕ → Text → Db → Reply × Db
  revoke_key link now raw_id db = elim (is_empty (trim_space raw_id)) [
    | true ↦ (write_error 400 "API key id is required", db)
    | false ↦
        let (r, db') = revoke_api_key pg hash link now (trim_space raw_id) db in
        (revoke_reply (trim_space raw_id) r, db')
  ]

  -- GET /admin/api-keys
  unfoldable pub list_keys : Link → Db → Reply
  list_keys link db = list_reply (list_api_keys pg hash link db).0
