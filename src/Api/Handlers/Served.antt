-- ===== src/Api/Handlers/Served.antt =====
-- Whose requests reach a handler, and who reads a job.
use web_scraper.Base.{
  text_eq_iff, ℕ, ◌≡◌, refl, true, false, Option, none, some, Text, is_empty, arith, Among,
  find_where, find_where-Among, Bool-cases, inl, inr,
}
use web_scraper.Model.{Job}
use web_scraper.Store.Db.{
  no_rows, claim_lost, missing_claim, name_required, db_error, KeyRow, JobRow, Db, Result, ok, err,
  Link, up, refused, reply_lost, Postgres,
}
use web_scraper.Store.Jobs.{scan_job}
use web_scraper.Store.Keys.{
  with_key, ApiKey, unlocks, scan_key, authenticate_api_key, get_job_by_api_key,
}
use web_scraper.Store.Keys.Laws.{get_job_by_api_key-authorized}
use web_scraper.Api.Limiter.{RateLimiter, allow}
use web_scraper.Api.Header.{bearer}
use web_scraper.Api.Reply.{reply, job_body}
use web_scraper.Api.Handlers.{job_reply, serve, limit_gate, with_api_key, job}

limit_gate-serves :
    (tick : ℕ) (r : Result ApiKey) (l l' : RateLimiter) (key : ApiKey)
    → limit_gate tick r l ≡ (serve key, l')
    → (r ≡ ok key) × (allow key.id key.rate_limit_per_minute tick l ≡ (true, l'))
unfolding limit_gate
limit_gate-serves tick (err e) l l' key h = ground arith
limit_gate-serves tick (ok k) l l' key h = ground arith

module _ (pg : Postgres) (hash : Text → Text) where
  with_api_key-passes :
      (link : Link) (now tick : ℕ) (header : Text) (l l' : RateLimiter) (db : Db) (key : ApiKey)
      → (with_api_key pg hash link now tick header l db).0 ≡ (serve key, l')
      → (is_empty (bearer header) ≡ false)
        × ((authenticate_api_key pg hash link now (bearer header) db).0 ≡ ok key)
        × (allow key.id key.rate_limit_per_minute tick l ≡ (true, l'))
  unfolding with_api_key
  with_api_key-passes link now tick header l l' db key h = ground (
    arith,
    limit_gate-serves tick (authenticate_api_key pg hash link now (bearer header) db).0 l l' key,
  )

  key_found :
      (o : Option KeyRow) (key : ApiKey)
      → with_key pg hash o (λ k. ok (scan_key pg hash k)) ≡ ok key
      → (k : KeyRow) × (o ≡ some k) × (scan_key pg hash k ≡ key)
  key_found none key h = cc
  key_found (some k) key h = (k, refl, cc)

  authenticated :
      (link : Link) (now : ℕ) (raw : Text) (db : Db) (key : ApiKey)
      → (authenticate_api_key pg hash link now raw db).0 ≡ ok key
      → (k : KeyRow) × (find_where (unlocks (hash raw)) db.api_keys ≡ some k)
        × (scan_key pg hash k ≡ key)
  unfolding authenticate_api_key
  authenticated up now raw db key h = key_found _ key h
  authenticated refused now raw db key h = cc
  authenticated reply_lost now raw db key h = cc

  pub unlocks-unrevoked :
      (h : Text) (k : KeyRow) → unlocks h k ≡ true → (k.key_hash ≡ h) × (k.revoked_at ≡ none)
  unfolding unlocks
  unlocks-unrevoked h k t = ground (arith, text_eq_iff k.key_hash h)

  -- A handler behind an API key runs only for a request whose header holds a key that is stored and
  -- not revoked, and which the limiter lets through under that key's own id and limit.
  pub with_api_key-served :
      (link : Link) (now tick : ℕ) (header : Text) (l l' : RateLimiter) (db : Db) (key : ApiKey)
      → (with_api_key pg hash link now tick header l db).0 ≡ (serve key, l')
      → (k : KeyRow) × Among k db.api_keys
        × (k.key_hash ≡ hash (bearer header))
        × (k.revoked_at ≡ none)
        × (scan_key pg hash k ≡ key)
        × (allow key.id key.rate_limit_per_minute tick l ≡ (true, l'))
  with_api_key-served link now tick header l l' db key h =
      let (_, a, g) = with_api_key-passes link now tick header l l' db key h in
      let (k, f, e) = authenticated link now (bearer header) db key a in
      let (m, t) = find_where-Among (unlocks (hash (bearer header))) db.api_keys k f in
      let (same, unrevoked) = unlocks-unrevoked (hash (bearer header)) k t in
      (k, m, same, unrevoked, e, g)

  job_answered :
      (r : Result Job)
      → (job_reply pg hash r).status ≡ 200
      → (j : Job) × (r ≡ ok j) × (job_reply pg hash r ≡ reply 200 (job_body j))
  job_answered (ok j) h = (j, refl, refl)
  job_answered (err no_rows) h = absurd (omega (arith, h))
  job_answered (err claim_lost) h = absurd (omega (arith, h))
  job_answered (err missing_claim) h = absurd (omega (arith, h))
  job_answered (err name_required) h = absurd (omega (arith, h))
  job_answered (err db_error) h = absurd (omega (arith, h))

  read_up :
      (link : Link) (id raw : Text) (db : Db) (j : Job)
      → (get_job_by_api_key pg hash link id raw db).0 ≡ ok j
      → (get_job_by_api_key pg hash up id raw db).0 ≡ ok j
  unfolding get_job_by_api_key
  read_up up id raw db j h = h
  read_up refused id raw db j h = cc
  read_up reply_lost id raw db j h = cc

  job_found :
      (link : Link) (id header : Text) (db : Db)
      → (job pg hash link id header db).0.status ≡ 200
      → (j : Job) × ((get_job_by_api_key pg hash link id (bearer header) db).0 ≡ ok j)
        × ((job pg hash link id header db).0 ≡ reply 200 (job_body j))
  unfolding job
  job_found link id header db h = elim (Bool-cases (is_empty (bearer header))) [
    | inl e ↦ absurd (omega (arith, rw (e, job) at h))
    | inr e ↦
        rw (e, job)
          (job_answered (get_job_by_api_key pg hash link id (bearer header) db).0
            (rw (e, job) at h))
  ]

  pub job_unchanged :
      (link : Link) (id header : Text) (db : Db) → (job pg hash link id header db).1 ≡ db
  unfolding job get_job_by_api_key
  job_unchanged link id header db = ground arith

  -- Polling a job changes no table, whatever the round trip does, and the status 200 comes only
  -- with a row that has the id in the path, and the body is that row's job, for a bearer of the key
  -- that requested it, which is not revoked.
  pub job-authorized :
      (link : Link) (id header : Text) (db : Db)
      → ((job pg hash link id header db).1 ≡ db)
        × ((job pg hash link id header db).0.status ≡ 200
            → (r : JobRow) × (k : KeyRow) × Among r db.jobs
              × Among k db.api_keys
              × (pg.parse_uuid id ≡ some r.id)
              × (k.id ≡ r.requested_by)
              × (k.key_hash ≡ hash (bearer header))
              × (k.revoked_at ≡ none)
              × ((job pg hash link id header db).0 ≡ reply 200 (job_body (scan_job pg r))))
  job-authorized link id header db = (
    job_unchanged link id header db,
    λ h.
        let (j, e, answer) = job_found link id header db h in
        let (r, k, m, n, owner, same, unrevoked, asked, seen) =
          get_job_by_api_key-authorized pg hash id (bearer header) db j
            (read_up link id (bearer header) db j e) in
        (r, k, m, n, asked, owner, same, unrevoked, rw (← seen) answer),
  )
