-- ===== src/System/Roundtrip.antt =====
-- A search from the request to its reply.
use web_scraper.Base.{
  ℕ, ◌≡◌, ◌≢◌, refl, ap, ◌∙◌, Bool, false, some, List, [], ◌∷◌, ◌++◌, Text, arith, is_empty, ◌==◌,
  true,
}
use web_scraper.Model.{Listing, Job, SearchRequest, complete}
use web_scraper.Store.Db.{StoreError, Result, ok, Db, up, Postgres}
use web_scraper.Store.Jobs.{next_queued, new_row, row_check, create_job, scan_claim}
use web_scraper.Store.Lifecycle.{create, step, run}
use web_scraper.Store.Lifecycle.Invariant.{IsValid, run-IsValid}
use web_scraper.Worker.{Attempt, listings}
use web_scraper.Worker.Settles.{IsQuiet}
use web_scraper.Api.Reply.{write_job_json}
use web_scraper.Api.Await.{Event, tick, answer, enqueue, await_job}
use web_scraper.Api.Search.{
  SearchBody, passed, check_request, wants_compact, search, search_checked,
}
use web_scraper.Api.Search.Created.{create_job-up}
use web_scraper.System.Answered.{settled, search-answered}

-- With time to wait, the reply is what the loop brings.
answer-waits :
    (pg : Postgres) (compact : Bool) (wait_ms : ℕ) (requester : Text) (job : Job) (es : List Event)
    → wait_ms ≢ 0
    → answer pg compact wait_ms requester (ok job) es ≡ await_job pg compact requester job es
unfolding answer
answer-waits pg compact wait_ms requester job es n = rw (not_zero wait_ms n) refl
  where
    not_zero : (n : ℕ) → n ≢ 0 → (n == 0) ≡ false
    not_zero n h = ground arith

created_lem :
    (pg : Postgres) (fresh now key : ℕ) (key_id : Text) (db : Db) (req : SearchRequest)
    → pg.parse_uuid key_id ≡ some key
    → row_check fresh key req db ≡ true
    → IsValid db.jobs
    → IsValid (db.jobs ++ new_row fresh now req key ∷ [])
created_lem pg fresh now key key_id db req u c v =
    let made : IsValid (create_job pg up fresh now req key_id db).1.jobs =
      unfold run step in run-IsValid pg (λ raw. raw) (create up fresh now req key_id ∷ []) db v in
    rw (ap (λ x. x.1.jobs) (create_job-up pg fresh now key key_id db req u c)) at made

module _ (pg : Postgres) (message : StoreError → Text) where
  -- The whole way of a search: from valid jobs, a request that passes the checks, that the tables
  -- accept and that may wait creates its job; a worker with a name, which then finds this job next
  -- and claims it, is not disturbed, may make at least one attempt and has listings from its first
  -- scrape, settles it; and at the next tick whose read goes through the request is answered with
  -- status 200 and the job, complete with those listings and the query that the checks have let
  -- through. The other round trips go through, too.
  pub search_roundtrip :
      (content_type : Text) (body : SearchBody) (compact key_id w : Text)
      (fresh now key claimed_at end left wait_ms : ℕ) (locked : ℕ → Bool) (early : Bool)
      (es : List Event) (db : Db) (req : SearchRequest) (script : ℕ → Attempt)
      (quiet : (n : ℕ) → IsQuiet (script n)) (l : List Listing)
      → check_request content_type body ≡ passed req wait_ms
      → wait_ms ≢ 0
      → pg.parse_uuid key_id ≡ some key
      → row_check fresh key req db ≡ true
      → IsValid db.jobs
      → let row = new_row fresh now req key in
        let created = record db { jobs = db.jobs ++ row ∷ [] } in
        next_queued locked created.jobs ≡ some row
        → is_empty w ≡ false
        → (script 1).scrape ≡ listings l
        → (j : Job) × (j.status ≡ complete)
          × (j.result ≡ l)
          × (j.query ≡ req.query)
          × ((search pg content_type body compact up fresh now key_id
                (tick early up
                    (settled pg message script quiet created row locked claimed_at end left w l)
                  ∷ es)
                db).0
              ≡ some (write_job_json 200 j (wants_compact compact)))
  unfolding new_row scan_claim search enqueue
  search_roundtrip content_type body compact key_id w fresh now key claimed_at end left wait_ms
        locked early es db req script quiet l checked n u c v next named first =
      let row = new_row fresh now req key in
      let created = record db { jobs = db.jobs ++ row ∷ [] } in
      let rest =
        tick early up (settled pg message script quiet created row locked claimed_at end left w l)
        ∷ es in
      let job = scan_claim pg row in
      let (j, done, mine, same, awaited) =
        search-answered pg message script quiet created row locked claimed_at end left w l
          (created_lem pg fresh now key key_id db req u c v) next named first
          (wants_compact compact) early job.id key_id job es refl (pg.parse-show fresh) u in
      (
        j,
        done,
        mine,
        same,
        ap (λ x. (search_checked pg x (wants_compact compact) up fresh now key_id rest db).0)
              checked
            ∙ ap
                (λ (t : Result Job × Db). answer pg (wants_compact compact) wait_ms key_id t.0 rest)
                (create_job-up pg fresh now key key_id db req u c)
            ∙ answer-waits pg (wants_compact compact) wait_ms key_id job rest n
            ∙ awaited,
      )
