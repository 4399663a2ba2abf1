-- ===== src/System/Answered.antt =====
-- A search from its job's creation to its answer.
use web_scraper.Base.{
  ℕ, suc, ◌≡◌, refl, ap, ◌∙◌, Bool, true, false, ◌&&◌, some, List, [], ◌∷◌, Text, arith, is_empty,
  Among, Distinct, update_where, count_where, find_where, find_where_unique, count_where_unique,
  Among-update_where_picked, Distinct-update_where, ◌==◌, ==-refl,
}
use web_scraper.Model.{Listing, Job, complete}
use web_scraper.Store.Db.{StoreError, JobRow, Db, ok, up, Postgres}
use web_scraper.Store.Jobs.{
  claim_job, get_job, next_queued, set_running, set_complete, scan_claim, scan_job, owned, has_id,
}
use web_scraper.Store.Complete.Laws.{completed}
use web_scraper.Store.Lifecycle.{claim, step, run}
use web_scraper.Store.Lifecycle.Edges.{next_queued-free}
use web_scraper.Store.Lifecycle.Invariant.{IsValid, run-IsValid}
use web_scraper.Worker.{Attempt, listings, process_job}
use web_scraper.Store.Lifecycle.Claimed.{owned-running, owned-id, has_own_id, claim_job-found}
use web_scraper.Worker.Settles.{IsQuiet, expected-listings, process_job-settles}
use web_scraper.Api.Reply.{write_job_json, write_terminal_job}
use web_scraper.Api.Await.{Event, tick, await_job, after_tick}

abbrev wanted : ℕ → ℕ → JobRow → Bool
wanted u key r = has_id u r && JobRow.requested_by r == key

-- a read that finds a row
get_job-found :
    (pg : Postgres) (id requester : Text) (u key : ℕ) (db : Db) (r : JobRow)
    → pg.parse_uuid id ≡ some u
    → pg.parse_uuid requester ≡ some key
    → find_where (wanted u key) db.jobs ≡ some r
    → (get_job pg up id requester db).0 ≡ ok (scan_job pg r)
unfolding get_job
get_job-found pg id requester u key db r i q f = rw (i, get_job) (rw q (rw f refl))

wanted-own : (r : JobRow) → wanted r.id r.requested_by r ≡ true
unfolding has_id
wanted-own r = ground (arith, ==-refl r.id, ==-refl r.requested_by)

wanted-id : (u key : ℕ) (r : JobRow) → wanted u key r ≡ true → r.id ≡ u
unfolding has_id
wanted-id u key r h = ground arith

module _ (pg : Postgres) (message : StoreError → Text) (script : ℕ → Attempt)
    (quiet : (n : ℕ) → IsQuiet (script n)) (db : Db) (r : JobRow) (locked : ℕ → Bool)
    (now end left : ℕ) (w : Text) (l : List Listing) where
  -- the job as the worker gets it, and the tables after the claim and after the job
  abbrev pub job : Job
  job = scan_claim pg (set_running w now r)

  abbrev pub claimed : Db
  claimed = (claim_job pg up locked now w db).1

  abbrev pub settled : Db
  settled = (process_job pg message script (suc left) false up end job w claimed).1

  -- the row in the end
  abbrev pub answered : JobRow
  answered = set_complete l (script 1).now (set_running w now r)

  module _ (valid : IsValid db.jobs) (next : next_queued locked db.jobs ≡ some r)
      (named : is_empty w ≡ false) (first : (script 1).scrape ≡ listings l) where
    claimed-IsValid : IsValid claimed.jobs
    claimed-IsValid =
        unfold run step in run-IsValid pg (λ raw. raw) (claim up locked now w ∷ []) db valid

    claimed_jobs : claimed.jobs ≡ update_where (has_id r.id) (set_running w now) db.jobs
    claimed_jobs = ap (λ x. x.1.jobs) (claim_job-found pg locked now w db r next)

    claimed-Among : Among (set_running w now r) claimed.jobs
    claimed-Among = rw claimed_jobs (
        Among-update_where_picked (has_id r.id) (set_running w now) db.jobs r (has_own_id r)
          (next_queued-free locked db.jobs r next).0)

    claimed-once : count_where (owned r.id w) claimed.jobs ≡ 1
    claimed-once =
        count_where_unique JobRow.id (owned r.id w) claimed.jobs (set_running w now r)
          claimed-IsValid.distinct claimed-Among (owned-running w now r) (owned-id r.id w)

    settled-completed : settled ≡ completed pg r.id (script 1).now job l claimed
    unfolding scan_claim
    settled-completed =
        process_job-settles pg message script quiet r.id end job claimed (pg.parse-show r.id) named
          claimed-once (suc left) (omega arith)
        ∙ expected-listings pg message script r.id end left 1 job [] claimed l first

    settled_jobs :
        settled.jobs ≡ update_where (owned r.id w) (set_complete l (script 1).now) claimed.jobs
    unfolding completed scan_claim
    settled_jobs = ap (λ d. d.jobs) settled-completed

    answered-Among : Among answered settled.jobs
    answered-Among = rw settled_jobs (
        Among-update_where_picked (owned r.id w) (set_complete l (script 1).now) claimed.jobs
          (set_running w now r) (owned-running w now r) claimed-Among)

    settled-Distinct : Distinct JobRow.id settled.jobs
    settled-Distinct = rw settled_jobs (
        Distinct-update_where JobRow.id (owned r.id w) (set_complete l (script 1).now) claimed.jobs
          (λ x m t. refl) claimed-IsValid.distinct)

    get_job-answered :
        (id requester : Text)
        → pg.parse_uuid id ≡ some r.id
        → pg.parse_uuid requester ≡ some r.requested_by
        → (get_job pg up id requester settled).0 ≡ ok (scan_job pg answered)
    get_job-answered id requester i q =
        get_job-found pg id requester r.id r.requested_by settled answered i q (
          find_where_unique JobRow.id (wanted r.id r.requested_by) settled.jobs answered
            settled-Distinct answered-Among (wanted-own answered) (wanted-id r.id r.requested_by))

    -- From the claim to the reply: when a worker claims a job from valid jobs, the process is not
    -- disturbed, and its first scrape brings listings, then a search of the job's owner that is
    -- waiting for it, or whose client polls again, is answered at the next tick whose read goes
    -- through: with status 200 and the job complete with those listings.
    pub search-answered :
        (compact left_early : Bool) (id requester : Text) (waiting : Job) (es : List Event)
        → waiting.id ≡ id
        → pg.parse_uuid id ≡ some r.id
        → pg.parse_uuid requester ≡ some r.requested_by
        → (j : Job) × (j.status ≡ complete)
          × (j.result ≡ l)
          × (j.query ≡ r.query)
          × (await_job pg compact requester waiting (tick left_early up settled ∷ es)
              ≡ some (write_job_json 200 j compact))
    unfolding await_job after_tick write_terminal_job scan_job
    search-answered compact left_early id requester waiting es same i q =
        (scan_job pg answered, refl, refl, refl, rw (same, get_job-answered id requester i q) refl)
