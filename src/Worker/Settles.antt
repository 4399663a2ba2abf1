-- ===== src/Worker/Settles.antt =====
-- What becomes of a claimed job.
use web_scraper.Base.{
  ℕ, zero, suc, ◌≤◌, ◌≡◌, ◌≢◌, refl, false, some, List, [], Text, arith, is_empty, count_where,
  update_where,
}
use web_scraper.Model.{Listing, Job}
use web_scraper.Store.Db.{StoreError, Db, up, Postgres}
use web_scraper.Store.Jobs.{owned, fail_job, update_owned, set_failed}
use web_scraper.Store.Complete.Laws.{completed}
use web_scraper.Store.Complete.Outcome.{healthy, complete_job-healthy}
use web_scraper.Worker.{
  Attempt, Scrape, listings, scrape_failed, Outcome, scrape_error, end_scrape, attempts, settle,
  process_job, is_last,
}

-- Nothing goes wrong in the round but the scrape itself.
pub record IsQuiet (a : Attempt) : Type 0 where
  pub alone : (db : Db) → a.others db ≡ db
  pub kept : a.signalled ≡ false
  pub running_on : a.stopping ≡ false
  pub runs_ok : a.runs ≡ healthy
  pub commit_ok : a.commit ≡ up

module _ (pg : Postgres) (message : StoreError → Text) where
  open pg use {parse_uuid}

  after_scrape : ℕ → ℕ → Job → Scrape → (Text → Db) → Db → Db
  after_scrape id t job (listings l) rest db = completed pg id t job l db
  after_scrape id t job (scrape_failed m) rest db = rest m

  -- What a quiet run leaves: the job complete with the listings of the first round whose scrape
  -- brought any, or failed with the message of the last.
  unfoldable pub expected : (ℕ → Attempt) → ℕ → ℕ → ℕ → ℕ → Job → Text → Db → Db
  unfolding after_scrape
  expected script id now zero n job m db = record db {
    jobs = update_where (owned id job.worker_id) (set_failed m now) db.jobs;
  }
  expected script id now (suc left) n job m db =
      after_scrape id (script n).now job (script n).scrape
        (λ m'. expected script id now left (suc n) job m' db) db

  -- The first round's scrape brings listings.
  pub expected-listings :
      (script : ℕ → Attempt) (id now left n : ℕ) (job : Job) (m : Text) (db : Db) (l : List Listing)
      → (script n).scrape ≡ listings l
      → expected script id now (suc left) n job m db ≡ completed pg id (script n).now job l db
  unfolding expected after_scrape
  expected-listings script id now left n job m db l h = rw h refl

  module _ (script : ℕ → Attempt) (quiet : (n : ℕ) → IsQuiet (script n)) (id now : ℕ) (job : Job)
      (db : Db) (p : parse_uuid job.id ≡ some id) (w : is_empty job.worker_id ≡ false)
      (c : count_where (owned id job.worker_id) db.jobs ≡ 1) where
    finish : Outcome × Db → Db
    finish r = (settle pg message r.0 false up now job job.worker_id r.1).1

    fail_job_lem :
        (m : Text)
        → (fail_job pg up now job.id job.worker_id m db).1
          ≡ record db { jobs = update_where (owned id job.worker_id) (set_failed m now) db.jobs }
    unfolding fail_job update_owned
    fail_job_lem m = ground (arith, p, c)

    failed_lem :
        (m : Text) (n : ℕ) → finish (scrape_error m, db) ≡ expected script id now zero n job m db
    unfolding finish settle expected
    failed_lem m n = fail_job_lem m

    completed_lem :
        (a : Attempt) (l : List Listing) (left n : ℕ)
        → IsQuiet a
        → finish
            (end_scrape pg a (listings l) job (is_last left) (attempts pg script job left n) db)
          ≡ completed pg id a.now job l db
    unfolding finish settle end_scrape
    completed_lem a l left n q =
        rw (q.runs_ok, q.commit_ok, complete_job-healthy pg a.now id job l db p w, c)

    -- the end of a quiet round, by its scrape's answer, from what the later rounds leave
    end_scrape-quiet :
        (a : Attempt) (s : Scrape) (left n : ℕ)
        → IsQuiet a
        → ((m : Text)
            → left ≢ 0
            → finish (attempts pg script job left n db) ≡ expected script id now left n job m db)
        → finish (end_scrape pg a s job (is_last left) (attempts pg script job left n) db)
          ≡ after_scrape id a.now job s (λ m. expected script id now left n job m db) db
    unfolding after_scrape
    end_scrape-quiet a (listings l) left n q ih = completed_lem a l left n q
    end_scrape-quiet a (scrape_failed m) zero n q ih =
        unfold end_scrape in rw q.running_on (failed_lem m n)
    end_scrape-quiet a (scrape_failed m) (suc left) n q ih =
        unfold end_scrape in rw q.running_on (ih m (λ e. omega arith))

    quiet_run :
        (left n : ℕ) (m : Text)
        → left ≢ 0
        → finish (attempts pg script job left n db) ≡ expected script id now left n job m db
    unfolding attempts expected
    quiet_run zero n m h = absurd (h refl)
    quiet_run (suc left) n m h =
        simp ((quiet n).alone, (quiet n).kept)
          (end_scrape-quiet (script n) (script n).scrape left (suc n) (quiet n)
            (λ m' k. quiet_run left (suc n) m' k))

    -- A worker that is not disturbed, with one row running under its claim and at least one
    -- attempt, settles the job within its attempts: the job is complete with the listings of the
    -- first scrape that brings any, and everything stored, or it is failed with the message of the
    -- last scrape, and nothing else changed.
    pub process_job-settles :
        (max_attempts : ℕ)
        → 1 ≤ max_attempts
        → (process_job pg message script max_attempts false up now job job.worker_id db).1
          ≡ expected script id now max_attempts 1 job [] db
    unfolding process_job finish
    process_job-settles max_attempts h = quiet_run max_attempts 1 [] (λ e. omega arith)
