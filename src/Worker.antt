-- ===== src/Worker.antt =====
-- cmd/worker/main.go: the loop of one worker slot, its retries, the renewal of its claim, and the
-- maintenance loop. What the outside decides is a script: the answers of the extraction worker, the
-- ends of the round trips to the store, the signals, and what other processes do to the tables in
-- between. Logging and the waiting itself are not modelled, but how long a retry waits is.
pub mod Delay
pub mod Settles
pub mod Lease
pub mod Browser
pub mod Loop
pub mod Process
use web_scraper.Base.{
  ℕ, zero, suc, ◌+◌, ◌*◌, ◌-◌, ◌^◌, ◌%◌, Bool, true, false, ◌&&◌, Option, none, some, List, [], ◌∷◌,
  Text, codes, ltb, if◌then◌else◌,
}
use web_scraper.Base.Int.{ℤ, pos, negsuc, int64}
use web_scraper.Model.{Listing, Job}
use web_scraper.Store.Db.{StoreError, claim_lost, no_rows, Result, ok, err, Db, Link, Postgres}
use web_scraper.Store.Jobs.{claim_job, fail_job, refresh_job_claim, requeue_stale_jobs}
use web_scraper.Store.Complete.{complete_job}
use web_scraper.Store.Catalogue.{prune_history}
use web_scraper.Store.Keys.{touch_worker}

abbrev pub max_backoff : ℕ
max_backoff = 15000000000

abbrev pub millisecond : ℕ
millisecond = 1000000

abbrev pub shift_of : ℕ → ℕ
shift_of attempt = let shift = attempt - 1 in if ltb 4 shift then 4 else shift

abbrev pub cap_backoff : ℤ → ℤ
cap_backoff (pos n) = if ltb max_backoff n then pos max_backoff else pos n
cap_backoff (negsuc n) = negsuc n

abbrev pub plus : ℤ → ℕ → ℤ
plus (pos n) k = pos (n + k)
plus (negsuc n) k = if ltb n k then pos (k - n - 1) else negsuc (n - k)

-- `jitter` is what rand.Intn(500) returns; attempts count from 1
unfoldable pub retry_delay : ℕ → ℕ → ℕ → ℤ
retry_delay base attempt jitter =
    plus (cap_backoff (int64 (base * 2 ^ shift_of attempt))) (jitter * millisecond)

-- the answer of `client.Scrape`
pub data Scrape : Type 0 where
  listings : List Listing → Scrape
  scrape_failed : Text → Scrape

-- One round of the attempt loop, as the outside plays it.
pub record Attempt : Type 0 where
  -- what other processes do to the tables before the round ends
  pub others : Db → Db
  pub scrape : Scrape
  -- whether the renewal has signalled a lost claim when the scrape returns
  pub signalled : Bool
  -- whether the process has been told to stop by then
  pub stopping : Bool
  -- the round trips of `CompleteJob`, if it is called
  pub runs : ℕ → Bool
  pub commit : Link
  pub now : ℕ

-- `listingsErr` after the loop
pub data Outcome : Type 0 where
  done : Outcome
  scrape_error : Text → Outcome
  store_error : StoreError → Outcome

abbrev of_result : Result (Unit {0}) → Outcome
of_result (ok _) = done
of_result (err e) = store_error e

-- what the slot does after the job
pub data Next : Type 0 where
  go_on stop : Next

abbrev pub is_claim_lost : StoreError → Bool
is_claim_lost claim_lost = true
is_claim_lost _ = false

-- `attempt < cfg.WorkerMaxAttempts` fails: no round is left
abbrev pub is_last : ℕ → Bool
is_last zero = true
is_last (suc _) = false

module _ (pg : Postgres) where
  -- the end of a round after the scrape's answer, with no claim lost; `again` is the rest of the
  -- loop
  unfoldable pub end_scrape :
      Attempt → Scrape → Job → Bool → (Db → Outcome × Db) → Db → Outcome × Db
  end_scrape a (listings l) job last again db =
      let (r, db') = complete_job pg a.runs a.commit a.now job l db in (of_result r, db')
  end_scrape a (scrape_failed m) job last again db =
      let rest = again db in
      if a.stopping then (scrape_error m, db) else if last then (scrape_error m, db) else rest

  unfoldable pub end_attempt : Attempt → Job → Bool → (Db → Outcome × Db) → Db → Outcome × Db
  unfolding end_scrape
  end_attempt a job last again db =
      if a.signalled then (store_error claim_lost, db) else end_scrape a a.scrape job last again db

  -- the loop: `left` rounds are left, and `n` is the number of the round that begins
  unfoldable pub attempts : (ℕ → Attempt) → Job → ℕ → ℕ → Db → Outcome × Db
  unfolding end_attempt
  attempts script job zero n db = (done, db)
  attempts script job (suc left) n db =
      end_attempt (script n) job (is_last left) (attempts script job left (suc n))
        ((script n).others db)

  -- The message of an error, for the column `error`.
  module _ (message : StoreError → Text) where
    abbrev pub fail_with : Bool → Link → ℕ → Job → Text → Text → Db → Next × Db
    fail_with stopping link now job w m db =
        if stopping then (stop, db) else (go_on, (fail_job pg link now job.id w m db).1)

    -- after the loop: success and a lost claim leave the job alone
    unfoldable pub settle : Outcome → Bool → Link → ℕ → Job → Text → Db → Next × Db
    settle done stopping link now job w db = (go_on, db)
    settle (scrape_error m) stopping link now job w db = fail_with stopping link now job w m db
    settle (store_error e) stopping link now job w db =
        if is_claim_lost e then (go_on, db) else fail_with stopping link now job w (message e) db

    -- one job, from its claim to the next turn of `workerLoop`
    unfoldable pub process_job : (ℕ → Attempt) → ℕ → Bool → Link → ℕ → Job → Text → Db → Next × Db
    unfolding attempts settle
    process_job script max_attempts stopping link now job w db =
        let (outcome, db') = attempts script job max_attempts 1 db in
        settle outcome stopping link now job w db'

  -- `maintainJobClaim`, one tick: renew the claim, and signal when it is lost
  unfoldable renew : Link → ℕ → Text → Text → Db → Bool × Db
  renew link now job w db =
      let (r, db') = refresh_job_claim pg link now job w db in
      (elim r [ ok _ ↦ false | err e ↦ is_claim_lost e ], db')

-- `maintenance`, on a tick of the heartbeat and of the prune timer; durations in microseconds
unfoldable pub heartbeat_tick : Link → Link → ℕ → Text → List Text → ℕ → Db → Db
heartbeat_tick touch requeue now w capabilities stale_after db =
    (requeue_stale_jobs requeue now stale_after (touch_worker touch now w capabilities db).1).1

unfoldable prune_tick : Link → ℕ → ℕ → Db → Db
prune_tick link now retention_days db = (prune_history link now retention_days db).1
