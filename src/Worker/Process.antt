-- ===== src/Worker/Process.antt =====
-- cmd/worker/main.go: `main`, its worker slots, the renewals of their claims and the maintenance
-- loop, as goroutines that run side by side. A state is the tables with where each goroutine is;
-- `Step` is one step of one of them, or of another process, and a run is any interleaving. A step
-- makes at most one call of the store. What a cancelled context does to a call is one of the ways
-- in which the call can end. A renewal that is under way when its job ends is a step of the
-- outside, as is all that other processes do.
pub mod Names
pub mod Refines
pub mod Named
pub mod Holders
pub mod Shutdown
use web_scraper.Base.{
  ℕ, zero, suc, ◌≡◌, ◌⊎◌, Bool, true, false, Option, none, some, List, [], ◌∷◌, ◌++◌, Text, codes,
  ltb, if◌then◌else◌, All, get_elem?, set,
}
use web_scraper.Base.Int.{pos_part}
use web_scraper.Go.Strconv.{decimal}
use web_scraper.Model.{Listing, Job}
use web_scraper.Config.{Config, Loaded, loaded, refused}
use web_scraper.Store.Db.{StoreError, Result, ok, err, Db, Link, Postgres}
use web_scraper.Store.Jobs.{claim_job, fail_job, refresh_job_claim, requeue_stale_jobs}
use web_scraper.Store.Complete.{complete_job}
use web_scraper.Store.Keys.{touch_worker}
use web_scraper.Store.Catalogue.{prune_history}
use web_scraper.Store.Lifecycle.{Op, step as after}
use web_scraper.Worker.{Scrape, listings, scrape_failed, is_claim_lost}
use web_scraper.Worker.Lease.{stale_after}

-- Where `workerLoop` is: at the loop's test or asleep before it; in the scrape of the attempt of
-- this number; at `CompleteJob`; asleep after a failed attempt; at the test of the context before
-- `FailJob`; returned.
pub data Phase : Type 0 where
  idle gone : Phase
  scraping waiting : Job → ℕ → Phase
  saving : Job → List Listing → Phase
  failing : Job → Text → Phase

-- `renewal` is the job whose claim `maintainJobClaim` renews, and `lost` tells that claimLost holds
-- an error.
pub record Slot : Type 0 where
  pub phase : Phase
  pub renewal : Option Job
  pub lost : Bool

-- Where `maintenance` is: before its loop, at the select, between the two calls of a heartbeat, or
-- returned.
pub data Upkeep : Type 0 where
  arriving resting requeuing finished : Upkeep

pub record Process : Type 0 where
  pub stopping : Bool
  pub upkeep : Upkeep
  pub slots : List Slot
  pub db : Db

-- fmt.Sprintf("%s/%d", cfg.WorkerID, slot+1)
unfoldable pub slot_name : Config → ℕ → Text
slot_name c i = c.worker_id ++ codes "/" ++ decimal (suc i) (suc i)

-- a slot without a job
abbrev pub free : Slot
free = record { phase = idle; renewal = none; lost = false }

-- the slot's next phase, with its job's renewal
abbrev pub goes : Slot → Phase → Slot
goes slot phase = record slot { phase = phase }

-- a job is at hand: the first attempt, if there is one
abbrev begin_job : Config → Job → Slot
begin_job c job =
    if ltb 0 (pos_part c.worker_max_attempts)
    then record { phase = scraping job 1; renewal = some job; lost = false }
    else free

unfoldable pub after_claim : Config → Result Job → Slot
after_claim c (err e) = free
after_claim c (ok job) = begin_job c job

abbrev after_failure : Config → Bool → Slot → Job → ℕ → Text → Slot
after_failure c stopping slot job n m =
    if stopping
    then record { phase = failing job m; renewal = none; lost = false }
    else if ltb n (pos_part c.worker_max_attempts)
    then goes slot (waiting job n)
    else record { phase = failing job m; renewal = none; lost = false }

-- the scrape of attempt `n` returns: first the test of claimLost, then of the scrape's error
unfoldable pub after_scrape : Config → Bool → Slot → Job → ℕ → Scrape → Slot
after_scrape c stopping slot job n (listings l) =
    if slot.lost then free else goes slot (saving job l)
after_scrape c stopping slot job n (scrape_failed m) =
    if slot.lost then free else after_failure c stopping slot job n m

module _ (message : StoreError → Text) where
  unfoldable pub after_save : Job → Result (Unit {0}) → Slot
  after_save job (ok _) = free
  after_save job (err e) =
      if is_claim_lost e
      then free
      else record { phase = failing job (message e); renewal = none; lost = false }

-- `maintainJobClaim` after a tick
unfoldable pub after_renewal : Slot → Result (Unit {0}) → Slot
after_renewal slot (ok _) = slot
after_renewal slot (err e) =
    if is_claim_lost e then record slot { renewal = none; lost = true } else slot

abbrev pub puts : ℕ → Slot → Db → Process → Process
puts i slot db s = record s { slots = set s.slots i slot; db = db }

module _ (pg : Postgres) (hash : Text → Text) (message : StoreError → Text) (c : Config) where
  -- a step of the slot `i`: what becomes of the slot and of the tables
  pub data Move (i : ℕ) (s : Process) (slot : Slot) : Slot → Db → Type 0 where
    leaves : slot.phase ≡ idle → s.stopping ≡ true → Move i s slot (goes slot gone) s.db
    claims :
        (link : Link) (locked : ℕ → Bool) (now : ℕ) (r : Result Job) (db : Db)
        → slot.phase ≡ idle
        → s.stopping ≡ false
        → claim_job pg link locked now (slot_name c i) s.db ≡ (r, db)
        → Move i s slot (after_claim c r) db
    scrapes :
        (job : Job) (n : ℕ) (answer : Scrape)
        → slot.phase ≡ scraping job n
        → Move i s slot (after_scrape c s.stopping slot job n answer) s.db
    wakes :
        (job : Job) (n : ℕ)
        → slot.phase ≡ waiting job n
        → Move i s slot (goes slot (scraping job (suc n))) s.db
    saves :
        (job : Job) (l : List Listing) (runs : ℕ → Bool) (commit : Link) (now : ℕ)
        (r : Result (Unit {0})) (db : Db)
        → slot.phase ≡ saving job l
        → complete_job pg runs commit now job l s.db ≡ (r, db)
        → Move i s slot (after_save message job r) db
    returns :
        (job : Job) (m : Text)
        → slot.phase ≡ failing job m
        → s.stopping ≡ true
        → Move i s slot (goes slot gone) s.db
    fails :
        (job : Job) (m : Text) (link : Link) (now : ℕ)
        → slot.phase ≡ failing job m
        → s.stopping ≡ false
        → Move i s slot free (fail_job pg link now job.id (slot_name c i) m s.db).1

  -- a step of the renewal that slot `i` has started
  pub data Renewal (i : ℕ) (s : Process) (slot : Slot) : Slot → Db → Type 0 where
    renews :
        (job : Job) (link : Link) (now : ℕ) (r : Result (Unit {0})) (db : Db)
        → slot.renewal ≡ some job
        → refresh_job_claim pg link now job.id (slot_name c i) s.db ≡ (r, db)
        → Renewal i s slot (after_renewal slot r) db
    rests :
        (job : Job)
        → slot.renewal ≡ some job
        → s.stopping ≡ true
        → Renewal i s slot (record slot { renewal = none }) s.db

  -- a step of `maintenance`
  pub data Tick (capabilities : List Text) (s : Process) : Upkeep → Db → Type 0 where
    arrives :
        (link : Link) (now : ℕ)
        → s.upkeep ≡ arriving
        → Tick capabilities s resting (touch_worker link now c.worker_id capabilities s.db).1
    beats :
        (link : Link) (now : ℕ)
        → s.upkeep ≡ resting
        → Tick capabilities s requeuing (touch_worker link now c.worker_id capabilities s.db).1
    requeues :
        (link : Link) (now : ℕ)
        → s.upkeep ≡ requeuing
        → Tick capabilities s resting (requeue_stale_jobs link now (stale_after c) s.db).1
    prunes :
        (link : Link) (now : ℕ)
        → s.upkeep ≡ resting
        → Tick capabilities s resting (prune_history link now (pos_part c.retention_days) s.db).1
    ends : s.upkeep ≡ resting → s.stopping ≡ true → Tick capabilities s finished s.db

  pub data Step : Process → Process → Type 0 where
    slot_moves :
        {s : Process} (i : ℕ) (old new : Slot) (db : Db)
        → get_elem? s.slots i ≡ some old
        → Move i s old new db
        → Step s (puts i new db s)
    renewal_moves :
        {s : Process} (i : ℕ) (old new : Slot) (db : Db)
        → get_elem? s.slots i ≡ some old
        → Renewal i s old new db
        → Step s (puts i new db s)
    ticks :
        {s : Process} (capabilities : List Text) (upkeep : Upkeep) (db : Db)
        → Tick capabilities s upkeep db
        → Step s (record s { upkeep = upkeep; db = db })
    signals : {s : Process} → s.stopping ≡ false → Step s (record s { stopping = true })
    outside : {s : Process} (op : Op) → Step s (record s { db = after pg hash op s.db })

  pub data Run : Process → Process → Type 0 where
    stop : {s : Process} → Run s s
    step : {s t u : Process} → Step s t → Run t u → Run s u

-- wg.Wait returns
abbrev pub IsOver : Process → Type 0
IsOver s = All (λ slot. slot.phase ≡ gone) s.slots

abbrev pub free_slots : ℕ → List Slot
free_slots zero = []
free_slots (suc n) = free ∷ free_slots n

-- `main` when its slots have started, or its exit with status 1: `opened` tells that the database
-- was reached, and `migrated` what Migrate made of it
pub data Start : Type 0 where
  exits : Start
  starts : Config → Process → Start

abbrev pub first_process : Config → Db → Process
first_process c db = record {
  stopping = false;
  upkeep = arriving;
  slots = free_slots (pos_part c.worker_concurrency);
  db = db;
}

unfoldable pub start : Loaded → Bool → Option Db → Start
start (refused e) opened migrated = exits
start (loaded c) false migrated = exits
start (loaded c) true none = exits
start (loaded c) true (some db) = starts c (first_process c db)
