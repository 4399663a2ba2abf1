-- ===== src/Worker/Loop.antt =====
-- cmd/worker/main.go: `workerLoop`, over a script of its turns.
pub mod Refines
use web_scraper.Base.{ℕ, Bool, List, [], ◌∷◌, Text, if◌then◌else◌}
use web_scraper.Model.{Job}
use web_scraper.Store.Db.{StoreError, Result, ok, err, Db, Link, Postgres}
use web_scraper.Store.Jobs.{claim_job}
use web_scraper.Worker.{Attempt, Next, go_on, stop, process_job}

-- One turn, as the outside plays it: whether the process has been told to stop at its beginning,
-- what other processes do to the tables before the claim, the claim, the rounds of its job, and
-- what follows them.
pub record Turn : Type 0 where
  pub stopped : Bool
  pub others : Db → Db
  pub link : Link
  pub locked : ℕ → Bool
  pub now : ℕ
  pub rounds : ℕ → Attempt
  pub stopping : Bool
  pub fail_link : Link
  pub fail_now : ℕ

module _ (pg : Postgres) (message : StoreError → Text) (max_attempts : ℕ) (w : Text) where
  abbrev pub after_job : Next → (Db → Db) → Db → Db
  after_job go_on again db = again db
  after_job stop again db = db

  -- with no job, and with an error, the slot sleeps and goes on
  abbrev pub with_claim : Turn → Result Job → (Db → Db) → Db → Db
  with_claim t (err e) again db = again db
  with_claim t (ok job) again db =
      let (next, db') =
        process_job pg message t.rounds max_attempts t.stopping t.fail_link t.fail_now job w db in
      after_job next again db'

  unfoldable pub worker_loop : List Turn → Db → Db
  worker_loop [] db = db
  worker_loop (t ∷ ts) db =
      let (r, db') = claim_job pg t.link t.locked t.now w (t.others db) in
      let rest = with_claim t r (worker_loop ts) db' in if t.stopped then db else rest
