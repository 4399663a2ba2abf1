-- ===== src/Store/Lifecycle.antt =====
-- The life of a job, over every method of the store. `Op` is one call of a method by any process,
-- `step` runs it, and `run` is an interleaving of such calls.
pub mod Edges
pub mod Invariant
pub mod Claims
pub mod Claimed
pub mod Exclusion
pub mod Stocked
use web_scraper.Base.{ℕ, Bool, Option, List, [], ◌∷◌, Text}
use web_scraper.Base.Int.{ℤ}
use web_scraper.Model.{SearchRequest, Listing, Job}
use web_scraper.Store.Db.{Db, Link, Postgres}
use web_scraper.Store.Jobs.{
  create_job, get_job, claim_job, refresh_job_claim, fail_job, requeue_stale_jobs,
}
use web_scraper.Store.Complete.{complete_job}
use web_scraper.Store.Catalogue.{prune_history}
use web_scraper.Store.Keys.{touch_worker, create_api_key, authenticate_api_key, revoke_api_key}

-- the calls that change the tables, with what the environment supplies to each
pub data Op : Type 0 where
  create : Link → ℕ → ℕ → SearchRequest → Text → Op
  claim : Link → (ℕ → Bool) → ℕ → Text → Op
  refresh : Link → ℕ → Text → Text → Op
  finish : (ℕ → Bool) → Link → ℕ → Job → List Listing → Op
  fail : Link → ℕ → Text → Text → Text → Op
  requeue : Link → ℕ → ℕ → Op
  prune : Link → ℕ → ℕ → Op
  touch : Link → ℕ → Text → List Text → Op
  add_key : Link → ℕ → ℕ → Option Text → Text → ℤ → Op
  authenticate : Link → ℕ → Text → Op
  revoke : Link → ℕ → Text → Op

module _ (pg : Postgres) (hash : Text → Text) where
  unfoldable pub step : Op → Db → Db
  step (create link fresh now req requester) db = (create_job pg link fresh now req requester db).1
  step (claim link locked now w) db = (claim_job pg link locked now w db).1
  step (refresh link now id w) db = (refresh_job_claim pg link now id w db).1
  step (finish runs commit now job listings) db =
      (complete_job pg runs commit now job listings db).1
  step (fail link now id w message) db = (fail_job pg link now id w message db).1
  step (requeue link now older_than) db = (requeue_stale_jobs link now older_than db).1
  step (prune link now days) db = (prune_history link now days db).1
  step (touch link now id capabilities) db = (touch_worker link now id capabilities db).1
  step (add_key link fresh now secret name rpm) db =
      (create_api_key pg hash link fresh now secret name rpm db).1
  step (authenticate link now raw) db = (authenticate_api_key pg hash link now raw db).1
  step (revoke link now id) db = (revoke_api_key pg hash link now id db).1

  unfoldable pub run : List Op → Db → Db
  unfolding step
  run [] db = db
  run (op ∷ ops) db = run ops (step op db)
