-- ===== src/Store/Complete/Outcome.antt =====
-- What `CompleteJob` returns when every round trip goes through.
use web_scraper.Base.{
  ℕ, ◌≡◌, refl, Bool, true, false, some, List, [], ◌∷◌, arith, is_empty, find_where-none,
  count_where, if◌then◌else◌, ◌==◌,
}
use web_scraper.Model.{Listing, Job}
use web_scraper.Store.Db.{Db, ok, err, claim_lost, up, transaction, Postgres}
use web_scraper.Store.Jobs.{owned}
use web_scraper.Store.Complete.{
  Progress, store_listing, save_listing, save_listings, begin, complete_body, complete_job,
}
use web_scraper.Store.Complete.Laws.{stored, completed}

abbrev pub healthy : ℕ → Bool
healthy _ = true

module _ (pg : Postgres) where
  open pg use {parse_uuid}

  save_listings-healthy :
      (job now : ℕ) (items : List Listing) (s : Progress)
      → save_listings pg healthy job now items s ≡ ok (stored pg job now items s)
  unfolding save_listings stored save_listing
  save_listings-healthy job now [] s = refl
  save_listings-healthy job now (item ∷ items) s = ground (
    arith,
    save_listings-healthy job now items s,
    save_listings-healthy job now items (store_listing pg job now item s),
  )

  complete_body-healthy :
      (now id : ℕ) (job : Job) (listings : List Listing) (db : Db)
      → parse_uuid job.id ≡ some id
      → complete_body pg healthy now job listings db ≡ (
          if count_where (owned id job.worker_id) db.jobs == 1
          then ok (tt, completed pg id now job listings db)
          else err claim_lost)
  unfolding complete_body completed
  complete_body-healthy now id job listings db p = ground (
    arith,
    save_listings-healthy id now listings (begin db),
    find_where-none (owned id job.worker_id) db.jobs,
  )

  -- With every round trip through, for a job whose id is a uuid and which names a worker,
  -- `CompleteJob` stores everything exactly when one row is running under the worker's claim, and
  -- otherwise returns ErrJobClaimLost and changes nothing.
  pub complete_job-healthy :
      (now id : ℕ) (job : Job) (listings : List Listing) (db : Db)
      → parse_uuid job.id ≡ some id
      → is_empty job.worker_id ≡ false
      → complete_job pg healthy up now job listings db ≡ (
          if count_where (owned id job.worker_id) db.jobs == 1
          then (ok tt, completed pg id now job listings db)
          else (err claim_lost, db))
  unfolding complete_job transaction
  complete_job-healthy now id job listings db p w =
      ground (arith, complete_body-healthy now id job listings db p)
