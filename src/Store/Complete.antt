-- ===== src/Store/Complete.antt =====
-- internal/store/store.go: `CompleteJob`, one transaction over the job, the catalogue and the
-- observations. `runs n` tells whether the transaction's n-th round trip goes through, `commit`
-- how the last one, COMMIT, ends.
pub mod Laws
pub mod Outcome
use web_scraper.Base.{
  ℕ, ◌+◌, Bool, ◌||◌, Option, none, some, List, [], ◌∷◌, Text, is_empty, ◌==◌, if◌then◌else◌,
  find_where, update_where, count_where,
}
use web_scraper.Model.{Listing, Job}
use web_scraper.Store.Db.{
  JobRow, ProductRow, ObservationRow, Db, Result, ok, err, claim_lost, missing_claim, db_error,
  ◌>>=◌, Sql, Link, transaction, Postgres,
}
use web_scraper.Store.Jobs.{owned, cast, set_complete}
use web_scraper.Store.Catalogue.{new_observation, upsert_product, record_observation}

-- a round trip of the transaction
abbrev pub round_trip : Bool → Result (Unit {0})
round_trip go = if go then ok tt else err db_error

-- what the loop over the listings carries: the number of the next round trip and the two tables
pub record Progress : Type 0 where
  pub trips : ℕ
  pub products : List ProductRow
  pub observations : List ObservationRow

-- after BEGIN and the SELECT
abbrev pub begin : Db → Progress
begin db = record { trips = 2; products = db.products; observations = db.observations }

-- SELECT 1 … FOR UPDATE
unfoldable pub check_claim : Option JobRow → Result (Unit {0})
check_claim none = err claim_lost
check_claim (some _) = ok tt

-- the UPDATE of the job, and the test on its row count
unfoldable pub finish : ℕ → ℕ → Text → List Listing → Progress → Db → Result (Unit {0} × Db)
finish now id w listings s db =
    if count_where (owned id w) db.jobs == 1
    then ok (
      tt,
      record db {
        jobs = update_where (owned id w) (set_complete listings now) db.jobs;
        products = s.products;
        observations = s.observations;
      },
    )
    else err claim_lost

-- the `continue` of the loop
unfoldable pub is_skipped : Listing → Bool
is_skipped item = is_empty item.external_id || (is_empty item.url || is_empty item.title)

module _ (pg : Postgres) where
  open pg use {parse_uuid}

  -- the two statements of one listing, when both go through
  unfoldable pub store_listing : ℕ → ℕ → Listing → Progress → Progress
  store_listing job now item s =
      let (id, products) = upsert_product pg now item s.products in
      record {
        trips = s.trips + 2;
        products = products;
        observations = record_observation pg (new_observation id job now item) s.observations;
      }

  unfoldable pub save_listing : (ℕ → Bool) → ℕ → ℕ → Listing → Progress → Result Progress
  unfolding is_skipped
  save_listing runs job now item s = if is_skipped item then ok s else do
    _ ← round_trip (runs s.trips)
    _ ← round_trip (runs (s.trips + 1))
    ok (store_listing job now item s)

  unfoldable pub save_listings : (ℕ → Bool) → ℕ → ℕ → List Listing → Progress → Result Progress
  save_listings runs job now [] s = ok s
  save_listings runs job now (item ∷ items) s = do
    s' ← save_listing runs job now item s
    save_listings runs job now items s'

  unfoldable pub complete_body : (ℕ → Bool) → ℕ → Job → List Listing → Db → Result (Unit {0} × Db)
  unfolding check_claim finish
  complete_body runs now job listings db = do
    _ ← round_trip (runs 0)
    _ ← round_trip (runs 1)
    id ← cast (parse_uuid job.id) (λ u. ok u)
    _ ← check_claim (find_where (owned id job.worker_id) db.jobs)
    s ← save_listings runs id now listings (begin db)
    _ ← round_trip (runs s.trips)
    finish now id job.worker_id listings s db

  unfoldable pub complete_job : (ℕ → Bool) → Link → ℕ → Job → List Listing → Sql (Unit {0})
  unfolding transaction
  complete_job runs commit now job listings db =
      if is_empty job.worker_id
      then (err missing_claim, db)
      else transaction commit (complete_body runs now job listings) db
