-- ===== src/Store/Lifecycle/Stocked.antt =====
-- The catalogue over every method of the store: its constraints are an invariant.
use web_scraper.Base.{
  ℕ, ◌≡◌, inl, inr, Bool, Option, List, [], ◌∷◌, Text, arith, All-of_Among, All-Among,
  Among-select_where, Bool-cases,
}
use web_scraper.Base.Int.{ℤ}
use web_scraper.Model.{SearchRequest, Listing, Job}
use web_scraper.Store.Db.{
  ObservationRow, ProductRow, Db, Result, Link, over, up, refused, reply_lost, Postgres,
}
use web_scraper.Store.Jobs.{
  create_job, claim_job, refresh_job_claim, fail_job, requeue_stale_jobs, update_owned,
}
use web_scraper.Store.Keys.{
  touch_worker, create_api_key, insert_key, authenticate_api_key, revoke_api_key,
}
use web_scraper.Store.Catalogue.{prune_history}
use web_scraper.Store.Catalogue.Products.{IsStocked, HasRow, store_listing-IsStocked}
use web_scraper.Store.Complete.{Progress, begin, complete_job, is_skipped, store_listing}
use web_scraper.Store.Complete.Laws.{stored, completed, complete_job_all_or_nothing}
use web_scraper.Store.Lifecycle.{
  Op, create, claim, refresh, finish, fail, requeue, prune, touch, add_key, authenticate, revoke,
  step, run,
}

abbrev pub IsSound : Db → Type 0
IsSound db = IsStocked db.products db.observations

-- Neither of the two tables changes.
abbrev IsSame : Db → Db → Type 0
IsSame a b = (a.products ≡ b.products) × (a.observations ≡ b.observations)

carried_over :
    {ps : List ProductRow} {os : List ObservationRow} (db : Db)
    → (ps ≡ db.products) × (os ≡ db.observations)
    → IsSound db
    → IsStocked ps os
carried_over db e s = rw (e.0, e.1) s

over-IsSound :
    {A : Type 0} (l : Link) (m : Db → Result A × Db) (db : Db)
    → IsSound db
    → IsSound (m db).1
    → IsSound (over l m db).1
unfolding over
over-IsSound up m db s h = h
over-IsSound refused m db s h = s
over-IsSound reply_lost m db s h = h

module _ (pg : Postgres) (hash : Text → Text) where
  stored-IsStocked :
      (job now : ℕ) (items : List Listing) (s : Progress)
      → IsStocked s.products s.observations
      → let t = stored pg job now items s in IsStocked t.products t.observations
  unfolding stored
  stored-IsStocked job now [] s h = h
  stored-IsStocked job now (item ∷ items) s h = elim (Bool-cases (is_skipped item)) [
    | inl e ↦ rw (e, stored) (stored-IsStocked job now items s h)
    | inr e ↦
        rw (e, stored)
          (stored-IsStocked job now items (store_listing pg job now item s)
            (store_listing-IsStocked pg job now item s h))
  ]

  complete_job-IsSound :
      (runs : ℕ → Bool) (commit : Link) (now : ℕ) (job : Job) (listings : List Listing) (db : Db)
      → IsSound db
      → IsSound (complete_job pg runs commit now job listings db).1
  complete_job-IsSound runs commit now job listings db s =
      elim (complete_job_all_or_nothing pg runs commit now job listings db) [
        | inl e ↦ rw e s
        | inr (id, r, _, _, e) ↦
            rw e (unfold completed in stored-IsStocked id now listings (begin db) s)
      ]

  prune_history-IsSound :
      (link : Link) (now days : ℕ) (db : Db)
      → IsSound db
      → IsSound (prune_history link now days db).1
  unfolding prune_history
  prune_history-IsSound link now days db s = over-IsSound link _ db s (record {
    ids = s.ids;
    keys = s.keys;
    observed = All-of_Among _ _ λ o m.
        All-Among (λ x. HasRow db.products (ObservationRow.product_id x)) db.observations s.observed
          (Among-select_where _ db.observations o m).0;
  })

  create_job-IsSame :
      (link : Link) (fresh now : ℕ) (req : SearchRequest) (requester : Text) (db : Db)
      → IsSame (create_job pg link fresh now req requester db).1 db
  unfolding create_job over
  create_job-IsSame link fresh now req requester db = ground arith

  claim_job-IsSame :
      (link : Link) (locked : ℕ → Bool) (now : ℕ) (w : Text) (db : Db)
      → IsSame (claim_job pg link locked now w db).1 db
  unfolding claim_job over
  claim_job-IsSame link locked now w db = ground arith

  refresh_job_claim-IsSame :
      (link : Link) (now : ℕ) (id w : Text) (db : Db)
      → IsSame (refresh_job_claim pg link now id w db).1 db
  unfolding refresh_job_claim update_owned over
  refresh_job_claim-IsSame link now id w db = ground arith

  fail_job-IsSame :
      (link : Link) (now : ℕ) (id w message : Text) (db : Db)
      → IsSame (fail_job pg link now id w message db).1 db
  unfolding fail_job update_owned over
  fail_job-IsSame link now id w message db = ground arith

  requeue_stale_jobs-IsSame :
      (link : Link) (now older_than : ℕ) (db : Db)
      → IsSame (requeue_stale_jobs link now older_than db).1 db
  unfolding requeue_stale_jobs over
  requeue_stale_jobs-IsSame link now older_than db = ground arith

  touch_worker-IsSame :
      (link : Link) (now : ℕ) (id : Text) (capabilities : List Text) (db : Db)
      → IsSame (touch_worker link now id capabilities db).1 db
  unfolding touch_worker over
  touch_worker-IsSame link now id capabilities db = ground arith

  create_api_key-IsSame :
      (link : Link) (fresh now : ℕ) (secret : Option Text) (name : Text) (rpm : ℤ) (db : Db)
      → IsSame (create_api_key pg hash link fresh now secret name rpm db).1 db
  unfolding create_api_key insert_key over
  create_api_key-IsSame link fresh now secret name rpm db = ground arith

  authenticate_api_key-IsSame :
      (link : Link) (now : ℕ) (raw : Text) (db : Db)
      → IsSame (authenticate_api_key pg hash link now raw db).1 db
  unfolding authenticate_api_key over
  authenticate_api_key-IsSame link now raw db = ground arith

  revoke_api_key-IsSame :
      (link : Link) (now : ℕ) (id : Text) (db : Db)
      → IsSame (revoke_api_key pg hash link now id db).1 db
  unfolding revoke_api_key over
  revoke_api_key-IsSame link now id db = ground arith

  step-IsSound : (op : Op) (db : Db) → IsSound db → IsSound (step pg hash op db)
  unfolding step
  step-IsSound (create link fresh now req requester) db s =
      carried_over db (create_job-IsSame link fresh now req requester db) s
  step-IsSound (claim link locked now w) db s =
      carried_over db (claim_job-IsSame link locked now w db) s
  step-IsSound (refresh link now id w) db s =
      carried_over db (refresh_job_claim-IsSame link now id w db) s
  step-IsSound (finish runs commit now job listings) db s =
      complete_job-IsSound runs commit now job listings db s
  step-IsSound (fail link now id w message) db s =
      carried_over db (fail_job-IsSame link now id w message db) s
  step-IsSound (requeue link now older_than) db s =
      carried_over db (requeue_stale_jobs-IsSame link now older_than db) s
  step-IsSound (prune link now days) db s = prune_history-IsSound link now days db s
  step-IsSound (touch link now id capabilities) db s =
      carried_over db (touch_worker-IsSame link now id capabilities db) s
  step-IsSound (add_key link fresh now secret name rpm) db s =
      carried_over db (create_api_key-IsSame link fresh now secret name rpm db) s
  step-IsSound (authenticate link now raw) db s =
      carried_over db (authenticate_api_key-IsSame link now raw db) s
  step-IsSound (revoke link now id) db s = carried_over db (revoke_api_key-IsSame link now id db) s

  -- Whatever calls by any processes interleave, and whichever round trips fail, the statements of
  -- the catalogue keep its constraints, from tables that have them: the product ids are distinct,
  -- no two rows have the same marketplace and external id, and every observation has its product.
  pub run-IsSound : (ops : List Op) (db : Db) → IsSound db → IsSound (run pg hash ops db)
  unfolding run
  run-IsSound [] db s = s
  run-IsSound (op ∷ ops) db s = run-IsSound ops (step pg hash op db) (step-IsSound op db s)
