-- ===== src/Store/Complete/Laws.antt =====
-- What `CompleteJob` does to the tables, whichever of its round trips fail.
use web_scraper.Base.{
  ℕ, ◌≡◌, refl, ◌∙◌, ◌⊎◌, inl, inr, Bool, Option, none, some, List, [], ◌∷◌, arith, is_empty,
  find_where, update_where, if◌then◌else◌, Bool-cases,
}
use web_scraper.Model.{Listing, Job}
use web_scraper.Store.Db.{JobRow, Db, ok, >>=-eq-ok, Link, transaction-cases, Postgres}
use web_scraper.Store.Jobs.{owned, cast, set_complete}
use web_scraper.Store.Complete.{
  Progress, is_skipped, store_listing, save_listing, save_listings, check_claim, begin,
  complete_body, complete_job, round_trip,
}

check_claim-found : (o : Option JobRow) → check_claim o ≡ ok tt → (r : JobRow) × (o ≡ some r)
unfolding check_claim
check_claim-found none h = cc
check_claim-found (some r) h = (r, refl)

cast-found : (o : Option ℕ) (u : ℕ) → cast o (λ v. ok v) ≡ ok u → o ≡ some u
cast-found none u h = cc
cast-found (some v) u h = cc

module _ (pg : Postgres) where
  open pg use {parse_uuid}

  -- The tables after every listing that has an id, a URL and a title is stored, in order.
  unfoldable pub stored : ℕ → ℕ → List Listing → Progress → Progress
  stored job now [] s = s
  stored job now (item ∷ items) s =
      stored job now items (if is_skipped item then s else store_listing pg job now item s)

  save_listing-stored :
      (runs : ℕ → Bool) (job now : ℕ) (item : Listing) (s s' : Progress)
      → save_listing pg runs job now item s ≡ ok s'
      → s' ≡ (if is_skipped item then s else store_listing pg job now item s)
  unfolding save_listing
  save_listing-stored runs job now item s s' h = ground arith

  save_listings-stored :
      (runs : ℕ → Bool) (job now : ℕ) (items : List Listing) (s s' : Progress)
      → save_listings pg runs job now items s ≡ ok s'
      → s' ≡ stored job now items s
  unfolding save_listings stored
  save_listings-stored runs job now [] s s' h = cc
  save_listings-stored runs job now (item ∷ items) s s' h =
      let (s₁, e₁, e₂) =
        >>=-eq-ok (save_listing pg runs job now item s) (λ t. save_listings pg runs job now items t)
          h in
      rw (← save_listing-stored runs job now item s s₁ e₁)
        (save_listings-stored runs job now items s₁ s' e₂)

  unfoldable pub completed : ℕ → ℕ → Job → List Listing → Db → Db
  completed id now job listings db =
      let s = stored id now listings (begin db) in
      record db {
        jobs = update_where (owned id job.worker_id) (set_complete listings now) db.jobs;
        products = s.products;
        observations = s.observations;
      }

  complete_body-completed :
      (runs : ℕ → Bool) (now : ℕ) (job : Job) (listings : List Listing) (db db' : Db)
      → complete_body pg runs now job listings db ≡ ok (tt, db')
      → (id : ℕ) × (r : JobRow) × (parse_uuid job.id ≡ some id)
        × (find_where (owned id job.worker_id) db.jobs ≡ some r)
        × (db' ≡ completed id now job listings db)
  unfolding complete_body completed
  complete_body-completed runs now job listings db db' h =
      let (_, _, h₁) = >>=-eq-ok (round_trip (runs 0)) _ h in
      let (_, _, h₂) = >>=-eq-ok (round_trip (runs 1)) _ h₁ in
      let (id, e₃, h₃) = >>=-eq-ok (cast (parse_uuid job.id) (λ u. ok u)) _ h₂ in
      let (_, e₄, h₄) =
        >>=-eq-ok (check_claim (find_where (owned id job.worker_id) db.jobs)) _ h₃ in
      let (s, e₅, h₅) = >>=-eq-ok (save_listings pg runs id now listings (begin db)) _ h₄ in
      let (_, _, h₆) = >>=-eq-ok (round_trip (runs s.trips)) _ h₅ in
      let (r, found) = check_claim-found _ e₄ in
      (
        id,
        r,
        cast-found _ _ e₃,
        found,
        ground (arith, save_listings-stored runs id now listings (begin db) s e₅),
      )

  -- Whatever round trips fail, `CompleteJob` leaves the tables as they were, or it finds the job
  -- running under the worker's own claim and stores every listing that has an id, a URL and a
  -- title, and the result, together.
  pub complete_job_all_or_nothing :
      (runs : ℕ → Bool) (commit : Link) (now : ℕ) (job : Job) (listings : List Listing) (db : Db)
      → let after = (complete_job pg runs commit now job listings db).1 in
        (after ≡ db)
        ⊎ ((id : ℕ) × (r : JobRow) × (parse_uuid job.id ≡ some id)
            × (find_where (owned id job.worker_id) db.jobs ≡ some r)
            × (after ≡ completed id now job listings db))
  unfolding complete_job
  complete_job_all_or_nothing runs commit now job listings db =
      elim (Bool-cases (is_empty job.worker_id)) [
        | inl e ↦ inl (rw e)
        | inr e ↦
            rw e (elim (transaction-cases commit (complete_body pg runs now job listings) db) [
              | inl same ↦ inl same
              | inr (_, db', h, after) ↦
                  let (id, r, p, q, done) =
                    complete_body-completed runs now job listings db db' h in
                  inr (id, r, p, q, after ∙ done)
            ])
      ]
