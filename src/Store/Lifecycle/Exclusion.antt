-- ===== src/Store/Lifecycle/Exclusion.antt =====
-- A job belongs to the worker that claimed it last: what the other workers' calls do.
use web_scraper.Base.{
  ℕ, Option, ap, ◌≡◌, ◌≢◌, refl, sym, ◌∙◌, ◌⊎◌, inl, inr, Bool, true, false, none, some, List, Text,
  arith, update_where-none, count_where, count_where-zero, Among, Among-update_where_inv, Distinct,
  Bool-cases, text_eq, text_eq_iff, is_empty,
}
use web_scraper.Model.{Listing, Job}
use web_scraper.Store.Db.{JobRow, Db, ok, err, claim_lost, up, Postgres}
use web_scraper.Store.Jobs.{
  has_id, owned, next_queued, claim_job, refresh_job_claim, fail_job, update_owned, set_running,
  take_job, scan_claim,
}
use web_scraper.Store.Complete.{complete_job}
use web_scraper.Store.Complete.Outcome.{healthy, complete_job-healthy}
use web_scraper.Store.Lifecycle.Claimed.{claim_job-found, claimed_once, not_next}

-- No running row is claimed by `w` under this id.
abbrev pub IsLost : ℕ → Text → Db → Type 0
IsLost id w db = count_where (owned id w) db.jobs ≡ 0

update_owned-lost :
    (id : ℕ) (w : Text) (f : JobRow → JobRow) (db : Db)
    → IsLost id w db
    → update_owned (owned id w) f db ≡ (err claim_lost, db)
unfolding update_owned
update_owned-lost id w f db h = rw (h, update_where-none (owned id w) f db.jobs h)

set_running-not-owned :
    (now : ℕ) (w w' : Text) (id : ℕ) (a : JobRow)
    → w' ≢ w
    → owned id w' (set_running w now a) ≡ false
unfolding owned
set_running-not-owned now w w' id a ne = elim (Bool-cases (text_eq w w')) [
  | inl t ↦ absurd (ne (sym ((text_eq_iff w w').0 t)))
  | inr t ↦ ground arith
]

other-not-owned : (w' : Text) (id : ℕ) (a : JobRow) → has_id id a ≡ false → owned id w' a ≡ false
unfolding owned has_id
other-not-owned w' id a h = ground arith

not_owned_after :
    (rows : List JobRow) (now : ℕ) (w w' : Text) (id : ℕ) (y : JobRow)
    → w' ≢ w
    → ((a : JobRow) × Among a rows
        × (((has_id id a ≡ true) × (y ≡ set_running w now a)) ⊎ ((has_id id a ≡ false) × (y ≡ a))))
    → owned id w' y ≡ false
not_owned_after rows now w w' id y ne (a, _, inl (_, e)) =
    rw e (set_running-not-owned now w w' id a ne)
not_owned_after rows now w w' id y ne (a, _, inr (h, e)) = rw e (other-not-owned w' id a h)

unsome : {a b : ℕ} → some a ≡ some b → a ≡ b
unsome h = cc

module _ (pg : Postgres) where
  open pg use {show_uuid, parse_uuid}

  -- A worker under whose claim the job is not running is told so by each of the three methods that
  -- act under a claim, when their round trips go through, the job's id is a uuid and it names a
  -- worker; and none of them changes anything.
  pub lost_claim_is_reported :
      (id now : ℕ) (job : Job) (listings : List Listing) (message : Text) (db : Db)
      → parse_uuid job.id ≡ some id
      → is_empty job.worker_id ≡ false
      → IsLost id job.worker_id db
      → (refresh_job_claim pg up now job.id job.worker_id db ≡ (err claim_lost, db))
        × (fail_job pg up now job.id job.worker_id message db ≡ (err claim_lost, db))
        × (complete_job pg healthy up now job listings db ≡ (err claim_lost, db))
  unfolding refresh_job_claim fail_job
  lost_claim_is_reported id now job listings message db p w h = (
    rw (p, update_owned-lost id job.worker_id _ db h),
    rw (p, update_owned-lost id job.worker_id _ db h),
    complete_job-healthy pg now id job listings db p w ∙ rw h,
  )

  taken_job :
      (now : ℕ) (w : Text) (db : Db) (o : Option JobRow) (k : Job)
      → (take_job pg now w o db).0 ≡ ok k
      → (x : JobRow) × (o ≡ some x) × (k.id ≡ show_uuid x.id)
  unfolding take_job scan_claim
  taken_job now w db none k h = cc
  taken_job now w db (some x) k h = (x, refl, cc)

  claimed_job :
      (locked : ℕ → Bool) (now : ℕ) (w : Text) (db : Db) (k : Job)
      → (claim_job pg up locked now w db).0 ≡ ok k
      → (x : JobRow) × (next_queued locked db.jobs ≡ some x) × (k.id ≡ show_uuid x.id)
  unfolding claim_job
  claimed_job locked now w db k h = taken_job now w db (next_queued locked db.jobs) k h

  same_uuid : (a b : ℕ) → show_uuid a ≡ show_uuid b → a ≡ b
  same_uuid a b e = unsome (sym (pg.parse-show a) ∙ ap parse_uuid e ∙ pg.parse-show b)

  -- A claim takes the job from every other worker: if the ids are distinct and the claim finds a
  -- row, then after a claim whose round trip goes through exactly one row runs under the worker's
  -- claim on this job and none under another worker's, and while the tables are as it left them no
  -- other claim returns this job.
  pub claim_job-excludes :
      (locked others : ℕ → Bool) (now now' : ℕ) (w w' : Text) (db : Db) (r : JobRow)
      → Distinct JobRow.id db.jobs
      → next_queued locked db.jobs ≡ some r
      → w' ≢ w
      → let db' = (claim_job pg up locked now w db).1 in
        (j : Job) × ((claim_job pg up locked now w db).0 ≡ ok j)
        × (j.id ≡ show_uuid r.id)
        × (j.worker_id ≡ w)
        × (count_where (owned r.id w) db'.jobs ≡ 1)
        × IsLost r.id w' db'
        × ((k : Job) → (claim_job pg up others now' w' db').0 ≡ ok k → k.id ≢ j.id)
  unfolding scan_claim
  claim_job-excludes locked others now now' w w' db r d e ne =
      rw (claim_job-found pg locked now w db r e) (
        scan_claim pg (set_running w now r),
        refl,
        refl,
        refl,
        claimed_once locked now w db.jobs r d e,
        count_where-zero (owned r.id w') _ λ y m.
            not_owned_after db.jobs now w w' r.id y ne
              (Among-update_where_inv (has_id r.id) (set_running w now) db.jobs y m),
        λ k h q.
            let (x, f, i) = claimed_job others now' w' _ k h in
            not_next locked now w db.jobs r d e others x f (same_uuid x.id r.id (sym i ∙ q)),
      )
