-- ===== src/Store/Lifecycle/Edges.antt =====
-- The diagram of a job's life: queued → running → complete or failed, and running → queued when a
-- claim goes stale.
use web_scraper.Base.{
  ℕ, ◌≡◌, refl, ap, ◌∙◌, ◌⊎◌, inl, inr, Bool, true, false, Option, some, List, [], ◌∷◌, ◌++◌, Text,
  arith, update_where, count_where, ◌==◌, Among, Among-unique, Distinct, Bool-cases, Option-cases,
}
use web_scraper.Base.Int.{ℤ}
use web_scraper.Model.{SearchRequest, Listing, queued, running, Job}
use web_scraper.Store.Db.{JobRow, Db, Result, Link, up, refused, reply_lost, over, Postgres}
use web_scraper.Store.Jobs.{
  has_id, owned, is_stale, new_row, next_queued, create_job, claim_job, refresh_job_claim, fail_job,
  requeue_stale_jobs, update_owned, row_check, set_running, set_complete, set_failed, set_queued,
  limit_check, marketplace_check,
}
use web_scraper.Store.Complete.{complete_job}
use web_scraper.Store.Complete.Laws.{completed, complete_job_all_or_nothing}
use web_scraper.Store.Catalogue.{prune_history}
use web_scraper.Store.Keys.{
  touch_worker, create_api_key, insert_key, authenticate_api_key, revoke_api_key,
}
use web_scraper.Store.Lifecycle.{
  Op, create, claim, refresh, finish, fail, requeue, prune, touch, add_key, authenticate, revoke,
  step,
}

-- `s` is `r` after one move.
pub data Edge (r s : JobRow) : Type 0 where
  claimed : (w : Text) (now : ℕ) → r.status ≡ queued → s ≡ set_running w now r → Edge r s
  renewed : (now : ℕ) → r.status ≡ running → s ≡ record r { claimed_at = some now } → Edge r s
  finished : (l : List Listing) (now : ℕ) → r.status ≡ running → s ≡ set_complete l now r → Edge r s
  given_up : (m : Text) (now : ℕ) → r.status ≡ running → s ≡ set_failed m now r → Edge r s
  requeued : r.status ≡ running → s ≡ set_queued r → Edge r s

-- What one call does to the jobs: nothing, an insertion, or a move of the rows that a test picks.
pub data Change (rows rows' : List JobRow) : Type 0 where
  same : rows' ≡ rows → Change rows rows'
  inserted :
      (id now key : ℕ) (req : SearchRequest)
      → marketplace_check req.marketplace ≡ true
      → limit_check req.limit ≡ true
      → count_where (has_id id) rows ≡ 0
      → rows' ≡ rows ++ new_row id now req key ∷ []
      → Change rows rows'
  moved :
      (p : JobRow → Bool) (f : JobRow → JobRow)
      → ((r : JobRow) → Among r rows → p r ≡ true → Edge r (f r))
      → rows' ≡ update_where p f rows
      → Change rows rows'

owned-running : (id : ℕ) (w : Text) (r : JobRow) → owned id w r ≡ true → r.status ≡ running
unfolding owned
owned-running id w r h = ground arith

is_stale-running : (d now : ℕ) (r : JobRow) → is_stale d now r ≡ true → r.status ≡ running
unfolding is_stale
is_stale-running d now r h = ground arith

has_id-eq : (id : ℕ) (r : JobRow) → has_id id r ≡ true → r.id ≡ id
unfolding has_id
has_id-eq id r h = ground arith

-- A failed round trip changes nothing or as much as one that goes through.
over-Change :
    {A : Type 0} (l : Link) (m : Db → Result A × Db) (db : Db)
    → Change db.jobs (m db).1.jobs
    → Change db.jobs (over l m db).1.jobs
unfolding over
over-Change up m db h = h
over-Change refused m db h = same refl
over-Change reply_lost m db h = h

next_queued-cons :
    (locked : ℕ → Bool) (x : JobRow) (rows : List JobRow) (r : JobRow)
    → next_queued locked (x ∷ rows) ≡ some r
    → ((x ≡ r) × (x.status ≡ queued) × (locked x.id ≡ false)) ⊎ (next_queued locked rows ≡ some r)
unfolding next_queued
next_queued-cons locked x rows r h = ground arith

-- The row that a claim takes is one of the queued rows that no transaction has locked.
pub next_queued-free :
    (locked : ℕ → Bool) (rows : List JobRow) (r : JobRow)
    → next_queued locked rows ≡ some r
    → Among r rows × (r.status ≡ queued) × (locked r.id ≡ false)
unfolding next_queued
next_queued-free locked [] r h = cc
next_queued-free locked (x ∷ rows) r h = elim (next_queued-cons locked x rows r h) [
  | inl (e, q, l) ↦ (inl e, rw (← e) q, rw (← e) l)
  | inr deeper ↦ let (m, q, l) = next_queued-free locked rows r deeper in (inr m, q, l)
]

update_owned-Change :
    (id : ℕ) (w : Text) (f : JobRow → JobRow) (db : Db)
    → ((r : JobRow) → r.status ≡ running → Edge r (f r))
    → Change db.jobs (update_owned (owned id w) f db).1.jobs
unfolding update_owned
update_owned-Change id w f db e = elim (Bool-cases (count_where (owned id w) db.jobs == 1)) [
  | inl h ↦ rw h (moved (owned id w) f (λ r _ p. e r (owned-running id w r p)) refl)
  | inr h ↦ rw h (moved (owned id w) f (λ r _ p. e r (owned-running id w r p)) refl)
]

module _ (pg : Postgres) (hash : Text → Text) where
  open pg use {parse_uuid}

  create_job-Change :
      (link : Link) (fresh now : ℕ) (req : SearchRequest) (requester : Text) (db : Db)
      → Change db.jobs (create_job pg link fresh now req requester db).1.jobs
  unfolding create_job row_check
  create_job-Change link fresh now req requester db =
      over-Change link _ db (elim (Option-cases (parse_uuid requester)) [
        | inl e ↦ rw e (same refl)
        | inr (key, e) ↦ rw e (elim (Bool-cases (row_check fresh key req db)) [
          | inl t ↦
              rw t (inserted fresh now key req (ground arith) (ground arith) (ground arith) refl)
          | inr t ↦ rw t (same refl)
        ])
      ])

  claim_job-Change :
      (link : Link) (locked : ℕ → Bool) (now : ℕ) (w : Text) (db : Db)
      → Distinct JobRow.id db.jobs
      → Change db.jobs (claim_job pg link locked now w db).1.jobs
  unfolding claim_job
  claim_job-Change link locked now w db d =
      over-Change link _ db (elim (Option-cases (next_queued locked db.jobs)) [
        | inl e ↦ rw e (same refl)
        | inr (r, e) ↦
            let (m, q, _) = next_queued-free locked db.jobs r e in
            rw e (
              moved (has_id r.id) (set_running w now)
                (λ x n p.
                  claimed w now
                    (rw (Among-unique JobRow.id db.jobs x r d n m (has_id-eq r.id x p)) q) refl)
                refl)
      ])

  complete_job-Change :
      (runs : ℕ → Bool) (commit : Link) (now : ℕ) (job : Job) (listings : List Listing) (db : Db)
      → Change db.jobs (complete_job pg runs commit now job listings db).1.jobs
  complete_job-Change runs commit now job listings db =
      elim (complete_job_all_or_nothing pg runs commit now job listings db) [
        | inl e ↦ same (ap (λ (d : Db). d.jobs) e)
        | inr (id, r, _, _, e) ↦
            moved (owned id job.worker_id) (set_complete listings now)
              (λ x _ p. finished listings now (owned-running id job.worker_id x p) refl)
              (ap (λ (d : Db). d.jobs) e ∙ (unfold completed in refl))
      ]

  add_key-jobs :
      (link : Link) (fresh now : ℕ) (secret : Option Text) (name : Text) (rpm : ℤ) (db : Db)
      → (create_api_key pg hash link fresh now secret name rpm db).1.jobs ≡ db.jobs
  unfolding create_api_key insert_key
  add_key-jobs link fresh now secret name rpm db = ground arith

  -- Every call of every method, whichever round trips fail, leaves the jobs as they are, adds one
  -- queued job, or moves jobs along edges of the diagram, if the jobs' ids are distinct.
  pub step-Change :
      (op : Op) (db : Db) → Distinct JobRow.id db.jobs → Change db.jobs (step pg hash op db).jobs
  unfolding step
  step-Change (create link fresh now req requester) db d =
      create_job-Change link fresh now req requester db
  step-Change (claim link locked now w) db d = claim_job-Change link locked now w db d
  step-Change (refresh link now id w) db d =
      unfold refresh_job_claim in
      over-Change link _ db (elim (Option-cases (parse_uuid id)) [
        | inl e ↦ rw e (same refl)
        | inr (u, e) ↦ rw e (update_owned-Change u w _ db (λ r h. renewed now h refl))
      ])
  step-Change (finish runs commit now job listings) db d =
      complete_job-Change runs commit now job listings db
  step-Change (fail link now id w message) db d =
      unfold fail_job in
      over-Change link _ db (elim (Option-cases (parse_uuid id)) [
        | inl e ↦ rw e (same refl)
        | inr (u, e) ↦ rw e (update_owned-Change u w _ db (λ r h. given_up message now h refl))
      ])
  step-Change (requeue link now older_than) db d =
      unfold requeue_stale_jobs in
      over-Change link _ db (
        moved (is_stale older_than now) set_queued
          (λ r _ p. requeued (is_stale-running older_than now r p) refl) refl)
  step-Change (prune link now days) db d = unfold prune_history in over-Change link _ db (same refl)
  step-Change (touch link now id capabilities) db d =
      unfold touch_worker in over-Change link _ db (same refl)
  step-Change (add_key link fresh now secret name rpm) db d =
      same (add_key-jobs link fresh now secret name rpm db)
  step-Change (authenticate link now raw) db d =
      unfold authenticate_api_key in over-Change link _ db (same refl)
  step-Change (revoke link now id) db d =
      unfold revoke_api_key in
      over-Change link _ db (elim (Option-cases (parse_uuid id)) [
        | inl e ↦ rw e (same refl)
        | inr (u, e) ↦ rw e (same refl)
      ])
