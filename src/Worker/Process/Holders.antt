-- ===== src/Worker/Process/Holders.antt =====
-- What it is for a slot to hold a job, and rows that run under a claim.
use web_scraper.Base.{
  ℕ, ◌≡◌, ◌≢◌, sym, ◌∙◌, inl, inr, true, some, Text, arith, get_elem?, count_where, Option-cases,
  text_eq_iff,
}
use web_scraper.Model.{Job}
use web_scraper.Store.Db.{JobRow, Postgres}
use web_scraper.Store.Jobs.{owned}
use web_scraper.Worker.Process.{Slot, Process}
use web_scraper.Worker.Process.Named.{job_of}

owned-worker :
    (id : ℕ) (v u : Text) (r : JobRow) → owned id v r ≡ true → r.worker_id ≡ some u → u ≡ v
unfolding owned
owned-worker id v u r p e = (text_eq_iff u v).0 (ground (arith, e))

-- A row that runs under two claims runs under one.
pub owned-same :
    (id : ℕ) (v w : Text) (r : JobRow) → owned id v r ≡ true → owned id w r ≡ true → v ≡ w
unfolding owned
owned-same id v w r p q = elim (Option-cases r.worker_id) [
  | inl e ↦ absurd (ground (arith, e))
  | inr (u, e) ↦ sym (owned-worker id v u r p e) ∙ owned-worker id w u r q e
]

module _ (pg : Postgres) where
  -- The slot works on the job of this id, whose row runs under the job's claim: what the slot
  -- writes is kept.
  pub record Holds (s : Process) (i id : ℕ) : Type 0 where
    pub slot : Slot
    pub job : Job
    pub here : get_elem? s.slots i ≡ some slot
    pub at_work : job_of slot.phase ≡ some job
    pub names : Postgres.parse_uuid pg job.id ≡ some id
    pub running : count_where (owned id job.worker_id) s.db.jobs ≢ 0
