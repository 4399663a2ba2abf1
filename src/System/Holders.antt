-- ===== src/System/Holders.antt =====
-- Which slot of which worker process may write a job.
use web_scraper.Base.{
  ℕ, ◌≡◌, sym, ◌∙◌, inl, inr, some, Text, get_elem?, Among-unique, count_where_pos,
}
use web_scraper.Base.Slots.{get_elem?-set_same, get_elem?-set_ne, same_slot}
use web_scraper.Config.{Config}
use web_scraper.Store.Db.{StoreError, JobRow, Postgres}
use web_scraper.Store.Jobs.{owned}
use web_scraper.Store.Lifecycle.Invariant.{IsValid}
use web_scraper.Worker.Process.{Process, first_process, stop as no_step}
use web_scraper.Worker.Process.Names.{slot_name-injective}
use web_scraper.Worker.Process.Named.{AllNamed, Step-AllNamed, first-AllNamed}
use web_scraper.Worker.Process.Holders.{Holds, owned-same}
use web_scraper.Store.Lifecycle.Claimed.{owned-id}
use web_scraper.System.{System, at_tables, Step, works, requests, Run, stop, step}
use web_scraper.System.Runs.{system-IsValid}

module _ (pg : Postgres) (hash : Text → Text) (message : StoreError → Text) (configs : ℕ → Config)
    (admin_token : Text) where
  -- Every slot of every worker process works under its own claim id.
  abbrev Named : System → Type 0
  Named s =
      (k : ℕ) (p : Process)
      → get_elem? s.workers k ≡ some p
      → AllNamed pg hash message (configs k) p

  Step-Named : {s t : System} → Step pg hash message configs admin_token s t → Named s → Named t
  Step-Named (works {s = s} k p t h x) n = λ m q g. elim (same_slot m k) [
    | inr d ↦ n m q (sym (get_elem?-set_ne s.workers k m t d) ∙ g)
    | inl e ↦
        let f : t ≡ q = cc (get_elem?-set_same s.workers k p t h, rw e at g) in
        rw (e, ← f) (Step-AllNamed pg hash message (configs k) x (n k p h))
  ]
  Step-Named (requests route q e r l db o f) n = n

  Run-Named : (s t : System) → Run pg hash message configs admin_token s t → Named s → Named t
  Run-Named s t stop n = n
  Run-Named s t (step {t = u} x r) n = Run-Named u t r (Step-Named x n)

  -- Every worker process is where `main` starts its goroutines.
  abbrev pub HasStarted : System → Type 0
  HasStarted s =
      (k : ℕ) (p : Process) → get_elem? s.workers k ≡ some p → p ≡ first_process (configs k) s.db

  HasStarted-Named : (s : System) → HasStarted s → Named s
  HasStarted-Named s start k p h =
      rw (start k p h)
        (first-AllNamed pg hash message (configs k) s.db (first_process (configs k) s.db) no_step)

  -- The slot `i` of the worker process `k` holds the job of this id: it works on the job, and the
  -- job's row runs under its claim.
  abbrev SlotHolds : System → ℕ → ℕ → ℕ → Type 0
  SlotHolds s k i id =
      (p : Process) × (get_elem? s.workers k ≡ some p) × Holds pg (at_tables s p) i id

  -- From valid jobs and worker processes that have just started, whatever the slots of any number
  -- of these processes, the renewals of their claims, the requests at the API and other processes
  -- do, and whatever round trips fail: two slots never hold the same job, unless they are slots
  -- with the same number of processes with the same worker id.
  pub system_holders_are_one :
      (s t : System) (k m i j id : ℕ)
      → IsValid s.db.jobs
      → HasStarted s
      → Run pg hash message configs admin_token s t
      → SlotHolds t k i id
      → SlotHolds t m j id
      → ((configs k).worker_id ≡ (configs m).worker_id) × (i ≡ j)
  system_holders_are_one s t k m i j id v start r (p, f, a) (q, g, b) =
      let named = Run-Named s t r (HasStarted-Named s start) in
      let (x, xm, xo) = count_where_pos (owned id a.job.worker_id) t.db.jobs a.running in
      let (y, ym, yo) = count_where_pos (owned id b.job.worker_id) t.db.jobs b.running in
      let valid = system-IsValid pg hash message configs admin_token s t r v in
      let e : y ≡ x =
        Among-unique JobRow.id t.db.jobs y x valid.distinct ym xm
          (owned-id id b.job.worker_id y yo ∙ sym (owned-id id a.job.worker_id x xo)) in
      slot_name-injective (configs k) (configs m) i j (
        sym ((named k p f i a.slot a.here).phase a.job a.at_work)
        ∙ owned-same id a.job.worker_id b.job.worker_id x xo (rw e at yo)
        ∙ (named m q g j b.slot b.here).phase b.job b.at_work)
