-- ===== src/System/Runs.antt =====
-- What the system does to the tables is a sequence of calls of the store.
use web_scraper.Base.{ℕ, ap, Text}
use web_scraper.Config.{Config}
use web_scraper.Store.Db.{StoreError, Postgres}
use web_scraper.Store.Lifecycle.Invariant.{IsValid, run-IsValid}
use web_scraper.Worker.Loop.Refines.{IsRun, IsRun-refl, IsRun-trans}
use web_scraper.Worker.Process.Refines.{Step-IsRun}
use web_scraper.Api.Server.Refines.{serve-IsRun}
use web_scraper.System.{System, Step, works, requests, Run, stop, step}

module _ (pg : Postgres) (hash : Text → Text) (message : StoreError → Text) (configs : ℕ → Config)
    (admin_token : Text) where
  step-IsRun :
      {s t : System} → Step pg hash message configs admin_token s t → IsRun pg hash s.db t.db
  step-IsRun (works {s = s} k p t h x) = Step-IsRun pg hash message (configs k) x
  step-IsRun (requests {s = s} route q e r l db o f) =
      rw (ap (λ x. x.1) f) at (serve-IsRun pg hash message admin_token route q e s.limiter s.db o)

  -- However the steps of any worker processes, the requests at the API and the calls of other
  -- processes interleave, and whatever round trips fail, the tables that the system leaves are
  -- those after some sequence of the store's calls. What holds after every such sequence holds in
  -- every run of the system.
  system-IsRun :
      (s t : System) → Run pg hash message configs admin_token s t → IsRun pg hash s.db t.db
  system-IsRun s t stop = IsRun-refl pg hash s.db
  system-IsRun s t (step {t = u} x r) =
      IsRun-trans pg hash s.db u.db t.db (step-IsRun x) (system-IsRun u t r)

  pub system-IsValid :
      (s t : System)
      → Run pg hash message configs admin_token s t
      → IsValid s.db.jobs
      → IsValid t.db.jobs
  system-IsValid s t r v =
      let (ops, e) = system-IsRun s t r in rw e (run-IsValid pg hash ops s.db v)
