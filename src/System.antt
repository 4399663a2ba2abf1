-- ===== src/System.antt =====
-- cmd/worker/main.go and internal/api/server.go together: worker processes and the API process
-- around the tables that they share. A step is one of a worker process, which may stand for a call
-- of a process that is not in the list, or a request. The workers of the list move between
-- requests; what acts during a request, after the check of its key, are calls of the store.
pub mod Runs
pub mod Holders
pub mod Answered
pub mod Roundtrip
use web_scraper.Base.{ℕ, ◌≡◌, Option, some, List, Text, get_elem?, set}
use web_scraper.Config.{Config}
use web_scraper.Store.Db.{StoreError, Db, Postgres}
use web_scraper.Worker.Loop.Refines.{IsOthers}
use web_scraper.Worker.Process.{Process, Step as WorkerStep}
use web_scraper.Api.Limiter.{RateLimiter}
use web_scraper.Api.Reply.{Reply}
use web_scraper.Api.Server.{Pattern, Request, Surroundings, serve}

-- the tables, the limiter of the API process, and the worker processes, whose tables are these
pub record System : Type 0 where
  pub db : Db
  pub limiter : RateLimiter
  pub workers : List Process

-- the worker process, with the tables as they are
abbrev pub at_tables : System → Process → Process
at_tables s p = record p { db = s.db }

module _ (pg : Postgres) (hash : Text → Text) (message : StoreError → Text) (configs : ℕ → Config)
    (admin_token : Text) where
  pub data Step : System → System → Type 0 where
    works :
        {s : System} (k : ℕ) (p t : Process)
        → get_elem? s.workers k ≡ some p
        → WorkerStep pg hash message (configs k) (at_tables s p) t
        → Step s (record s { db = t.db; workers = set s.workers k t })
    requests :
        {s : System} (route : Pattern) (q : Request) (e : Surroundings) (r : Option Reply)
        (l : RateLimiter) (db : Db)
        → IsOthers pg hash e.others
        → serve pg hash message admin_token route q e s.limiter s.db ≡ ((r, l), db)
        → Step s (record s { db = db; limiter = l })

  pub data Run : System → System → Type 0 where
    stop : {s : System} → Run s s
    step : {s t u : System} → Step s t → Run t u → Run s u
