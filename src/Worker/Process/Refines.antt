-- ===== src/Worker/Process/Refines.antt =====
-- What a worker process does to the tables is a sequence of calls of the store.
use web_scraper.Base.{ℕ, ◌≡◌, refl, ap, List, Text}
use web_scraper.Store.Db.{StoreError, Db, Postgres}
use web_scraper.Store.Lifecycle.{
  Op, claim, refresh, finish, fail, requeue, prune, touch, step as after,
}
use web_scraper.Store.Lifecycle.Invariant.{IsValid, run-IsValid}
use web_scraper.Base.Int.{pos_part}
use web_scraper.Worker.Lease.{stale_after}
use web_scraper.Config.{Config}
use web_scraper.Worker.Loop.Refines.{IsRun, IsRun-refl, IsRun-trans, IsRun-one}
use web_scraper.Worker.Process.{
  Process, Slot, Upkeep, Move, leaves, claims, scrapes, wakes, saves, returns, fails, Renewal,
  renews, rests, Tick, arrives, beats, requeues, prunes, ends, Step, slot_moves, renewal_moves,
  ticks, signals, outside, Run, stop, step, slot_name,
}

module _ (pg : Postgres) (hash : Text → Text) (message : StoreError → Text) (c : Config) where
  one : (op : Op) (db db' : Db) → after pg hash op db ≡ db' → IsRun pg hash db db'
  one op db db' e = rw (← e) (IsRun-one pg hash op db)

  Move-IsRun :
      (i : ℕ) (s : Process) (old : Slot) {new : Slot} {db : Db}
      → Move pg hash message c i s old new db
      → IsRun pg hash s.db db
  unfolding after
  Move-IsRun i s old (leaves e h) = IsRun-refl pg hash s.db
  Move-IsRun i s old (claims link locked now r db e h q) =
      one (claim link locked now (slot_name c i)) s.db db (ap (λ a. a.1) q)
  Move-IsRun i s old (scrapes job n answer e) = IsRun-refl pg hash s.db
  Move-IsRun i s old (wakes job n e) = IsRun-refl pg hash s.db
  Move-IsRun i s old (saves job l runs commit now r db e q) =
      one (finish runs commit now job l) s.db db (ap (λ a. a.1) q)
  Move-IsRun i s old (returns job m e h) = IsRun-refl pg hash s.db
  Move-IsRun i s old (fails job m link now e h) =
      one (fail link now job.id (slot_name c i) m) s.db _ refl

  Renewal-IsRun :
      (i : ℕ) (s : Process) (old : Slot) {new : Slot} {db : Db}
      → Renewal pg hash message c i s old new db
      → IsRun pg hash s.db db
  unfolding after
  Renewal-IsRun i s old (renews job link now r db e q) =
      one (refresh link now job.id (slot_name c i)) s.db db (ap (λ a. a.1) q)
  Renewal-IsRun i s old (rests job e h) = IsRun-refl pg hash s.db

  Tick-IsRun :
      (capabilities : List Text) (s : Process) {upkeep : Upkeep} {db : Db}
      → Tick pg hash message c capabilities s upkeep db
      → IsRun pg hash s.db db
  unfolding after
  Tick-IsRun capabilities s (arrives link now e) =
      one (touch link now c.worker_id capabilities) s.db _ refl
  Tick-IsRun capabilities s (beats link now e) =
      one (touch link now c.worker_id capabilities) s.db _ refl
  Tick-IsRun capabilities s (requeues link now e) =
      one (requeue link now (stale_after c)) s.db _ refl
  Tick-IsRun capabilities s (prunes link now e) =
      one (prune link now (pos_part c.retention_days)) s.db _ refl
  Tick-IsRun capabilities s (ends e h) = IsRun-refl pg hash s.db

  pub Step-IsRun : {s t : Process} → Step pg hash message c s t → IsRun pg hash s.db t.db
  Step-IsRun (slot_moves {s = s} i old new db h m) = Move-IsRun i s old m
  Step-IsRun (renewal_moves {s = s} i old new db h m) = Renewal-IsRun i s old m
  Step-IsRun (ticks {s = s} capabilities upkeep db m) = Tick-IsRun capabilities s m
  Step-IsRun (signals {s = s} h) = IsRun-refl pg hash s.db
  Step-IsRun (outside {s = s} op) = IsRun-one pg hash op s.db

  -- However the goroutines of a worker process and the other processes interleave, the tables
  -- that a run leaves are those after some sequence of the store's calls. What holds after every
  -- such sequence holds in every run.
  process-IsRun : (s t : Process) → Run pg hash message c s t → IsRun pg hash s.db t.db
  process-IsRun s t stop = IsRun-refl pg hash s.db
  process-IsRun s t (step {t = u} x r) =
      IsRun-trans pg hash s.db u.db t.db (Step-IsRun x) (process-IsRun u t r)

  -- From valid jobs, every run of a worker process leads to valid jobs.
  process-IsValid :
      (s t : Process) → Run pg hash message c s t → IsValid s.db.jobs → IsValid t.db.jobs
  process-IsValid s t r v =
      let (ops, e) = process-IsRun s t r in rw e (run-IsValid pg hash ops s.db v)
