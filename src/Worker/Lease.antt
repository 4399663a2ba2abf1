-- ===== src/Worker/Lease.antt =====
-- The configuration against the queue: how late a worker may renew its claim.
use web_scraper.Base.{
  ℕ, ◌+◌, ◌*◌, ◌/◌, ◌≤◌, ◌≡◌, false, some, List, Text, arith, Among, Among-update_where,
}
use web_scraper.Base.Int.{ℤ, pos, negsuc, pos_part, ◌≤ℤ◌}
use web_scraper.Store.Db.{JobRow, Db, Link, up}
use web_scraper.Store.Jobs.{is_stale, requeue_stale_jobs, set_queued}
use web_scraper.Store.Keys.{touch_worker}
use web_scraper.Config.{Config, triple}
use web_scraper.Config.Bounds.{IsSane}
use web_scraper.Worker.{heartbeat_tick}

-- `cfg.WorkerStaleAfter` as the interval of the statement, in microseconds
abbrev pub stale_after : Config → ℕ
stale_after c = pos_part c.worker_stale_after / 1000

stale_part : (h s : ℤ) → pos 0 ≤ℤ h → triple h ≤ℤ s → 3 * pos_part h ≤ pos_part s
unfolding triple
stale_part (pos n) (pos m) p q = omega arith
stale_part (pos n) (negsuc m) p q = omega arith
stale_part (negsuc n) s p q = absurd (omega arith)

not_stale :
    (c : Config) (r : JobRow) (t now : ℕ)
    → IsSane c
    → r.claimed_at ≡ some t
    → now * 1000 ≤ t * 1000 + 3 * pos_part c.worker_heartbeat_interval
    → is_stale (stale_after c) now r ≡ false
unfolding is_stale
not_stale c r t now s e h = ground (
  arith,
  e,
  stale_part c.worker_heartbeat_interval c.worker_stale_after (omega (arith, s.heartbeat.0))
      s.stale,
)

touch_worker-jobs :
    (l : Link) (now : ℕ) (w : Text) (capabilities : List Text) (db : Db)
    → (touch_worker l now w capabilities db).1.jobs ≡ db.jobs
unfolding touch_worker
touch_worker-jobs l now w capabilities db = ground arith

-- Under an accepted configuration a maintenance tick, however its heartbeat ends, leaves alone
-- every job whose claim was made or renewed at most three heartbeat intervals ago: two renewals in
-- a row may be missed.
pub heartbeat_tick-keeps :
    (c : Config) (touch : Link) (r : JobRow) (t now : ℕ) (w : Text) (capabilities : List Text)
    (db : Db)
    → IsSane c
    → Among r db.jobs
    → r.claimed_at ≡ some t
    → now * 1000 ≤ t * 1000 + 3 * pos_part c.worker_heartbeat_interval
    → Among r (heartbeat_tick touch up now w capabilities (stale_after c) db).jobs
unfolding heartbeat_tick requeue_stale_jobs
heartbeat_tick-keeps c touch r t now w capabilities db s m e h =
    rw (touch_worker-jobs touch now w capabilities db) (
      Among-update_where (is_stale (stale_after c) now) set_queued db.jobs r
        (not_stale c r t now s e h) m)
