-- ===== src/Examples/Slots.antt =====
-- Runs of a worker slot, its maintenance and its configuration.
use web_scraper.Base.{
  ℕ, min, ◌+◌, ◌*◌, ◌≡◌, refl, inl, inr, false, [], ◌∷◌, Text, codes, arith, Among, count_where,
  text_eq,
}
use web_scraper.Base.Int.{pos, pos_part, ◌≤ℤ◌}
use web_scraper.Store.Db.{up, refused, StoreError}
use web_scraper.Store.Jobs.{owned}
use web_scraper.Store.Complete.Outcome.{healthy}
use web_scraper.Config.{Config, check, loaded, triple, ms, second}
use web_scraper.Worker.Delay.{factor, retry_delay-check}
use web_scraper.Config.Bounds.{IsSane}
use web_scraper.Worker.{Attempt, listings, process_job, heartbeat_tick, retry_delay}
use web_scraper.Worker.Settles.{IsQuiet, expected, process_job-settles}
use web_scraper.Worker.Lease.{stale_after, heartbeat_tick-keeps}
use web_scraper.Examples.Data.{server, running_row, item, db, held}

-- every round is quiet, and its scrape brings one listing
abbrev pub script : ℕ → Attempt
script n = record {
  others = λ d. d;
  scrape = listings (item ∷ []);
  signalled = false;
  stopping = false;
  runs = healthy;
  commit = up;
  now = 500 + n;
}

pub quiet : (n : ℕ) → IsQuiet (script n)
quiet n = record {
  alone = λ d. refl;
  kept = refl;
  running_on = refl;
  runs_ok = refl;
  commit_ok = refl;
}

abbrev pub message : StoreError → Text
message e = codes "store"

one_owned : count_where (owned 2 held.worker_id) db.jobs ≡ 1
unfolding count_where owned text_eq
one_owned = refl

process_job-settles_example :
    (process_job server message script 3 false up 600 held held.worker_id db).1
    ≡ expected server message script 2 600 3 1 held [] db
process_job-settles_example =
    process_job-settles server message script quiet 2 600 held db refl refl one_owned 3
      (omega arith)

abbrev pub config : Config
config = record {
  api_addr = codes ":8080";
  database_url = codes "postgres";
  admin_token = [];
  retention_days = pos 60;
  worker_id = codes "w1";
  worker_concurrency = pos 4;
  worker_poll_interval = pos (200 * ms);
  worker_max_attempts = pos 3;
  worker_retry_base = pos second;
  worker_heartbeat_interval = pos (20 * second);
  worker_stale_after = pos (90 * second);
  browser_worker_url = codes "http";
  browser_request_timeout = pos (45 * second);
}

sane : IsSane config
unfolding triple
sane = record {
  database = refl;
  retention = omega arith;
  concurrency = (omega arith, omega arith);
  poll = (omega arith, omega arith);
  attempts = (omega arith, omega arith);
  retry = (omega arith, omega arith);
  heartbeat = (omega arith, omega arith);
  stale = omega arith;
  timeout = (omega arith, omega arith);
}

heartbeat_tick-keeps_example :
    Among running_row
      (heartbeat_tick refused up 60000300 (codes "w3") [] (stale_after config) db).jobs
heartbeat_tick-keeps_example =
    heartbeat_tick-keeps config refused running_row 300 60000300 (codes "w3") [] db sane
      (inr (inl refl)) refl (omega arith)

accepted : check config ≡ loaded config
unfolding check triple
accepted = refl

retry_delay-check_example :
    let delay = retry_delay (pos_part config.worker_retry_base) 3 250 in
    (delay ≡ pos (min (pos_part config.worker_retry_base * factor 3) 15000000000 + 250 * 1000000))
    × (pos 100000000 ≤ℤ delay)
    × (delay ≤ℤ pos 15499000000)
retry_delay-check_example =
    retry_delay-check config config 3 250 accepted (omega arith) (omega arith)
