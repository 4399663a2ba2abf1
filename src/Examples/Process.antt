-- ===== src/Examples/Process.antt =====
-- Runs of a worker process.
use web_scraper.Base.{
  ℕ, ◌*◌, ◌≤◌, ◌≡◌, refl, ◌⊎◌, true, false, none, some, [], ◌∷◌, codes, arith, get_elem?, length,
  count_where,
}
use web_scraper.Store.Db.{up, Db}
use web_scraper.Base.Int.{pos}
use web_scraper.Base.{update_where, text_eq}
use web_scraper.Go.Strconv.{decimal}
use web_scraper.Model.{Job, running}
use web_scraper.Store.Db.{over}
use web_scraper.Worker.Process.Named.{job_of}
use web_scraper.Examples.Queue.{db-IsValid}
use web_scraper.Store.Jobs.{claim_job, owned, next_queued, is_queued, earlier, scan_claim, has_id}
use web_scraper.Worker.Loop.Refines.{IsRun-refl}
use web_scraper.Base.{zero, suc, Text}
use web_scraper.Worker.Process.{Step}
use web_scraper.Worker.Process.{
  Process, Slot, free, first_process, slot_name, after_claim, puts, Run, stop, step, slot_moves,
  claims, leaves, goes, gone,
}
use web_scraper.Worker.Process.Holders.{Holds}
use web_scraper.Worker.Process.Shutdown.{own_steps, CanMove, shutdown_ends}
use web_scraper.System.{
  System, works, requests, Run as SystemRun, stop as no_more, step as after_step,
}
use web_scraper.System.Holders.{HasStarted, system_holders_are_one}
use web_scraper.Api.Limiter.{new_rate_limiter}
use web_scraper.Api.Reply.{reply, is_ok}
use web_scraper.Api.Search.{not_json}
use web_scraper.Api.Server.{Request, Surroundings, healthz, key_revocation, serve}
use web_scraper.Api.Server.Guarded.{is_keyed, is_admins, HasKey, HasToken, serve-Guarded}
use web_scraper.Config.{Config}
use web_scraper.Examples.Data.{server, hash, db}
use web_scraper.Examples.Slots.{config, message}

-- the claim of the first slot
abbrev after : Db
after = (claim_job server up (λ n. false) 600 (slot_name config 0) db).1

abbrev slot : Slot
slot = after_claim config (claim_job server up (λ n. false) 600 (slot_name config 0) db).0

abbrev claimed : Process
claimed = puts 0 slot after (first_process config db)

abbrev claim_step : Step server hash message config (first_process config db) claimed
claim_step = slot_moves 0 free slot after refl (claims up (λ n. false) 600 _ after refl refl refl)

-- the signal, and the return of the second slot
abbrev told : Process
told = record claimed { stopping = true }

abbrev returned : Process
returned = puts 1 (goes free gone) told.db told

abbrev ending : Run server hash message config told returned
ending =
    step {t = returned} (slot_moves 1 free (goes free gone) told.db refl (leaves refl refl)) stop

shutdown_ends_example :
    (own_steps server hash message config ending ≤ 4 * length told.slots)
    × ((i : ℕ) (s : Slot)
        → get_elem? returned.slots i ≡ some s
        → (s.phase ≡ gone) ⊎ CanMove server hash message config returned i s)
shutdown_ends_example = shutdown_ends server hash message config told returned ending refl

-- the job that the claim returned
abbrev mine : Job
mine = record {
  id = 1 ∷ [];
  marketplace = codes "ebay";
  query = codes "esp32";
  limit = pos 20;
  status = running;
  worker_id = slot_name config 0;
  error = [];
  result = [];
  created_at = 200;
  finished_at = none;
}

at_work : job_of slot.phase ≡ some mine
unfolding after_claim claim_job over next_queued is_queued earlier scan_claim
at_work = refl

running_once : count_where (owned 1 mine.worker_id) after.jobs ≡ 1
unfolding claim_job over next_queued is_queued earlier has_id update_where count_where owned text_eq
    slot_name decimal
running_once = refl

holds : Holds server claimed 0 1
holds = record {
  slot = slot;
  job = mine;
  here = refl;
  at_work = at_work;
  names = refl;
  running = λ e. absurd (omega (arith, e, running_once));
}

-- the system with one worker process, before and after the claim
abbrev before : System
before = record { db = db; limiter = new_rate_limiter; workers = first_process config db ∷ [] }

abbrev later : System
later = record before { db = after; workers = claimed ∷ [] }

abbrev configs : ℕ → Config
configs k = config

abbrev token : Text
token = codes "t"

-- a request with the administrator's token
abbrev asked : Request
asked = record {
  authorization = codes "Bearer t";
  content_type = [];
  search_body = not_json;
  key_body = none;
  compact = [];
  days = [];
}

abbrev around : Surroundings
around = record {
  key_link = up;
  link = up;
  tick = 0;
  key_now = 610;
  now = 620;
  fresh = 9;
  secret = none;
  others = λ d. d;
  events = [];
}

pinged :
    serve server hash message token healthz asked around new_rate_limiter after
    ≡ ((some (reply 200 is_ok), new_rate_limiter), after)
unfolding serve
pinged = refl

-- the claim, and then a request
abbrev history : SystemRun server hash message configs token before later
history = after_step {t = later} (works 0 (first_process config db) claimed refl claim_step) (
    after_step {t = later}
      (requests healthz asked around (some (reply 200 is_ok)) new_rate_limiter after
        (IsRun-refl server hash) pinged)
      no_more)

started : HasStarted server hash message configs token before
started zero p h = cc
started (suc k) p h = cc

system_holders_are_one_example : (config.worker_id ≡ config.worker_id) × ◌≡◌ {A = ℕ} 0 0
system_holders_are_one_example =
    system_holders_are_one server hash message configs token before later 0 0 0 0 1 db-IsValid
      started history (claimed, refl, holds) (claimed, refl, holds)

serve-Guarded_example :
    let db' =
      (serve server hash message token
        (key_revocation (codes "x"))
        asked
        around
        new_rate_limiter
        db).1 in
    (db' ≡ db)
    ⊎ ((is_keyed (key_revocation (codes "x")) ≡ true) × HasKey server hash asked db)
    ⊎ ((is_admins (key_revocation (codes "x")) ≡ true) × HasToken server hash message token asked)
serve-Guarded_example =
    serve-Guarded server hash message token (key_revocation (codes "x")) asked around
      new_rate_limiter db
