-- ===== src/Worker/Process/Named.antt =====
-- A slot works on jobs under its own claim id only.
use web_scraper.Base.{
  ℕ, zero, suc, ◌≡◌, refl, sym, ap, ◌∙◌, inl, inr, Bool, false, Option, none, some, Text, get_elem?,
  ltb, if_cases, Option-cases,
}
use web_scraper.Base.Slots.{get_elem?-set_same, get_elem?-set_ne, same_slot}
use web_scraper.Base.Int.{pos_part}
use web_scraper.Model.{Job}
use web_scraper.Config.{Config}
use web_scraper.Store.Db.{StoreError, Result, ok, err, Db, Link, up, refused, reply_lost, Postgres}
use web_scraper.Store.Jobs.{claim_job, next_queued, scan_claim}
use web_scraper.Worker.{Scrape, listings, scrape_failed, is_claim_lost}
use web_scraper.Worker.Process.{
  Phase, idle, gone, scraping, waiting, saving, failing, Slot, Process, slot_name, free, goes,
  after_claim, after_scrape, after_save, after_renewal, free_slots, first_process, puts, Move,
  leaves, claims, scrapes, wakes, saves, returns, fails, Renewal, renews, rests, Step, slot_moves,
  renewal_moves, ticks, signals, outside, Run, stop, step,
}

-- the job of a phase
abbrev pub job_of : Phase → Option Job
job_of idle = none
job_of gone = none
job_of (scraping job n) = some job
job_of (waiting job n) = some job
job_of (saving job l) = some job
job_of (failing job m) = some job

-- The slot acts under its own claim only.
abbrev IsOwn : Text → Option Job → Type 0
IsOwn w o = (job : Job) → o ≡ some job → job.worker_id ≡ w

pub record IsNamed (w : Text) (slot : Slot) : Type 0 where
  pub phase : IsOwn w (job_of slot.phase)
  pub renewal : IsOwn w slot.renewal

none-IsOwn : (w : Text) → IsOwn w none
none-IsOwn w job e = cc

some-IsOwn : (w : Text) (job : Job) → job.worker_id ≡ w → IsOwn w (some job)
some-IsOwn w job h j e = let f : job ≡ j = cc in rw (← f) h

free-IsNamed : (w : Text) → IsNamed w free
free-IsNamed w = record { phase = none-IsOwn w; renewal = none-IsOwn w }

phase-IsNamed :
    (w : Text) (slot : Slot) (phase : Phase)
    → IsNamed w slot
    → IsOwn w (job_of phase)
    → IsNamed w (goes slot phase)
phase-IsNamed w slot phase h o = record { phase = o; renewal = h.renewal }

at_phase :
    (w : Text) (slot : Slot) (phase : Phase)
    → IsNamed w slot
    → slot.phase ≡ phase
    → IsOwn w (job_of phase)
at_phase w slot phase h e = rw (← e) h.phase

failing-IsNamed :
    (w : Text) (job : Job) (m : Text)
    → IsOwn w (some job)
    → IsNamed w (record { phase = failing job m; renewal = none; lost = false })
failing-IsNamed w job m h = record { phase = h; renewal = none-IsOwn w }

after_scrape-IsNamed :
    (w : Text) (c : Config) (stopping : Bool) (slot : Slot) (job : Job) (n : ℕ) (answer : Scrape)
    → IsNamed w slot
    → IsOwn w (some job)
    → IsNamed w (after_scrape c stopping slot job n answer)
unfolding after_scrape
after_scrape-IsNamed w c stopping slot job n (listings l) h o =
    if_cases (IsNamed w) slot.lost (free-IsNamed w) (phase-IsNamed w slot (saving job l) h o)
after_scrape-IsNamed w c stopping slot job n (scrape_failed m) h o =
    if_cases (IsNamed w) slot.lost (free-IsNamed w) (
      if_cases (IsNamed w) stopping (failing-IsNamed w job m o) (
        if_cases (IsNamed w) (ltb n (pos_part c.worker_max_attempts))
          (phase-IsNamed w slot (waiting job n) h o) (failing-IsNamed w job m o)))

after_save-IsNamed :
    (w : Text) (message : StoreError → Text) (job : Job) (r : Result (Unit {0}))
    → IsOwn w (some job)
    → IsNamed w (after_save message job r)
unfolding after_save
after_save-IsNamed w message job (ok x) o = free-IsNamed w
after_save-IsNamed w message job (err e) o =
    if_cases (IsNamed w) (is_claim_lost e) (free-IsNamed w) (failing-IsNamed w job (message e) o)

after_renewal-IsNamed :
    (w : Text) (slot : Slot) (r : Result (Unit {0}))
    → IsNamed w slot
    → IsNamed w (after_renewal slot r)
unfolding after_renewal
after_renewal-IsNamed w slot (ok x) h = h
after_renewal-IsNamed w slot (err e) h =
    if_cases (IsNamed w) (is_claim_lost e) (record { phase = h.phase; renewal = none-IsOwn w }) h

after_claim-IsNamed :
    (w : Text) (c : Config) (r : Result Job)
    → ((job : Job) → r ≡ ok job → job.worker_id ≡ w)
    → IsNamed w (after_claim c r)
unfolding after_claim
after_claim-IsNamed w c (err e) h = free-IsNamed w
after_claim-IsNamed w c (ok job) h =
    if_cases (IsNamed w) (ltb 0 (pos_part c.worker_max_attempts))
      (record { phase = some-IsOwn w job (h job refl); renewal = some-IsOwn w job (h job refl) })
      (free-IsNamed w)

module _ (pg : Postgres) where
  claim_job-worker_id :
      (link : Link) (locked : ℕ → Bool) (now : ℕ) (w : Text) (db : Db) (job : Job)
      → (claim_job pg link locked now w db).0 ≡ ok job
      → job.worker_id ≡ w
  unfolding claim_job scan_claim
  claim_job-worker_id up locked now w db job h = elim (Option-cases (next_queued locked db.jobs)) [
    | inl e ↦ absurd (cc (rw e at h))
    | inr (r, e) ↦ cc (rw e at h)
  ]
  claim_job-worker_id refused locked now w db job h = cc
  claim_job-worker_id reply_lost locked now w db job h = cc

  module _ (hash : Text → Text) (message : StoreError → Text) (c : Config) where
    abbrev pub AllNamed : Process → Type 0
    AllNamed s =
        (i : ℕ) (slot : Slot) → get_elem? s.slots i ≡ some slot → IsNamed (slot_name c i) slot

    Move-IsNamed :
        (i : ℕ) (s : Process) (old : Slot) {new : Slot} {db : Db}
        → Move pg hash message c i s old new db
        → IsNamed (slot_name c i) old
        → IsNamed (slot_name c i) new
    Move-IsNamed i s old (leaves e h) n = phase-IsNamed _ old gone n (none-IsOwn _)
    Move-IsNamed i s old (claims link locked now r db e h q) n =
        after_claim-IsNamed _ c r λ job f.
          claim_job-worker_id link locked now (slot_name c i) s.db job (ap (λ a. a.0) q ∙ f)
    Move-IsNamed i s old (scrapes job k answer e) n =
        after_scrape-IsNamed _ c s.stopping old job k answer n (at_phase _ old _ n e)
    Move-IsNamed i s old (wakes job k e) n =
        phase-IsNamed _ old (scraping job (suc k)) n (at_phase _ old _ n e)
    Move-IsNamed i s old (saves job l runs commit now r db e q) n =
        after_save-IsNamed _ message job r (at_phase _ old _ n e)
    Move-IsNamed i s old (returns job m e h) n = phase-IsNamed _ old gone n (none-IsOwn _)
    Move-IsNamed i s old (fails job m link now e h) n = free-IsNamed _

    Renewal-IsNamed :
        (i : ℕ) (s : Process) (old : Slot) {new : Slot} {db : Db}
        → Renewal pg hash message c i s old new db
        → IsNamed (slot_name c i) old
        → IsNamed (slot_name c i) new
    Renewal-IsNamed i s old (renews job link now r db e q) n = after_renewal-IsNamed _ old r n
    Renewal-IsNamed i s old (rests job e h) n = record { phase = n.phase; renewal = none-IsOwn _ }

    put :
        (s : Process) (i : ℕ) (old new : Slot) (db : Db)
        → get_elem? s.slots i ≡ some old
        → AllNamed s
        → IsNamed (slot_name c i) new
        → AllNamed (puts i new db s)
    put s i old new db g a n j slot h = elim (same_slot j i) [
      | inl e ↦
          let f : new ≡ slot = cc (get_elem?-set_same s.slots i old new g, rw e at h) in
          rw (e, ← f) n
      | inr d ↦ a j slot (sym (get_elem?-set_ne s.slots i j new d) ∙ h)
    ]

    pub Step-AllNamed : {s t : Process} → Step pg hash message c s t → AllNamed s → AllNamed t
    Step-AllNamed (slot_moves {s = s} i old new db h m) a =
        put s i old new db h a (Move-IsNamed i s old m (a i old h))
    Step-AllNamed (renewal_moves {s = s} i old new db h m) a =
        put s i old new db h a (Renewal-IsNamed i s old m (a i old h))
    Step-AllNamed (ticks capabilities upkeep db m) a = a
    Step-AllNamed (signals h) a = a
    Step-AllNamed (outside op) a = a

    Run-AllNamed : (s t : Process) → Run pg hash message c s t → AllNamed s → AllNamed t
    Run-AllNamed s t stop a = a
    Run-AllNamed s t (step {t = u} x r) a = Run-AllNamed u t r (Step-AllNamed x a)

    free_slots-free : (n i : ℕ) (slot : Slot) → get_elem? (free_slots n) i ≡ some slot → slot ≡ free
    free_slots-free zero i slot h = cc
    free_slots-free (suc n) zero slot h = cc
    free_slots-free (suc n) (suc i) slot h = free_slots-free n i slot h

    -- Every slot of a process that has started works and renews under its own claim id.
    pub first-AllNamed :
        (db : Db) (t : Process) → Run pg hash message c (first_process c db) t → AllNamed t
    first-AllNamed db t r = Run-AllNamed (first_process c db) t r λ i slot h.
        rw (free_slots-free (pos_part c.worker_concurrency) i slot h) (free-IsNamed (slot_name c i))
