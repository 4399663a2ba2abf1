-- ===== src/Worker/Process/Shutdown.antt =====
-- After the signal a worker process ends.
use web_scraper.Base.{
  ℕ, suc, ◌+◌, ◌*◌, ◌≤◌, ◌<◌, ◌≡◌, refl, ap, ◌⊎◌, inl, inr, true, false, some, [], Text, arith,
  get_elem?, length, if_cases, Bool-cases,
}
use web_scraper.Base.Slots.{weigh, weigh-set, weigh_le}
use web_scraper.Model.{Job}
use web_scraper.Config.{Config}
use web_scraper.Store.Db.{StoreError, Result, ok, err, up, Db, Postgres}
use web_scraper.Store.Complete.Outcome.{healthy}
use web_scraper.Worker.{Scrape, listings, scrape_failed, is_claim_lost}
use web_scraper.Worker.Process.{
  Phase, idle, gone, scraping, waiting, saving, failing, Slot, Process, after_scrape, after_save,
  after_renewal, Move, leaves, claims, scrapes, wakes, saves, returns, fails, Renewal, renews,
  rests, slot_moves, renewal_moves, ticks, signals, outside, Run, stop, step, puts,
}

-- how many steps of its own a slot still makes, when the process has been told to stop
abbrev phase_weight : Phase → ℕ
phase_weight gone = 0
phase_weight idle = 1
phase_weight (failing job m) = 1
phase_weight (saving job l) = 2
phase_weight (scraping job n) = 3
phase_weight (waiting job n) = 4

abbrev weight : Slot → ℕ
weight slot = phase_weight slot.phase

weight_le : (phase : Phase) → phase_weight phase ≤ 4
weight_le gone = omega arith
weight_le idle = omega arith
weight_le (failing job m) = omega arith
weight_le (saving job l) = omega arith
weight_le (scraping job n) = omega arith
weight_le (waiting job n) = omega arith

after_scrape_lt :
    (c : Config) (slot : Slot) (job : Job) (n : ℕ) (answer : Scrape)
    → weight (after_scrape c true slot job n answer) ≤ 2
unfolding after_scrape
after_scrape_lt c slot job n (listings l) =
    if_cases (λ x. weight x ≤ 2) slot.lost (omega arith) (omega arith)
after_scrape_lt c slot job n (scrape_failed m) =
    if_cases (λ x. weight x ≤ 2) slot.lost (omega arith) (omega arith)

after_save_le :
    (message : StoreError → Text) (job : Job) (r : Result (Unit {0}))
    → weight (after_save message job r) ≤ 1
unfolding after_save
after_save_le message job (ok x) = omega arith
after_save_le message job (err e) =
    if_cases (λ x. weight x ≤ 1) (is_claim_lost e) (omega arith) (omega arith)

after_renewal-weight :
    (slot : Slot) (r : Result (Unit {0})) → weight (after_renewal slot r) ≡ weight slot
unfolding after_renewal
after_renewal-weight slot (ok x) = refl
after_renewal-weight slot (err e) =
    if_cases (λ x. weight x ≡ weight slot) (is_claim_lost e) refl refl

module _ (pg : Postgres) (hash : Text → Text) (message : StoreError → Text) (c : Config) where
  Move-shrinks :
      (i : ℕ) (s : Process) (old : Slot) {new : Slot} {db : Db}
      → s.stopping ≡ true
      → Move pg hash message c i s old new db
      → weight new < weight old
  Move-shrinks i s old h (leaves e g) = rw e (omega arith)
  Move-shrinks i s old h (claims link locked now r db e g q) = absurd (cc)
  Move-shrinks i s old h (scrapes job n answer e) =
      rw h (omega (arith, ap phase_weight e, after_scrape_lt c old job n answer))
  Move-shrinks i s old h (wakes job n e) = rw e (omega arith)
  Move-shrinks i s old h (saves job l runs commit now r db e q) =
      rw e (omega (arith, after_save_le message job r))
  Move-shrinks i s old h (returns job m e g) = rw e (omega arith)
  Move-shrinks i s old h (fails job m link now e g) = absurd (cc)

  Renewal-weight :
      (i : ℕ) (s : Process) (old : Slot) {new : Slot} {db : Db}
      → Renewal pg hash message c i s old new db
      → weight new ≡ weight old
  Renewal-weight i s old (renews job link now r db e q) = after_renewal-weight old r
  Renewal-weight i s old (rests job e g) = refl

  -- the steps that the slots make themselves
  abbrev pub own_steps : {s t : Process} → Run pg hash message c s t → ℕ
  own_steps stop = 0
  own_steps (step (slot_moves i old new db h m) r) = suc (own_steps r)
  own_steps (step (renewal_moves i old new db h m) r) = own_steps r
  own_steps (step (ticks capabilities upkeep db m) r) = own_steps r
  own_steps (step (signals h) r) = own_steps r
  own_steps (step (outside op) r) = own_steps r

  own_steps_le :
      (s t : Process) (r : Run pg hash message c s t)
      → s.stopping ≡ true
      → own_steps r + weigh weight t.slots ≤ weigh weight s.slots
  own_steps_le s t stop h = omega arith
  own_steps_le s t (step (slot_moves i old new db e m) r) h = omega (
    arith,
    own_steps_le (puts i new db s) t r h,
    weigh-set weight s.slots i old new e,
    Move-shrinks i s old h m,
  )
  own_steps_le s t (step (renewal_moves i old new db e m) r) h = omega (
    arith,
    own_steps_le (puts i new db s) t r h,
    weigh-set weight s.slots i old new e,
    Renewal-weight i s old m,
  )
  own_steps_le s t (step (ticks capabilities upkeep db m) r) h =
      own_steps_le (record s { upkeep = upkeep; db = db }) t r h
  own_steps_le s t (step (signals g) r) h = absurd (cc)
  own_steps_le s t (step (outside op) r) h = own_steps_le _ t r h

  abbrev pub CanMove : Process → ℕ → Slot → Type 0
  CanMove s i slot = (new : Slot) × (db : Db) × Move pg hash message c i s slot new db

  moves :
      (s : Process) (i : ℕ) (slot : Slot) (phase : Phase)
      → slot.phase ≡ phase
      → (phase ≡ gone) ⊎ CanMove s i slot
  moves s i slot gone e = inl refl
  moves s i slot idle e = elim (Bool-cases s.stopping) [
    | inl h ↦ inr (_, _, leaves e h)
    | inr h ↦ inr (_, _, claims up (λ n. false) 0 _ _ e h refl)
  ]
  moves s i slot (scraping job n) e = inr (_, _, scrapes job n (scrape_failed []) e)
  moves s i slot (waiting job n) e = inr (_, _, wakes job n e)
  moves s i slot (saving job l) e = inr (_, _, saves job l healthy up 0 _ _ e refl)
  moves s i slot (failing job m) e = elim (Bool-cases s.stopping) [
    | inl h ↦ inr (_, _, returns job m e h)
    | inr h ↦ inr (_, _, fails job m up 0 e h)
  ]

  -- After the signal a worker process ends: whatever the calls bring and however the goroutines and
  -- other processes interleave, the slots make at most four more steps each, and a slot that has
  -- not returned never waits for anything but its own next step.
  pub shutdown_ends :
      (s t : Process) (r : Run pg hash message c s t)
      → s.stopping ≡ true
      → (own_steps r ≤ 4 * length s.slots)
        × ((i : ℕ) (slot : Slot)
            → get_elem? t.slots i ≡ some slot
            → (slot.phase ≡ gone) ⊎ CanMove t i slot)
  shutdown_ends s t r h = (
    omega (arith, own_steps_le s t r h, weigh_le weight (λ slot. weight_le slot.phase) s.slots),
    λ i slot e. moves t i slot slot.phase refl,
  )
