-- ===== src/Ziz/Download/Ends.antt =====
-- The crew always ends: no channel blocks it for good, and there are not infinitely many steps.
use web_scraper.Base.{
  All-imp, ℕ, suc, ◌+◌, ◌*◌, ◌≤◌, ◌<◌, ◌≡◌, ◌≢◌, refl, ap, ◌⊎◌, inl, inr, Bool, true, false, some,
  List, [], ◌∷◌, Text, arith, get_elem?, set, All, length, length-append, Bool-cases, Option-cases,
}
use web_scraper.Base.Slots.{weigh, weigh-set, weigh_le, first_weighted}
use web_scraper.Base.Dict.{lookup}
use web_scraper.Ziz.Client.{bad_request}
use web_scraper.Ziz.Media.{MediaRecord, MediaStatus, downloaded, skipped, failed, Calls}
use web_scraper.Ziz.Download.{
  Crew, Task, waiting, gone, received, sending, Step, sends, closes, interrupts, leaves, drops,
  passes, downloads, delivers, abandons, collects, breaks, Run, stop, step, is_cancelled, takes,
  counted,
}

abbrev task_weight : Task → ℕ
task_weight gone = 0
task_weight waiting = 1
task_weight (sending r) = 3
task_weight (received url) = 4

abbrev open_weight : Bool → ℕ
open_weight true = 0
open_weight false = 1

abbrev work_left : Crew → ℕ
work_left s =
    4 * length s.todo
    + weigh task_weight s.workers
    + length s.results
    + open_weight s.closed
    + open_weight s.interrupted

open_weight_le : (b : Bool) → open_weight b ≤ 1
open_weight_le true = omega arith
open_weight_le false = omega arith

task_weight_le : (t : Task) → task_weight t ≤ 4
task_weight_le gone = omega arith
task_weight_le waiting = omega arith
task_weight_le (received url) = omega arith
task_weight_le (sending r) = omega arith

weightless : (t : Task) → task_weight t ≡ 0 → t ≡ gone
weightless gone e = refl
weightless waiting e = absurd (omega (arith, e))
weightless (received url) e = absurd (omega (arith, e))
weightless (sending r) e = absurd (omega (arith, e))

-- The loop has ended: the workers have returned, and no result is left or the loop has broken off.
abbrev pub HasEnded : Crew → Type 0
HasEnded s = All (λ task. task ≡ gone) s.workers × ((s.results ≡ []) ⊎ (s.broken ≡ true))

module _ (hash : Text → Text) (extension : Text → Text → Text) (max_bytes capacity : ℕ)
    (resume : Bool) (seen : List (Text × MediaRecord)) where
  abbrev Steps : Crew → Crew → Type 0
  Steps = Step hash extension max_bytes capacity resume seen

  takes-weight :
      (s : Crew) (i : ℕ) (r : MediaRecord) (files : _)
      → work_left (takes i r files s)
        ≡ work_left (record s { workers = set s.workers i (sending r) })
  takes-weight s i r files = by_status r.status
    where
      by_status :
          (status : MediaStatus)
          → work_left (record (counted status r.size s) {
            workers = set s.workers i (sending r);
            files = files;
          })
            ≡ work_left (record s { workers = set s.workers i (sending r) })
      by_status downloaded = refl
      by_status skipped = refl
      by_status failed = refl

  shrinks :
      (ts : List Task) (i : ℕ) (old new : Task)
      → get_elem? ts i ≡ some old
      → weigh task_weight (set ts i new) + task_weight old ≡ weigh task_weight ts + task_weight new
  shrinks ts i old new h = weigh-set task_weight ts i old new h

  Step-shrinks : (s t : Crew) → Steps s t → work_left t < work_left s
  Step-shrinks s t (sends i url rest c e h) =
      omega (arith, ap length e, shrinks s.workers i waiting (received url) h)
  Step-shrinks s t (closes c d) = rw c (omega arith)
  Step-shrinks s t (interrupts c) = rw c (omega arith)
  Step-shrinks s t (leaves i h c) = omega (arith, shrinks s.workers i waiting gone h)
  Step-shrinks s t (drops i url h c) = omega (arith, shrinks s.workers i (received url) gone h)
  Step-shrinks s t (passes i url h c r k) =
      omega (arith, shrinks s.workers i (received url) waiting h)
  Step-shrinks s t (downloads i url calls answer r files h c k e) =
      omega (arith, takes-weight s i r files, shrinks s.workers i (received url) (sending r) h)
  Step-shrinks s t (delivers i r h l) =
      omega (arith, length-append s.results (r ∷ []), shrinks s.workers i (sending r) waiting h)
  Step-shrinks s t (abandons i r h c) = omega (arith, shrinks s.workers i (sending r) gone h)
  Step-shrinks s t (collects r rest b e) = omega (arith, ap length e)
  Step-shrinks s t (breaks r rest b e) = omega (arith, ap length e)

  abbrev pub steps : {s t : Crew} → Run hash extension max_bytes capacity resume seen s t → ℕ
  steps stop = 0
  steps (step x r) = suc (steps r)

  steps_le :
      (s t : Crew) (r : Run hash extension max_bytes capacity resume seen s t)
      → steps r + work_left t ≤ work_left s
  steps_le s t stop = omega arith
  steps_le s t (step {t = u} x r) = omega (arith, Step-shrinks s u x, steps_le u t r)

  List-cases :
      {A : Type 0} (xs : List A) → (xs ≡ []) ⊎ ((x : A) × (rest : List A) × (xs ≡ x ∷ rest))
  List-cases [] = inl refl
  List-cases (x ∷ xs) = inr (x, xs, refl)

  -- the loop takes a result, if there is one
  collects_or_ended : (s : Crew) → (s.results ≡ []) ⊎ (s.broken ≡ true) ⊎ ((t : Crew) × Steps s t)
  collects_or_ended s = elim (Bool-cases s.broken) [
    | inl b ↦ inr (inl b)
    | inr b ↦ elim (List-cases s.results) [
      | inl e ↦ inl e
      | inr (r, rest, e) ↦ inr (inr (_, collects r rest b e))
    ]
  ]

  healthy : Calls
  healthy = record {
    create_temp = true;
    copy = true;
    sync = true;
    close = true;
    mkdir = true;
    rename = true;
  }

  module _ (room : 0 < capacity) where
    moves :
        (s : Crew) (i : ℕ) (task : Task)
        → get_elem? s.workers i ≡ some task
        → task_weight task ≢ 0
        → (t : Crew) × Steps s t
    moves s i gone h n = absurd (n refl)
    moves s i waiting h n = elim (Bool-cases s.closed) [
      | inl c ↦ (_, leaves i h c)
      | inr c ↦ elim (List-cases s.todo) [
        | inl e ↦ (_, closes c (inl e))
        | inr (url, rest, e) ↦ (_, sends i url rest c e h)
      ]
    ]
    moves s i (received url) h n = elim (Bool-cases (is_cancelled s)) [
      | inl c ↦ (_, drops i url h c)
      | inr c ↦ elim (Bool-cases resume) [
        | inr r ↦ (_, downloads i url healthy bad_request _ _ h c (inl r) refl)
        | inl r ↦ elim (Option-cases (lookup url seen)) [
          | inl e ↦ (_, downloads i url healthy bad_request _ _ h c (inr e) refl)
          | inr (m, e) ↦ (_, passes i url h c r (λ z. cc))
        ]
      ]
    ]
    moves s i (sending r) h n = elim (collects_or_ended s) [
      | inl e ↦ (_, delivers i r h (omega (arith, room, ap length e)))
      | inr (inl b) ↦ (_, abandons i r h (cancelled s b))
      | inr (inr t) ↦ t
    ]
      where
        cancelled : (s : Crew) → s.broken ≡ true → is_cancelled s ≡ true
        cancelled s b = ground arith

    -- `DownloadMedia` always ends, and no channel blocks it for good: until its workers have
    -- returned and its loop has ended, a step is possible, also after the loop has broken off and
    -- takes no more results; and a run makes at most four steps for each URL that is not sent yet,
    -- four for each worker, one for each result in the channel, and two more. The channel of
    -- results has room for at least one.
    pub crew_ends :
        (s t : Crew) (r : Run hash extension max_bytes capacity resume seen s t)
        → (HasEnded t ⊎ ((u : Crew) × Steps t u))
          × (steps r ≤ 4 * length s.todo + 4 * length s.workers + length s.results + 2)
    crew_ends s t r = (
      next_step,
      omega (
        arith,
        steps_le s t r,
        weigh_le task_weight task_weight_le s.workers,
        open_weight_le s.closed,
        open_weight_le s.interrupted,
      ),
    )
      where
        all_gone : All (λ x. task_weight x ≡ 0) t.workers → All (λ x. x ≡ gone) t.workers
        all_gone = All-imp (λ x. task_weight x ≡ 0) (λ x. x ≡ gone) t.workers weightless

        next_step : HasEnded t ⊎ ((u : Crew) × Steps t u)
        next_step = elim (first_weighted task_weight t.workers) [
          | inr (i, task, e, n) ↦ inr (moves t i task e n)
          | inl h ↦ elim (collects_or_ended t) [
            | inl e ↦ inl (all_gone h, inl e)
            | inr (inl b) ↦ inl (all_gone h, inr b)
            | inr (inr u) ↦ inr u
          ]
        ]
