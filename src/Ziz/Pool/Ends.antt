-- ===== src/Ziz/Pool/Ends.antt =====
-- The pool always ends: a step is possible while a worker has not returned, and there are not
-- infinitely many.
use web_scraper.Base.{
  ℕ, suc, ◌+◌, ◌-◌, ◌*◌, ◌≤◌, ◌<◌, ◌≡◌, refl, ◌⊎◌, inl, inr, Bool, true, false, some, List, [], ◌∷◌,
  arith, get_elem?, set, All-imp, ltb, ltb→lt, Bool-cases, Option-cases, ◌==◌, ◌≢◌, Text, ◌++◌,
  length,
}
use web_scraper.Base.Dict.{lookup, insert, remove}
use web_scraper.Ziz.Types.{WpPost}
use web_scraper.Base.Slots.{weigh, weigh-set, weigh_le, first_weighted}
use web_scraper.Ziz.Client.{Fetched}
use web_scraper.Ziz.Parts.{
  Packages, Files, Call, flush, close_gzip, works, encodes, unfinished, temporary, whole_part,
  in_turn, written, write_article_part, part_name,
}
use web_scraper.Ziz.Pool.{
  Pool, Phase, waiting, gone, received, fetching, writing, Step, Run, stop, step, sends, closes,
  interrupts, leaves, drops, skips, asks, fetches, misses, writes, breaks, is_cancelled, IsOver,
}

abbrev phase_weight : Phase → ℕ
phase_weight gone = 0
phase_weight waiting = 1
phase_weight (writing n posts) = 2
phase_weight (fetching n) = 3
phase_weight (received n) = 4

abbrev open_weight : Bool → ℕ
open_weight true = 0
open_weight false = 1

abbrev pub work_left : ℕ → Pool → ℕ
work_left total s =
    4 * (suc total - s.next)
    + weigh phase_weight s.workers
    + open_weight s.closed
    + open_weight s.interrupted

open_weight_le : (b : Bool) → open_weight b ≤ 1
open_weight_le true = omega arith
open_weight_le false = omega arith

phase_weight_le : (w : Phase) → phase_weight w ≤ 4
phase_weight_le gone = omega arith
phase_weight_le waiting = omega arith
phase_weight_le (received n) = omega arith
phase_weight_le (fetching n) = omega arith
phase_weight_le (writing n posts) = omega arith

weightless : (w : Phase) → phase_weight w ≡ 0 → w ≡ gone
weightless gone e = refl
weightless waiting e = absurd (omega (arith, e))
weightless (received n) e = absurd (omega (arith, e))
weightless (fetching n) e = absurd (omega (arith, e))
weightless (writing n posts) e = absurd (omega (arith, e))

module _ (p : Packages) (resume : Bool) (total : ℕ) (ask : ℕ → Fetched) where
  abbrev Shrinks : List Phase → ℕ → Phase → Phase → Type 0
  Shrinks ws i old new =
      weigh phase_weight (set ws i new) + phase_weight old
      ≡ weigh phase_weight ws + phase_weight new

  shrinks :
      (ws : List Phase) (i : ℕ) (old new : Phase) → get_elem? ws i ≡ some old → Shrinks ws i old new
  shrinks ws i old new h = weigh-set phase_weight ws i old new h

  Step-shrinks : (s t : Pool) → Step p resume total ask s t → work_left total t < work_left total s
  Step-shrinks s t (sends i c n h) = omega (arith, shrinks s.workers i waiting (received s.next) h)
  Step-shrinks s t (closes c d) = rw c (omega arith)
  Step-shrinks s t (interrupts c) = rw c (omega arith)
  Step-shrinks s t (leaves i h c) = omega (arith, shrinks s.workers i waiting gone h)
  Step-shrinks s t (drops i n h c) = omega (arith, shrinks s.workers i (received n) gone h)
  Step-shrinks s t (skips i n h c r d e) = omega (arith, shrinks s.workers i (received n) waiting h)
  Step-shrinks s t (asks i n h c d) = omega (arith, shrinks s.workers i (received n) (fetching n) h)
  Step-shrinks s t (fetches i n r h e) =
      omega (arith, shrinks s.workers i (fetching n) (writing n r.posts) h)
  Step-shrinks s t (misses i n h) = omega (arith, shrinks s.workers i (fetching n) gone h)
  Step-shrinks s t (writes i n posts now script files h e) =
      omega (arith, shrinks s.workers i (writing n posts) waiting h)
  Step-shrinks s t (breaks i n posts now script files h e) =
      omega (arith, shrinks s.workers i (writing n posts) gone h)

  abbrev pub steps : {s t : Pool} → Run p resume total ask s t → ℕ
  steps stop = 0
  steps (step x r) = suc (steps r)

  steps_le :
      (s t : Pool) (r : Run p resume total ask s t)
      → steps r + work_left total t ≤ work_left total s
  steps_le s t stop = omega arith
  steps_le s t (step {t = u} x r) = omega (arith, Step-shrinks s u x, steps_le u t r)

  in_turn-works : (calls : List Call) → in_turn (λ c. works) calls ≡ works
  unfolding in_turn
  in_turn-works [] = refl
  in_turn-works (c ∷ calls) = in_turn-works calls

  write-works :
      (name : Text) (posts : List WpPost) (files : Files)
      → (after : Files) × (write_article_part p [] (λ c. works) name posts files ≡ written after)
  unfolding write_article_part in_turn
  write-works name posts files =
      let part = whole_part p [] posts in
      (
        insert name part (
            remove (temporary name)
              (insert (temporary name) part (insert (temporary name) unfinished files))),
        rw (in_turn-works (encodes 0 posts ++ flush ∷ close_gzip ∷ [])) refl,
      )

  moves :
      (s : Pool) (i : ℕ) (w : Phase)
      → get_elem? s.workers i ≡ some w
      → phase_weight w ≢ 0
      → (t : Pool) × Step p resume total ask s t
  moves s i gone h n = absurd (n refl)
  moves s i waiting h n = elim (Bool-cases s.closed) [
    | inl c ↦ (_, leaves i h c)
    | inr c ↦ elim (Bool-cases (ltb total s.next)) [
      | inl e ↦ (_, closes c (inl (ltb→lt total s.next e)))
      | inr e ↦ (_, sends i c (ground arith) h)
    ]
  ]
  moves s i (received n) h _ = elim (Bool-cases (is_cancelled s)) [
    | inl c ↦ (_, drops i n h c)
    | inr c ↦ elim (Bool-cases resume) [
      | inr r ↦ (_, asks i n h c (inl r))
      | inl r ↦ elim (Option-cases (lookup (part_name n) s.files)) [
        | inl e ↦ (_, asks i n h c (inr (inr e)))
        | inr (f, e) ↦ elim (Bool-cases (n == total)) [
          | inl d ↦ (_, asks i n h c (inr (inl (ground arith))))
          | inr d ↦ (_, skips i n h c r (ground arith) (λ z. cc))
        ]
      ]
    ]
  ]
  moves s i (fetching n) h _ = (_, misses i n h)
  moves s i (writing n posts) h _ =
      let (files, e) = write-works (part_name n) posts s.files in
      (_, writes i n posts [] (λ c. works) files h e)

  -- The pool never stops before every worker has returned, and its runs are finite: whatever fails
  -- and however the steps interleave, a run makes at most four steps for each page that is not sent
  -- yet, four for each worker, and two more.
  pub pool_ends :
      (s t : Pool) (r : Run p resume total ask s t)
      → (IsOver t ⊎ ((u : Pool) × Step p resume total ask t u))
        × (steps r ≤ 4 * (suc total - s.next) + 4 * length s.workers + 2)
  pool_ends s t r = (
    next_step,
    omega (
      arith,
      steps_le s t r,
      weigh_le phase_weight phase_weight_le s.workers,
      open_weight_le s.closed,
      open_weight_le s.interrupted,
    ),
  )
    where
      next_step : IsOver t ⊎ ((u : Pool) × Step p resume total ask t u)
      next_step = elim (first_weighted phase_weight t.workers) [
        | inl h ↦ inl (All-imp (λ w. phase_weight w ≡ 0) (λ w. w ≡ gone) t.workers weightless h)
        | inr (i, w, e, n) ↦ inr (moves t i w e n)
      ]
