-- ===== src/Store/Lifecycle/Claims.antt =====
-- Who may work on a job: which job a claim takes, and what becomes of the other workers' calls.
use web_scraper.Base.{
  ℕ, ◌≡◌, ◌≢◌, refl, ◌⊎◌, inl, inr, Bool, true, false, not, ◌&&◌, Option, none, some, List, [], ◌∷◌,
  Text, arith, if◌then◌else◌, Among, Bool-cases, Option-cases,
}
use web_scraper.Model.{queued}
use web_scraper.Store.Db.{JobRow, Db, ok, err, no_rows, up, Postgres}
use web_scraper.Store.Jobs.{
  is_queued, precedes, earlier, next_queued, scan_claim, claim_job, set_running,
}
use web_scraper.Store.Lifecycle.Edges.{next_queued-free}

abbrev pub IsFree : (ℕ → Bool) → JobRow → Type 0
IsFree locked x = (x.status ≡ queued) × (locked x.id ≡ false)

free_test :
    (locked : ℕ → Bool) (x : JobRow) → IsFree locked x → (is_queued x && not (locked x.id)) ≡ true
unfolding is_queued
free_test locked x f = ground arith

next_queued-cons :
    (locked : ℕ → Bool) (y : JobRow) (rows : List JobRow)
    → next_queued locked (y ∷ rows) ≡ (
        if is_queued y && not (locked y.id)
        then earlier y (next_queued locked rows)
        else next_queued locked rows)
unfolding next_queued
next_queued-cons locked y rows = refl

-- `precedes` is the strict part of a total order with ties.
not_precedes_trans :
    (a b c : JobRow) → precedes a b ≡ false → precedes b c ≡ false → precedes a c ≡ false
unfolding precedes
not_precedes_trans a b c p q = ground arith

not_precedes_refl : (a : JobRow) → precedes a a ≡ false
unfolding precedes
not_precedes_refl a = ground arith

not_precedes_flip : (a b : JobRow) → precedes a b ≡ true → precedes b a ≡ false
unfolding precedes
not_precedes_flip a b p = ground arith

-- the taken row of a row and an earlier result: it is one of them, and neither comes before it
earlier-some : (y : JobRow) (o : Option JobRow) → earlier y o ≢ none
unfolding earlier
earlier-some y none = λ e. cc
earlier-some y (some b) = λ e. ground arith

earlier-first :
    (y : JobRow) (o : Option JobRow) (r : JobRow)
    → earlier y o ≡ some r
    → (precedes y r ≡ false) × ((b : JobRow) → o ≡ some b → precedes b r ≡ false)
unfolding earlier
earlier-first y none r h = (ground (arith, not_precedes_refl y), λ b e. cc)
earlier-first y (some b) r h = (
  ground (arith, not_precedes_refl y, not_precedes_flip b y),
  λ b' e. ground (arith, not_precedes_refl b),
)

pub next_queued-none :
    (locked : ℕ → Bool) (rows : List JobRow) (x : JobRow)
    → next_queued locked rows ≡ none
    → Among x rows
    → ¬ IsFree locked x
next_queued-none locked [] x h m = elim m [ ]
next_queued-none locked (y ∷ rows) x h (inl e) = λ f.
    earlier-some y (next_queued locked rows)
      (rw (next_queued-cons, free_test locked y (rw e f)) at h)
next_queued-none locked (y ∷ rows) x h (inr m) = λ f.
    elim (Bool-cases (is_queued y && not (locked y.id))) [
      | inl t ↦ earlier-some y (next_queued locked rows) (rw (next_queued-cons, t) at h)
      | inr t ↦ next_queued-none locked rows x (rw (next_queued-cons, t) at h) m f
    ]

-- of the free rows, none comes strictly before the one that is taken
next_queued-first :
    (locked : ℕ → Bool) (rows : List JobRow) (r x : JobRow)
    → next_queued locked rows ≡ some r
    → Among x rows
    → IsFree locked x
    → precedes x r ≡ false
next_queued-first locked [] r x h m f = elim m [ ]
next_queued-first locked (y ∷ rows) r x h (inl e) f =
    rw (← e)
      (earlier-first y (next_queued locked rows) r
        (rw (next_queued-cons, free_test locked y (rw e f)) at h)).0
next_queued-first locked (y ∷ rows) r x h (inr m) f =
    elim (Bool-cases (is_queued y && not (locked y.id))) [
      | inr t ↦ next_queued-first locked rows r x (rw (next_queued-cons, t) at h) m f
      | inl t ↦ elim (Option-cases (next_queued locked rows)) [
        | inl e ↦ absurd (next_queued-none locked rows x e m f)
        | inr (b, e) ↦
            not_precedes_trans x b r (next_queued-first locked rows b x e m f)
              ((earlier-first y (next_queued locked rows) r (rw (next_queued-cons, t) at h)).1 b e)
      ]
    ]

module _ (pg : Postgres) where
  -- A claim, when its round trip goes through, either returns a queued, unlocked row as running
  -- under the caller's claim, and passes over no queued, unlocked row of higher priority, or of
  -- the same priority and an earlier creation; or it finds no row, and there is no queued,
  -- unlocked row.
  pub claim_job-first :
      (locked : ℕ → Bool) (now : ℕ) (w : Text) (db : Db)
      → ((r : JobRow) × Among r db.jobs
          × IsFree locked r
          × ((claim_job pg up locked now w db).0 ≡ ok (scan_claim pg (set_running w now r)))
          × ((x : JobRow) → Among x db.jobs → IsFree locked x → precedes x r ≡ false))
        ⊎ (((claim_job pg up locked now w db).0 ≡ err no_rows)
            × ((x : JobRow) → Among x db.jobs → ¬ IsFree locked x))
  unfolding claim_job
  claim_job-first locked now w db = elim (Option-cases (next_queued locked db.jobs)) [
    | inl e ↦ inr (rw e, λ x. next_queued-none locked db.jobs x e)
    | inr (r, e) ↦
        let (m, q, l) = next_queued-free locked db.jobs r e in
        inl (r, m, (q, l), rw e, λ x. next_queued-first locked db.jobs r x e)
  ]
