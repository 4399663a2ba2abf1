-- ===== src/Ziz/Pool/Complete.antt =====
-- What `ExportArticles` has done when it returns without an error.
use web_scraper.Base.{
  ℕ, zero, suc, ◌+◌, ◌≤◌, ◌<◌, ◌≡◌, refl, sym, ap, subst, ◌⊎◌, inl, inr, Bool, true, Option, none,
  some, arith, All, All-imp, length, Text, Bool-cases, ◌==◌, ◌&&◌, &&-eq-true,
}
use web_scraper.Base.Int.{ℤ, pos, negsuc}
use web_scraper.Base.Dict.{lookup}
use web_scraper.Base.Slots.{weigh_zero, get_elem?-All}
use web_scraper.Ziz.Client.{Fetched, page, request_failed, not_json, no_headers, Page}
use web_scraper.Ziz.Parts.{
  Packages, File, Files, Call, Outcome, Written, died, written, failed, part_name, whole_part,
  write_article_part,
}
use web_scraper.Ziz.Pool.{
  Pool, waiting, gone, Start, no_answer, no_part, returns, starts, begin, begin_written,
  start_export, total_of, workers_of, idle_workers, first_pool, is_here, Succeeds, at_once, pooled,
}
use web_scraper.Ziz.Pool.Exported.{Exported, Origin, wrote, Origin-wrote}
use web_scraper.Ziz.Pool.Workers.{busy, true_ne_false, waiting_ne_writing, waiting_ne_gone}
use web_scraper.Ziz.Pool.Invariant.{IsGood, IsGood-run, IsGood-over}

-- What `ExportArticles` has exported when it returns: the pages 1 to `total`.
abbrev pub IsExported : Packages → Bool → (ℕ → Fetched) → Files → ℕ → Pool → Type 0
IsExported p resume ask before total s =
    ((n : ℕ) → 1 ≤ n → n ≤ total → Exported p resume total ask before n s.files)
    × (s.pages_written + s.pages_skipped ≡ total)

length-idle_workers : (n : ℕ) → 0 < n → 0 < length (idle_workers n)
length-idle_workers zero h = h
length-idle_workers (suc n) h = omega arith

workers_of_pos : (workers : ℤ) → 0 < workers_of workers
workers_of_pos (pos n) = ground arith
workers_of_pos (negsuc n) = ground arith

total_of_pos : (n : ℤ) → 1 ≤ total_of n
total_of_pos (pos n) = ground arith
total_of_pos (negsuc n) = ground arith

length-idle : (workers : ℤ) → 0 < length (idle_workers (workers_of workers))
length-idle workers = length-idle_workers (workers_of workers) (workers_of_pos workers)

is_here-found : (o : Option File) → is_here o ≡ true → (f : File) × (o ≡ some f)
is_here-found none h = cc
is_here-found (some f) h = (f, refl)

module _ (p : Packages) (resume : Bool) (ask : ℕ → Fetched) (before : Files) where
  abbrev Started : Start → Type 0
  Started no_answer = Unit
  Started (no_part files) = Unit
  Started (returns s) = IsExported p resume ask before 1 s
  Started (starts total s) = IsGood p resume total ask before s

  -- The first part, of the server or from before.
  abbrev First : Files → Type 0
  First files =
      (f : File) × (lookup (part_name 1) files ≡ some f)
      × (((r : Page) × (now : Text) × (ask 1 ≡ page r) × (f ≡ whole_part p now r.posts))
          ⊎ ((resume ≡ true) × (lookup (part_name 1) before ≡ some f)))

  First-Exported :
      (total n : ℕ) (files : Files)
      → 1 ≡ n
      → First files
      → Exported p resume total ask before n files
  First-Exported total n files d (f, e, k) =
      subst (λ (m : ℕ). Exported p resume total ask before m files) d
        (f, e, elim k [ inl x ↦ inl x | inr (r, x) ↦ inr (r, inr refl, x) ])

  waiting-idle : (n : ℕ) → All (λ w. w ≡ waiting) (idle_workers n)
  waiting-idle zero = tt
  waiting-idle (suc n) = (refl, waiting-idle n)

  first_pool-IsGood :
      (total : ℕ) (workers : ℤ) (files : Files) (parts articles skipped : ℕ)
      → 1 ≤ total
      → parts + skipped ≡ 1
      → Origin p resume total ask before files
      → First files
      → IsGood p resume total ask before (first_pool workers files parts articles skipped)
  first_pool-IsGood total workers files parts articles skipped l c o e =
      let ws = idle_workers (workers_of workers) in
      record {
        origin = o;
        asked = λ i n posts h. absurd (
            waiting_ne_writing n posts
              (sym (get_elem?-All (λ w. w ≡ waiting) ws i _ (waiting-idle _) h)));
        progress = λ z. (
          λ n a b. inl (First-Exported total n files (omega arith) e),
          omega (
            arith,
            weigh_zero busy ws (
                All-imp (λ w. w ≡ waiting) (λ w. busy w ≡ 0) ws (λ w h. ap busy h)
                  (waiting-idle _)),
          ),
        );
        returned = λ z. (
          λ f. absurd (true_ne_false (sym f)),
          λ (i, h). absurd (
              waiting_ne_gone
                (sym (get_elem?-All (λ w. w ≡ waiting) ws i gone (waiting-idle _) h))),
        );
        bound = omega arith;
        someone = length-idle workers;
      }

  begin-Started :
      (total : ℕ) (workers : ℤ) (files : Files) (parts articles skipped : ℕ)
      → 1 ≤ total
      → parts + skipped ≡ 1
      → Origin p resume total ask before files
      → First files
      → Started (begin total (first_pool workers files parts articles skipped))
  begin-Started total workers files parts articles skipped l c o e =
      elim (Bool-cases (total == 1)) [
        | inl h ↦ rw h (λ n a b. First-Exported 1 n files (omega arith) e, c)
        | inr h ↦ rw h (first_pool-IsGood total workers files parts articles skipped l c o e)
      ]

  begin_written-Started :
      (workers : ℤ) (now : Text) (script : Call → Outcome) (r : Page) (w : Written)
      → ask 1 ≡ page r
      → write_article_part p now script (part_name 1) r.posts before ≡ w
      → Started (begin_written (total_of r.total_pages) workers (length r.posts) w)
  begin_written-Started workers now script r (written files) a e =
      let total = total_of r.total_pages in
      begin-Started total workers files 1 (length r.posts) 0 (total_of_pos r.total_pages) refl
        (Origin-wrote p resume total ask before 1 r.posts now script before files e (r, a, refl)
          (λ n f h. inr h))
        (
          whole_part p now r.posts,
          (wrote p resume total ask before 1 r.posts now script before files e).0,
          inl (r, now, a, refl),
        )
  begin_written-Started workers now script r (failed files) a e = tt
  begin_written-Started workers now script r (died files) a e = tt

  start_export-Started :
      (workers : ℤ) (now : Text) (script : Call → Outcome) (answer : Fetched)
      → ask 1 ≡ answer
      → Started (start_export p resume workers now script before answer)
  unfolding start_export
  start_export-Started workers now script (page r) a =
      elim (Bool-cases (resume && is_here (lookup (part_name 1) before))) [
        | inr e ↦ rw e (begin_written-Started workers now script r _ a refl)
        | inl e ↦
            let (d, h) = &&-eq-true resume _ e in
            let (f, k) = is_here-found (lookup (part_name 1) before) h in
            rw e (
              begin-Started (total_of r.total_pages) workers before 0 0 1
                (total_of_pos r.total_pages) refl (λ n g i. inr i) (f, k, inr (d, k)))
      ]
  start_export-Started workers now script request_failed a = tt
  start_export-Started workers now script not_json a = tt
  start_export-Started workers now script no_headers a = tt

  -- When `ExportArticles` returns no error and its context has not ended, however its workers
  -- interleave and whatever calls fail, every page from 1 to the last has its part in the
  -- directory: it holds the posts that the server returned for the page or, when the export
  -- resumes, it is the part from before, and then the page is not the last of several. Each page is
  -- counted once, as written or as skipped.
  pub export-IsExported :
      (workers : ℤ) (total : ℕ) (s : Pool)
      → Succeeds p resume ask workers before total s
      → IsExported p resume ask before total s
  export-IsExported workers total s (at_once now script e) =
      subst Started e (start_export-Started workers now script (ask 1) refl)
  export-IsExported workers total s
        (pooled {s = s₀} now script e run over none_failed not_interrupted) =
      IsGood-over p resume total ask before s
        (IsGood-run p resume total ask before s₀ s run
          (subst Started e (start_export-Started workers now script (ask 1) refl)))
        over (rw (none_failed, not_interrupted) refl)
