-- ===== src/Ziz/Migrate/Complete.antt =====
-- What a migration has done when it finishes.
use web_scraper.Base.{
  ℕ, suc, ◌↔◌, ◌&&◌, arith, ◌≡◌, ◌≤◌, refl, sym, ◌∙◌, inl, inr, Bool, true, false, Option, none,
  some, Text, Among, Bool-cases, if◌then◌else◌, subst,
}
use web_scraper.Base.Int.{ℤ, pos, negsuc, ltb_ℤ, ◌≤ℤ◌}
use web_scraper.Base.Dict.{lookup}
use web_scraper.Ziz.Types.{Urls, Article}
use web_scraper.Ziz.Client.{Fetched, Page, page}
use web_scraper.Ziz.Client.Settings.{Client}
use web_scraper.Ziz.Parts.{Packages, File, Files, part_name}
use web_scraper.Ziz.Pool.{Pool, Succeeds, total_of}
use web_scraper.Ziz.Pool.Exported.{Exported}
use web_scraper.Ziz.Pool.Complete.{export-IsExported}
use web_scraper.Ziz.Validate.{ValidateStats, validate_articles}
use web_scraper.Ziz.Validate.Counts.{collected, IsCounted, validate_articles-IsCounted}
use web_scraper.Ziz.Validate.Collected.{collected_iff, part_name-is_part}
use web_scraper.Ziz.Migrate.{
  whole, Docs, Saved, saved, unsaved, ended, Flags, ExportStats, export_stats, MediaStats, Summary,
  Exit, finished, is_short, summary_path, after_summary, Steps, summarized, with_downloads,
  with_validation, with_client, migrate,
}
use web_scraper.Ziz.Migrate.Report.{Leaves, write_json-Leaves}

is_short_iff :
    (a : ExportStats) (v : ValidateStats)
    → (is_short a v ≡ true) ↔ (pos (suc v.unique_articles) ≤ℤ a.expected_articles)
is_short_iff a v = by_sign a.expected_articles v.unique_articles
  where
    by_sign : (n : ℤ) (u : ℕ) → ((ltb_ℤ (pos 0) n && ltb_ℤ (pos u) n) ≡ true) ↔ (pos (suc u) ≤ℤ n)
    by_sign (pos n) u = ground arith
    by_sign (negsuc n) u = ground arith

module _ (urls : Urls) (scheme : Urls.Url urls → Text) (f : Flags) (steps : Steps) where
  abbrev pub reported : Option MediaStats
  reported = if f.with_media then steps.media else none

  abbrev summary_of : ExportStats → ValidateStats → Option MediaStats → Summary
  summary_of a v m = record { base_url = f.base_url; articles = a; validation = v; media = m }

  -- The run's summary has these statistics, and the run warns if they call for it.
  abbrev Reports : ExportStats → ValidateStats → Option MediaStats → Bool → Docs Summary → Type 0
  Reports a v m short docs =
      (lookup summary_path docs ≡ some (whole (summary_of a v m))) × (short ≡ is_short a v)

  abbrev pub Ends : Exit × Docs Summary → Bool → Type 0
  Ends r short = r.0 ≡ finished short

  after_summary-Reports :
      (a : ExportStats) (v : ValidateStats) (m : Option MediaStats) (docs : Docs Summary)
      (short : Bool) (w : Saved Summary)
      → Leaves steps.script summary_path (summary_of a v m) docs w
      → Ends (after_summary (is_short a v) w) short
      → Reports a v m short (after_summary (is_short a v) w).1
  after_summary-Reports a v m docs short (saved after) (here, _, _) h = (here, cc)
  after_summary-Reports a v m docs short (unsaved after) l h = cc
  after_summary-Reports a v m docs short (ended after) l h = cc

  summarized-Reports :
      (a : ExportStats) (v : ValidateStats) (m : Option MediaStats) (docs : Docs Summary)
      (short : Bool)
      → Ends (summarized urls scheme f steps a v m docs) short
      → Reports a v m short (summarized urls scheme f steps a v m docs).1
  summarized-Reports a v m docs short h =
      after_summary-Reports a v m docs short _
        (write_json-Leaves steps.script summary_path (summary_of a v m) docs) h

  media_branch :
      (a : ExportStats) (v : ValidateStats) (docs : Docs Summary) (short b : Bool)
      (o : Option MediaStats)
      → let r =
          if b
          then with_downloads urls scheme f steps a v o docs
          else summarized urls scheme f steps a v none docs in
        Ends r short → Reports a v (if b then o else none) short r.1
  media_branch a v docs short true none h = cc
  media_branch a v docs short true (some m) h = summarized-Reports a v (some m) docs short h
  media_branch a v docs short false o h = summarized-Reports a v none docs short h

  with_validation-Reports :
      (a : ExportStats) (o : Option ValidateStats) (docs : Docs Summary) (short : Bool)
      → Ends (with_validation urls scheme f steps a o docs) short
      → (v : ValidateStats) × (o ≡ some v)
        × Reports a v reported short (with_validation urls scheme f steps a o docs).1
  with_validation-Reports a none docs short h = cc
  with_validation-Reports a (some v) docs short h =
      (v, refl, media_branch a v docs short f.with_media steps.media h)

  with_client-Reports :
      (c : Option (Client urls scheme)) (a : ExportStats) (files : Files) (docs : Docs Summary)
      (short : Bool)
      → steps.exported ≡ some (a, files)
      → Ends (with_client urls scheme f steps c docs) short
      → (v : ValidateStats) × (validate_articles files ≡ some v)
        × Reports a v reported short (with_client urls scheme f steps c docs).1
  with_client-Reports none a files docs short e h = cc
  with_client-Reports (some c) a files docs short e h =
      rw e (with_validation-Reports a (validate_articles files) docs short (rw e at h))

  migrate-Reports :
      (a : ExportStats) (files : Files) (docs : Docs Summary) (short : Bool)
      → steps.exported ≡ some (a, files)
      → Ends (migrate urls scheme f steps docs) short
      → (v : ValidateStats) × (validate_articles files ≡ some v)
        × Reports a v reported short (migrate urls scheme f steps docs).1
  unfolding migrate
  migrate-Reports a files docs short e h = elim (Bool-cases steps.made) [
    | inl m ↦ rw m (with_client-Reports _ a files docs short e (rw m at h))
    | inr m ↦ absurd (cc (rw m at h))
  ]

  -- When a migration finishes, and its export has returned no error with its context not ended:
  -- every page from 1 to the last has its part, of the server or from before; the validation has
  -- counted the articles of the directory, those of every page's part among them; the summary on
  -- disk has these counts, and the numbers of articles and pages that WordPress reported with page
  -- 1; and the run warns exactly if the directory has fewer different ids than the articles that
  -- WordPress reported.
  pub migrate-Complete :
      (p : Packages) (ask : ℕ → Fetched) (before : Files) (first : Page) (s : Pool)
      (docs : Docs Summary) (short : Bool)
      → ask 1 ≡ page first
      → Succeeds p f.resume ask f.workers before (total_of first.total_pages) s
      → steps.exported ≡ some (export_stats first s, s.files)
      → Ends (migrate urls scheme f steps docs) short
      → (v : ValidateStats) × (x : Summary) × IsCounted (collected s.files).state v
        × (lookup summary_path (migrate urls scheme f steps docs).1 ≡ some (whole x))
        × (x.validation ≡ v)
        × (x.media ≡ reported)
        × (x.articles.expected_articles ≡ first.total)
        × (x.articles.expected_pages ≡ total_of first.total_pages)
        × (x.articles.articles_written ≡ s.articles_written)
        × ((short ≡ true) ↔ (pos (suc v.unique_articles) ≤ℤ first.total))
        × ((n : ℕ)
            → 1 ≤ n
            → n ≤ total_of first.total_pages
            → Exported p f.resume (total_of first.total_pages) ask before n s.files
              × ((x : File)
                  → lookup (part_name n) s.files ≡ some x
                  → (a : Article) → Among a x.articles
                  → Among a (collected s.files).state))
  migrate-Complete p ask before first s docs short asked done e h =
      let (v, valid, (here, warns)) =
        migrate-Reports (export_stats first s) s.files docs short e h in
      elim (validate_articles-IsCounted s.files) [
        | inl (c, n) ↦ cc
        | inr (c, (w, r, counted)) ↦ (
          v,
          summary_of (export_stats first s) v reported,
          subst (IsCounted (collected s.files).state) (cc) counted,
          here,
          refl,
          refl,
          refl,
          refl,
          refl,
          (
            λ e. (is_short_iff (export_stats first s) v).0 (sym warns ∙ e),
            λ l. warns ∙ (is_short_iff (export_stats first s) v).1 l,
          ),
          λ n l m. (
            (export-IsExported p f.resume ask before f.workers (total_of first.total_pages) s
                  done).0
                n l m,
            λ x g a k. (collected_iff s.files a c).1 (part_name n, x, part_name-is_part n, g, k),
          ),
        )
      ]
