-- ===== src/Ziz/Migrate.antt =====
-- cmd/ziz-migrate/main.go: `main`, from its flags to its exit, and `writeJSON`. What
-- `ExportArticles` and `DownloadMedia` return is an argument, and so is the outcome of each call
-- that makes a file. Logging and the flag parser are not modelled, nor are the times in the
-- summary.
pub mod Report
pub mod Complete
pub mod Media
use web_scraper.Base.{
  ℕ, ◌≡◌, Bool, true, false, ◌&&◌, Option, none, some, List, [], ◌∷◌, Text, codes, length,
  if◌then◌else◌,
}
use web_scraper.Base.Int.{ℤ, pos, ltb_ℤ}
use web_scraper.Base.Dict.{insert, remove}
use web_scraper.Ziz.Types.{Urls}
use web_scraper.Ziz.Client.Settings.{Client, new_client}
use web_scraper.Ziz.Parts.{
  Files, Outcome, works, fails, dies, Call, create, encode, sync, close, rename, remove_temporary,
  in_turn, temporary,
}
use web_scraper.Ziz.Client.{Page}
use web_scraper.Ziz.Pool.{Pool, total_of}
use web_scraper.Ziz.Validate.{ValidateStats, validate_articles}
use web_scraper.Ziz.Download.{Crew}

-- A file by what reading it gives: a whole value, or not.
pub data Doc (A : Type 0) : Type 0 where
  whole : A → Doc A
  torn : Doc A

abbrev pub Docs : Type 0 → Type 0
Docs A = List (Text × Doc A)

-- the directory as `writeJSON` leaves it: without an error, with one, or at the end of the process
pub data Saved (A : Type 0) : Type 0 where
  saved unsaved ended : Docs A → Saved A

module _ {A : Type 0} (script : Call → Outcome) (path : Text) (value : A) where
  -- the error path, by the outcome of os.Remove
  abbrev pub discard : Outcome → Docs A → Saved A
  discard works docs = unsaved (remove (temporary path) docs)
  discard fails docs = unsaved docs
  discard dies docs = ended docs

  -- by the outcome of os.Rename, after which nothing is removed
  abbrev pub moved : Outcome → Docs A → Saved A
  moved works docs = saved (insert path (whole value) (remove (temporary path) docs))
  moved fails docs = unsaved docs
  moved dies docs = ended docs

  -- by the outcome of the calls from Encode to Close
  abbrev pub filled : Outcome → Docs A → Saved A
  filled works docs = moved (script rename) (insert (temporary path) (whole value) docs)
  filled fails docs = discard (script remove_temporary) docs
  filled dies docs = ended docs

  -- by the outcome of os.Create
  abbrev pub created : Outcome → Docs A → Saved A
  created works docs =
      filled (in_turn script (encode 0 ∷ sync ∷ close ∷ [])) (insert (temporary path) torn docs)
  created fails docs = unsaved docs
  created dies docs = ended docs

  unfoldable pub write_json : Docs A → Saved A
  unfolding in_turn
  write_json docs = created (script create) docs

pub record Flags : Type 0 where
  pub base_url : Text
  pub workers : ℤ
  pub media_workers : ℤ
  pub timeout : ℤ
  pub resume : Bool
  pub with_media : Bool
  pub max_media_bytes : ℤ
  pub user_agent : Text

-- `ziz.ExportStats`, without the duration
pub record ExportStats : Type 0 where
  pub expected_articles : ℤ
  pub expected_pages : ℕ
  pub articles_written : ℕ
  pub pages_written : ℕ
  pub pages_skipped : ℕ

-- what `ExportArticles` returns, after this first page
abbrev pub export_stats : Page → Pool → ExportStats
export_stats first s = record {
  expected_articles = first.total;
  expected_pages = total_of first.total_pages;
  articles_written = s.articles_written;
  pages_written = s.pages_written;
  pages_skipped = s.pages_skipped;
}

-- `ziz.MediaStats`, without the duration
pub record MediaStats : Type 0 where
  pub discovered : ℕ
  pub downloaded : ℕ
  pub skipped : ℕ
  pub failed : ℕ
  pub bytes : ℕ

-- what `DownloadMedia` returns, for the URLs that it has found
abbrev media_stats : List Text → Crew → MediaStats
media_stats urls t = record {
  discovered = length urls;
  downloaded = t.downloads;
  skipped = t.skips;
  failed = t.failures;
  bytes = t.bytes;
}

-- `runSummary`
pub record Summary : Type 0 where
  pub base_url : Text
  pub articles : ExportStats
  pub validation : ValidateStats
  pub media : Option MediaStats

-- the step that `fatal` reports
pub data Stage : Type 0 where
  making_directory creating_client exporting validating downloading writing : Stage

-- How `main` ends: at a fatal error, with status 0 and the warning or not, or killed while it
-- writes the summary.
pub data Exit : Type 0 where
  fatal : Stage → Exit
  finished : Bool → Exit
  killed : Exit

-- the larger of the numbers of workers
abbrev pub max_conns : Flags → ℤ
max_conns f = if ltb_ℤ f.workers f.media_workers then f.media_workers else f.workers

-- the test of the warning
abbrev pub is_short : ExportStats → ValidateStats → Bool
is_short a v =
    ltb_ℤ (pos 0) a.expected_articles && ltb_ℤ (pos v.unique_articles) a.expected_articles

abbrev pub summary_path : Text
summary_path = codes "summary.json"

abbrev pub after_summary : Bool → Saved Summary → Exit × Docs Summary
after_summary short (saved docs) = (finished short, docs)
after_summary short (unsaved docs) = (fatal writing, docs)
after_summary short (ended docs) = (killed, docs)

-- What the steps of a run return, none for an error: whether the directory is there, the export's
-- statistics with the articles' files after it, the media's, and the calls that write the summary.
pub record Steps : Type 0 where
  pub made : Bool
  pub exported : Option (ExportStats × Files)
  pub media : Option MediaStats
  pub script : Call → Outcome

module _ (urls : Urls) (scheme : Urls.Url urls → Text) (f : Flags) (steps : Steps) where
  abbrev pub summarized :
      ExportStats → ValidateStats → Option MediaStats → Docs Summary → Exit × Docs Summary
  summarized a v m docs = after_summary (is_short a v) (
      write_json steps.script summary_path
        (record { base_url = f.base_url; articles = a; validation = v; media = m }) docs)

  abbrev pub with_downloads :
      ExportStats → ValidateStats → Option MediaStats → Docs Summary → Exit × Docs Summary
  with_downloads a v none docs = (fatal downloading, docs)
  with_downloads a v (some m) docs = summarized a v (some m) docs

  abbrev pub with_validation :
      ExportStats → Option ValidateStats → Docs Summary → Exit × Docs Summary
  with_validation a none docs = (fatal validating, docs)
  with_validation a (some v) docs =
      if f.with_media then with_downloads a v steps.media docs else summarized a v none docs

  abbrev with_export : Option (ExportStats × Files) → Docs Summary → Exit × Docs Summary
  with_export none docs = (fatal exporting, docs)
  with_export (some (a, files)) docs = with_validation a (validate_articles files) docs

  abbrev pub with_client : Option (Client urls scheme) → Docs Summary → Exit × Docs Summary
  with_client none docs = (fatal creating_client, docs)
  with_client (some c) docs = with_export steps.exported docs

  -- `main`, with the directory's file summary.json as it was and as it is at the exit
  unfoldable pub migrate : Docs Summary → Exit × Docs Summary
  unfolding write_json
  migrate docs =
      if steps.made
      then with_client (new_client urls scheme f.base_url f.timeout (max_conns f) f.user_agent) docs
      else (fatal making_directory, docs)
