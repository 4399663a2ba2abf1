-- ===== src/Ziz/Pool.antt =====
-- internal/ziz/export.go: `ExportArticles`, its producer and its workers. A state of the pool is
-- what they share, with where each worker is; `Step` is one step of one of them, and a run is any
-- interleaving. `ask n` is what `FetchPostsPage` returns for page n when its request is answered; a
-- request may also fail at any time. A worker's error and the cancellation that follows it are one
-- step, and the end of the process in a write, which ends the run, is no step. os.Stat finds a file
-- that is there.
pub mod Exported
pub mod Workers
pub mod Invariant
pub mod Complete
pub mod Ends
use web_scraper.Base.{
  ℕ, zero, suc, ◌+◌, ◌≡◌, ◌≢◌, ◌⊎◌, ◌<◌, ◌≤◌, Bool, true, false, ◌||◌, ◌&&◌, not, Option, none,
  some, List, [], ◌∷◌, Text, length, if◌then◌else◌, All, get_elem?, set, ltb, ◌==◌,
}
use web_scraper.Base.Dict.{lookup}
use web_scraper.Base.Int.{ℤ, pos, ltb_ℤ, pos_part}
use web_scraper.Ziz.Types.{WpPost}
use web_scraper.Ziz.Client.{Fetched, page, request_failed, not_json, no_headers, Page}
use web_scraper.Ziz.Parts.{
  Files, Packages, Call, Outcome, Written, written, failed, died, File, part_name,
  write_article_part,
}

pub data Failure : Type 0 where
  unfetched unwritten : ℕ → Failure

-- Where a worker is: at the channel, with a page it has received, waiting for the page's posts,
-- with the posts, or returned.
pub data Phase : Type 0 where
  waiting gone : Phase
  received fetching : ℕ → Phase
  writing : ℕ → List WpPost → Phase

-- `next` is the page that the producer sends next, `closed` tells that it has returned, `failure`
-- is what errCh holds, and `interrupted` tells that the caller's context has ended.
pub record Pool : Type 0 where
  pub next : ℕ
  pub closed : Bool
  pub workers : List Phase
  pub failure : Option Failure
  pub interrupted : Bool
  pub files : Files
  pub pages_written : ℕ
  pub articles_written : ℕ
  pub pages_skipped : ℕ

abbrev pub has_failed : Option Failure → Bool
has_failed none = false
has_failed (some e) = true

-- workCtx.Err() != nil
abbrev pub is_cancelled : Pool → Bool
is_cancelled s = s.interrupted || has_failed s.failure

abbrev pub goes : ℕ → Phase → Pool → Pool
goes i phase s = record s { workers = set s.workers i phase }

abbrev pub or_first : Option Failure → Failure → Option Failure
or_first none e = some e
or_first (some d) e = some d

-- a worker returns with an error
abbrev pub fail : ℕ → Failure → Pool → Pool
fail i e s = record s { workers = set s.workers i gone; failure = or_first s.failure e }

module _ (p : Packages) (resume : Bool) (total : ℕ) (ask : ℕ → Fetched) where
  pub data Step : Pool → Pool → Type 0 where
    -- the producer
    sends :
        {s : Pool} (i : ℕ)
        → s.closed ≡ false
        → s.next ≤ total
        → get_elem? s.workers i ≡ some waiting
        → Step s (record s { next = suc s.next; workers = set s.workers i (received s.next) })
    closes :
        {s : Pool}
        → s.closed ≡ false
        → (total < s.next) ⊎ (is_cancelled s ≡ true)
        → Step s (record s { closed = true })
    -- the caller's context
    interrupts : {s : Pool} → s.interrupted ≡ false → Step s (record s { interrupted = true })
    -- a worker
    leaves :
        {s : Pool} (i : ℕ)
        → get_elem? s.workers i ≡ some waiting
        → s.closed ≡ true
        → Step s (goes i gone s)
    drops :
        {s : Pool} (i n : ℕ)
        → get_elem? s.workers i ≡ some (received n)
        → is_cancelled s ≡ true
        → Step s (goes i gone s)
    skips :
        {s : Pool} (i n : ℕ)
        → get_elem? s.workers i ≡ some (received n)
        → is_cancelled s ≡ false
        → resume ≡ true
        → n ≢ total
        → lookup (part_name n) s.files ≢ none
        → Step s
            (record s { workers = set s.workers i waiting; pages_skipped = suc s.pages_skipped })
    asks :
        {s : Pool} (i n : ℕ)
        → get_elem? s.workers i ≡ some (received n)
        → is_cancelled s ≡ false
        → (resume ≡ false) ⊎ (n ≡ total) ⊎ (lookup (part_name n) s.files ≡ none)
        → Step s (goes i (fetching n) s)
    fetches :
        {s : Pool} (i n : ℕ) (r : Page)
        → get_elem? s.workers i ≡ some (fetching n)
        → ask n ≡ page r
        → Step s (goes i (writing n r.posts) s)
    misses :
        {s : Pool} (i n : ℕ)
        → get_elem? s.workers i ≡ some (fetching n)
        → Step s (fail i (unfetched n) s)
    writes :
        {s : Pool} (i n : ℕ) (posts : List WpPost) (now : Text) (script : Call → Outcome)
        (files : Files)
        → get_elem? s.workers i ≡ some (writing n posts)
        → write_article_part p now script (part_name n) posts s.files ≡ written files
        → Step s (record s {
          workers = set s.workers i waiting;
          files = files;
          pages_written = suc s.pages_written;
          articles_written = s.articles_written + length posts;
        })
    breaks :
        {s : Pool} (i n : ℕ) (posts : List WpPost) (now : Text) (script : Call → Outcome)
        (files : Files)
        → get_elem? s.workers i ≡ some (writing n posts)
        → write_article_part p now script (part_name n) posts s.files ≡ failed files
        → Step s (record (fail i (unwritten n) s) { files = files })

  pub data Run : Pool → Pool → Type 0 where
    stop : {s : Pool} → Run s s
    step : {s t u : Pool} → Step s t → Run t u → Run s u

-- wg.Wait returns
abbrev pub IsOver : Pool → Type 0
IsOver s = All (λ phase. phase ≡ gone) s.workers

-- How `ExportArticles` starts: without an answer for page 1, or without its part, there is an error
-- (or the process has ended); with one page it returns; and with more there are the pages to export
-- and the pool.
pub data Start : Type 0 where
  no_answer : Start
  no_part : Files → Start
  returns : Pool → Start
  starts : ℕ → Pool → Start

abbrev pub total_of : ℤ → ℕ
total_of n = if ltb_ℤ n (pos 1) then 1 else pos_part n

abbrev pub workers_of : ℤ → ℕ
workers_of n = if ltb_ℤ n (pos 1) then 16 else pos_part n

abbrev pub idle_workers : ℕ → List Phase
idle_workers zero = []
idle_workers (suc n) = waiting ∷ idle_workers n

-- the pool before its first step: `parts` of the first page are written or `skipped`
abbrev pub first_pool : ℤ → Files → ℕ → ℕ → ℕ → Pool
first_pool workers files parts articles skipped = record {
  next = 2;
  closed = false;
  workers = idle_workers (workers_of workers);
  failure = none;
  interrupted = false;
  files = files;
  pages_written = parts;
  articles_written = articles;
  pages_skipped = skipped;
}

-- after the first part is written, or skipped
abbrev pub begin : ℕ → Pool → Start
begin total s = if total == 1 then returns s else starts total s

abbrev pub is_here : Option File → Bool
is_here none = false
is_here (some f) = true

abbrev pub begin_written : ℕ → ℤ → ℕ → Written → Start
begin_written total workers articles (written files) =
    begin total (first_pool workers files 1 articles 0)
begin_written total workers articles (failed files) = no_part files
begin_written total workers articles (died files) = no_part files

unfoldable pub start_export :
    Packages → Bool → ℤ → Text → (Call → Outcome) → Files → Fetched → Start
start_export p resume workers now script files (page r) =
    if resume && is_here (lookup (part_name 1) files)
    then begin (total_of r.total_pages) (first_pool workers files 0 0 1)
    else begin_written (total_of r.total_pages) workers (length r.posts)
        (write_article_part p now script (part_name 1) r.posts files)
start_export p resume workers now script files request_failed = no_answer
start_export p resume workers now script files not_json = no_answer
start_export p resume workers now script files no_headers = no_answer

-- `ExportArticles` returns no error, and its context has not ended.
pub data Succeeds (p : Packages) (resume : Bool) (ask : ℕ → Fetched) (workers : ℤ) (files : Files)
    : ℕ → Pool → Type 0 where
  at_once :
      {s : Pool} (now : Text) (script : Call → Outcome)
      → start_export p resume workers now script files (ask 1) ≡ returns s
      → Succeeds p resume ask workers files 1 s
  pooled :
      {total : ℕ} {s t : Pool} (now : Text) (script : Call → Outcome)
      → start_export p resume workers now script files (ask 1) ≡ starts total s
      → Run p resume total ask s t
      → IsOver t
      → t.failure ≡ none
      → t.interrupted ≡ false
      → Succeeds p resume ask workers files total t
