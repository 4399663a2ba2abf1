-- ===== src/Ziz/Download.antt =====
-- internal/ziz/media.go: `DownloadMedia`, its producer, its workers and the loop that writes the
-- manifest. A state of the crew is what they share, with where each is; `Step` is one step of one
-- of them, and a run is any interleaving. A download is one step, since its file appears in one
-- step, and so is an error of the loop with the cancellation that follows it. The set of URLs is a
-- list, and the producer sends them in its order; Go ranges over the map in an order of its own.
pub mod Urls
pub mod Workers
pub mod Complete
pub mod Covered
pub mod Ends
use web_scraper.Base.{
  ℕ, zero, suc, ◌+◌, ◌≡◌, ◌≢◌, ◌⊎◌, ◌<◌, Bool, true, false, ◌||◌, Option, none, some, List, [], ◌∷◌,
  ◌++◌, Text, length, All, get_elem?, set, select_where, ◌*◌, if◌then◌else◌,
}
use web_scraper.Base.Dict.{lookup}
use web_scraper.Base.Int.{ℤ, pos, ltb_ℤ, pos_part}
use web_scraper.Ziz.Parts.{Files}
use web_scraper.Ziz.Validate.{Visit, read_articles, add_urls}
use web_scraper.Ziz.Types.{Article}
use web_scraper.Ziz.Client.{Reply}
use web_scraper.Ziz.Media.{
  MediaRecord, MediaStatus, downloaded, skipped, failed, Calls, Stored, ManifestFile,
  load_media_manifest, download_one_media,
}

-- Where a worker is: at the channel of URLs, with a URL, at the channel of results, or returned.
pub data Task : Type 0 where
  waiting gone : Task
  received : Text → Task
  sending : MediaRecord → Task

-- `todo` are the URLs that the producer has not sent, `closed` tells that it has returned, `broken`
-- that the loop has met an error, and `interrupted` that the caller's context has ended.
pub record Crew : Type 0 where
  pub todo : List Text
  pub closed : Bool
  pub workers : List Task
  pub results : List MediaRecord
  pub manifest : List MediaRecord
  pub broken : Bool
  pub interrupted : Bool
  pub files : Stored
  pub downloads : ℕ
  pub skips : ℕ
  pub failures : ℕ
  pub bytes : ℕ

abbrev pub is_cancelled : Crew → Bool
is_cancelled s = s.interrupted || s.broken

-- the counters after a download
abbrev pub counted : MediaStatus → ℕ → Crew → Crew
counted downloaded size s = record s { downloads = suc s.downloads; bytes = s.bytes + size }
counted skipped size s = record s { skips = suc s.skips }
counted failed size s = record s { failures = suc s.failures }

-- a worker with a record
abbrev pub takes : ℕ → MediaRecord → Stored → Crew → Crew
takes i r files s =
    let t = counted r.status r.size s in
    record t { workers = set s.workers i (sending r); files = files }

abbrev pub goes : ℕ → Task → Crew → Crew
goes i task s = record s { workers = set s.workers i task }

-- `seen` is the manifest of earlier downloads, and `capacity` that of the channel of results
module _ (hash : Text → Text) (extension : Text → Text → Text) (max_bytes capacity : ℕ)
    (resume : Bool) (seen : List (Text × MediaRecord)) where
  pub data Step : Crew → Crew → Type 0 where
    -- the producer
    sends :
        {s : Crew} (i : ℕ) (url : Text) (rest : List Text)
        → s.closed ≡ false
        → s.todo ≡ url ∷ rest
        → get_elem? s.workers i ≡ some waiting
        → Step s (record s { todo = rest; workers = set s.workers i (received url) })
    closes :
        {s : Crew}
        → s.closed ≡ false
        → (s.todo ≡ []) ⊎ (is_cancelled s ≡ true)
        → Step s (record s { closed = true })
    -- the caller's context
    interrupts : {s : Crew} → s.interrupted ≡ false → Step s (record s { interrupted = true })
    -- a worker
    leaves :
        {s : Crew} (i : ℕ)
        → get_elem? s.workers i ≡ some waiting
        → s.closed ≡ true
        → Step s (goes i gone s)
    drops :
        {s : Crew} (i : ℕ) (url : Text)
        → get_elem? s.workers i ≡ some (received url)
        → is_cancelled s ≡ true
        → Step s (goes i gone s)
    passes :
        {s : Crew} (i : ℕ) (url : Text)
        → get_elem? s.workers i ≡ some (received url)
        → is_cancelled s ≡ false
        → resume ≡ true
        → lookup url seen ≢ none
        → Step s (record s { workers = set s.workers i waiting; skips = suc s.skips })
    downloads :
        {s : Crew} (i : ℕ) (url : Text) (calls : Calls) (answer : Reply) (r : MediaRecord)
        (files : Stored)
        → get_elem? s.workers i ≡ some (received url)
        → is_cancelled s ≡ false
        → (resume ≡ false) ⊎ (lookup url seen ≡ none)
        → download_one_media hash extension calls max_bytes url answer s.files ≡ (r, files)
        → Step s (takes i r files s)
    delivers :
        {s : Crew} (i : ℕ) (r : MediaRecord)
        → get_elem? s.workers i ≡ some (sending r)
        → length s.results < capacity
        → Step s (record s { workers = set s.workers i waiting; results = s.results ++ r ∷ [] })
    abandons :
        {s : Crew} (i : ℕ) (r : MediaRecord)
        → get_elem? s.workers i ≡ some (sending r)
        → is_cancelled s ≡ true
        → Step s (goes i gone s)
    -- the loop
    collects :
        {s : Crew} (r : MediaRecord) (rest : List MediaRecord)
        → s.broken ≡ false
        → s.results ≡ r ∷ rest
        → Step s (record s { results = rest; manifest = s.manifest ++ r ∷ [] })
    breaks :
        {s : Crew} (r : MediaRecord) (rest : List MediaRecord)
        → s.broken ≡ false
        → s.results ≡ r ∷ rest
        → Step s (record s { results = rest; broken = true })

  pub data Run : Crew → Crew → Type 0 where
    stop : {s : Crew} → Run s s
    step : {s t u : Crew} → Step s t → Run t u → Run s u

abbrev pub idle_tasks : ℕ → List Task
idle_tasks zero = []
idle_tasks (suc n) = waiting ∷ idle_tasks n

-- the crew before its first step
abbrev pub first_crew : ℕ → List Text → Stored → Crew
first_crew workers urls files = record {
  todo = urls;
  closed = false;
  workers = idle_tasks workers;
  results = [];
  manifest = [];
  broken = false;
  interrupted = false;
  files = files;
  downloads = 0;
  skips = 0;
  failures = 0;
  bytes = 0;
}

-- The loop has ended without an error: the workers have returned, and no result is left.
abbrev pub IsOver : Crew → Type 0
IsOver s = All (λ task. task ≡ gone) s.workers × (s.results ≡ []) × (s.broken ≡ false)

-- the visitor of the articles: the URLs that are allowed, each once; `allowed` is
-- `media_url_allowed` with the hosts
abbrev pub gather : (Text → Bool) → Article → List Text → List Text
gather allowed a found = add_urls (select_where allowed a.media_urls) found

abbrev pub discovered : (Text → Bool) → Files → Visit (List Text)
discovered allowed parts = read_articles (λ a found. (true, gather allowed a found)) parts []

abbrev pub crew_size : ℤ → ℕ
crew_size n = if ltb_ℤ n (pos 1) then 24 else pos_part n

abbrev pub limit_of : ℤ → ℕ
limit_of n = if ltb_ℤ n (pos 1) then 262144000 else pos_part n

-- `DownloadMedia` returns no error, with the crew as it is then, and its context has not ended:
-- `parts` are the articles' files, `log` the manifest's, `files` those of the media
pub data Succeeds (hash : Text → Text) (extension : Text → Text → Text) (allowed : Text → Bool)
    (unmarshal : Text → Option MediaRecord) (max_bytes workers : ℤ) (resume : Bool) (parts : Files)
    (log : ManifestFile) (files : Stored) : List (Text × MediaRecord) → Crew → Type 0 where
  finishes :
      {seen : List (Text × MediaRecord)} {t : Crew}
      → load_media_manifest unmarshal log ≡ some seen
      → (discovered allowed parts).complete ≡ true
      → Run hash extension
          (limit_of max_bytes)
          (2 * crew_size workers)
          resume
          seen
          (first_crew (crew_size workers) (discovered allowed parts).state files)
          t
      → IsOver t
      → t.interrupted ≡ false
      → Succeeds hash extension allowed unmarshal max_bytes workers resume parts log files seen t
