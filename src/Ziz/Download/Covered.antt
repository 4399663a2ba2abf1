-- ===== src/Ziz/Download/Covered.antt =====
-- `DownloadMedia` from the articles to the manifest.
use web_scraper.Base.{◌*◌, ◌<◌, Bool, Option, List, [], ◌∷◌, Text, arith, select_where}
use web_scraper.Base.Int.{ℤ, pos, negsuc}
use web_scraper.Base.Sets.{IsSetOf}
use web_scraper.Ziz.Types.{Article}
use web_scraper.Ziz.Parts.{Files}
use web_scraper.Ziz.Validate.Visitors.{read_articles-Agree}
use web_scraper.Ziz.Validate.Counts.{collected, add_urls-IsSetOf}
use web_scraper.Ziz.Validate.Listed.{Gathered}
use web_scraper.Ziz.Media.{MediaRecord, Stored, ManifestFile}
use web_scraper.Ziz.Download.{
  Crew, gather, discovered, crew_size, limit_of, first_crew, Succeeds, finishes,
}
use web_scraper.Ziz.Download.Complete.{Covered, IsGood-run, first_crew-IsGood, IsGood-over}

-- The URLs of an article that are allowed.
abbrev pub allowed_in : (Text → Bool) → Article → List Text
allowed_in allowed a = select_where allowed a.media_urls

crew_size_pos : (n : ℤ) → 0 < crew_size n
crew_size_pos (pos n) = ground arith
crew_size_pos (negsuc n) = ground arith

discovered-IsSetOf :
    (allowed : Text → Bool) (parts : Files)
    → IsSetOf
        (Gathered (allowed_in allowed) (collected parts).state)
        (discovered allowed parts).state
discovered-IsSetOf allowed parts =
    (read_articles-Agree (λ a xs. a ∷ xs) (gather allowed)
      (λ xs found. IsSetOf (Gathered (allowed_in allowed) xs) found)
      (λ a xs found h.
        add_urls-IsSetOf (Gathered (allowed_in allowed) xs) (allowed_in allowed a) found h)
      parts [] [] (tt, λ z. (λ k. k, λ k. k))).1

-- When `DownloadMedia` returns no error and its context has not ended, however its workers
-- interleave and whatever downloads fail: the URLs that it has worked on are those of the articles
-- that the hosts and paths allow, each once; for each there is a record in the manifest, unless the
-- run resumes one whose manifest has the URL already; and each is counted once, as downloaded,
-- skipped or failed.
pub download-Covered :
    (hash : Text → Text) (extension : Text → Text → Text) (allowed : Text → Bool)
    (unmarshal : Text → Option MediaRecord) (max_bytes workers : ℤ) (resume : Bool) (parts : Files)
    (log : ManifestFile) (files : Stored) (seen : List (Text × MediaRecord)) (t : Crew)
    → Succeeds hash extension allowed unmarshal max_bytes workers resume parts log files seen t
    → IsSetOf
        (Gathered (allowed_in allowed) (collected parts).state)
        (discovered allowed parts).state
      × Covered hash extension
          (limit_of max_bytes)
          (2 * crew_size workers)
          resume
          seen
          (discovered allowed parts).state
          t
download-Covered hash extension allowed unmarshal max_bytes workers resume parts log files seen t
      (finishes l d run over calm) =
    let urls = (discovered allowed parts).state in
    let limit = limit_of max_bytes in
    let capacity = 2 * crew_size workers in
    (
      discovered-IsSetOf allowed parts,
      IsGood-over hash extension limit capacity resume seen urls t
          (IsGood-run hash extension limit capacity resume seen urls
            (first_crew (crew_size workers) urls files) t run
            (first_crew-IsGood hash extension limit capacity resume seen urls (crew_size workers)
              files (crew_size_pos workers)))
          over calm,
    )
