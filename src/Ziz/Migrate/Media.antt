-- ===== src/Ziz/Migrate/Media.antt =====
-- The media of an export.
use web_scraper.Base.{
  ℕ, ◌≡◌, ◌∙◌, ◌⊎◌, ◌≢◌, none, inl, inr, Bool, true, Option, some, List, [], ◌∷◌, Text, Among,
  select_where-Among,
}
use web_scraper.Base.Int.{ℤ}
use web_scraper.Base.Dict.{lookup}
use web_scraper.Ziz.Types.{Article}
use web_scraper.Ziz.Parts.{File, Files, part_name}
use web_scraper.Ziz.Validate.Visitors.{read_articles-Agree}
use web_scraper.Ziz.Validate.Counts.{collected}
use web_scraper.Ziz.Validate.Listed.{Gathered}
use web_scraper.Ziz.Validate.Collected.{collected_iff, part_name-is_part}
use web_scraper.Ziz.Media.{MediaRecord, Stored, ManifestFile}
use web_scraper.Ziz.Download.{Crew, gather, discovered, Succeeds, finishes}
use web_scraper.Ziz.Download.Covered.{allowed_in, download-Covered}
use web_scraper.Ziz.Download.Workers.{Filed}

Gathered-Among :
    {A : Type 0} (pick : Article → List A) (xs : List Article) (a : Article) (z : A)
    → Among a xs
    → Among z (pick a)
    → Gathered pick xs z
Gathered-Among pick [] a z m n = elim m [ ]
Gathered-Among pick (x ∷ xs) a z (inl e) n = inl (rw e n)
Gathered-Among pick (x ∷ xs) a z (inr m) n = inr (Gathered-Among pick xs a z m n)

-- When the articles can be read for the media, they can be read.
discovered-complete :
    (allowed : Text → Bool) (parts : Files)
    → (discovered allowed parts).complete ≡ true
    → (collected parts).complete ≡ true
discovered-complete allowed parts h =
    (read_articles-Agree (λ a xs. a ∷ xs) (gather allowed) (λ xs found. Unit) (λ a xs found u. tt)
      parts [] [] tt).0
    ∙ h

-- From the page to the file: when `DownloadMedia` returns no error and its context has not ended,
-- every URL that is allowed, of every article in a page's part, has a record in the manifest,
-- unless the run resumes one whose manifest has the URL already.
pub page_media-Filed :
    (hash : Text → Text) (extension : Text → Text → Text) (allowed : Text → Bool)
    (unmarshal : Text → Option MediaRecord) (max_bytes workers : ℤ) (resume : Bool) (parts : Files)
    (log : ManifestFile) (files : Stored) (seen : List (Text × MediaRecord)) (t : Crew) (n : ℕ)
    (x : File) (a : Article) (url : Text)
    → Succeeds hash extension allowed unmarshal max_bytes workers resume parts log files seen t
    → lookup (part_name n) parts ≡ some x
    → Among a x.articles
    → Among url a.media_urls
    → allowed url ≡ true
    → Filed url t.manifest ⊎ ((resume ≡ true) × (lookup url seen ≢ none))
page_media-Filed hash extension allowed unmarshal max_bytes workers resume parts log files seen t n
      x a url (finishes l d run over calm) here m u ok =
    let ((_, those), (covered, _)) =
      download-Covered hash extension allowed unmarshal max_bytes workers resume parts log files
        seen t (finishes l d run over calm) in
    let read : Among a (collected parts).state =
      (collected_iff parts a (discovered-complete allowed parts d)).1
        (part_name n, x, part_name-is_part n, here, m) in
    covered url (
      (those url).1 (
        Gathered-Among (allowed_in allowed) (collected parts).state a url read
          (select_where-Among allowed a.media_urls url u ok)))
