-- ===== src/Examples/Media.antt =====
-- A run of the download of media.
use web_scraper.Base.{
  ◌*◌, ◌≡◌, ap, refl, inl, Bool, true, false, Option, none, [], ◌∷◌, Text, codes, arith,
  select_where, insertion_sort, text_eq,
}
use web_scraper.Base.Int.{pos}
use web_scraper.Base.Sets.{IsSetOf}
use web_scraper.Base.Dict.{lookup, insert}
use web_scraper.Go.Strings.{has_prefix}
use web_scraper.Ziz.Types.{Article, is_seen}
use web_scraper.Ziz.Client.{Response, got}
use web_scraper.Ziz.Parts.{Files, is_part}
use web_scraper.Ziz.Validate.{
  read_articles, read_parts, read_article_part, visit_all, part_names, add_urls,
}
use web_scraper.Ziz.Validate.Counts.{collected}
use web_scraper.Ziz.Validate.Listed.{Gathered}
use web_scraper.Ziz.Media.{
  MediaRecord, Calls, Stored, missing, load_media_manifest, downloaded, media_name, success,
  download_one_media, save_media, store_media, media_type,
}
use web_scraper.Ziz.Download.{
  Crew, waiting, gone, received, Run, stop, step, sends, closes, leaves, downloads, delivers,
  collects, first_crew, discovered, takes, crew_size, limit_of, Succeeds, finishes,
}
use web_scraper.Base.{◌⊎◌, ◌≢◌, ◌+◌, ◌≤◌, length, some}
use web_scraper.Go.Strconv.{decimal}
use web_scraper.Ziz.Parts.{part_name, five_digits}
use web_scraper.Ziz.Download.{Step}
use web_scraper.Ziz.Download.Ends.{HasEnded, steps, crew_ends}
use web_scraper.Ziz.Download.Workers.{Filed}
use web_scraper.Ziz.Migrate.Media.{page_media-Filed}
use web_scraper.Ziz.Download.Complete.{Covered}
use web_scraper.Ziz.Download.Covered.{allowed_in, download-Covered}

abbrev article : Article
article = record {
  source = [];
  source_id = pos 7;
  legacy_url = [];
  slug = [];
  title = codes "A";
  excerpt_html = [];
  excerpt_text = [];
  body_html = [];
  body_text = [];
  published_at = [];
  modified_at = [];
  author = none;
  categories = [];
  tags = [];
  featured_media = none;
  media_urls = codes "u" ∷ [];
  scraped_at = [];
}

abbrev parts : Files
parts = (codes "part-00001.jsonl.gz", record { articles = article ∷ []; ends_well = true }) ∷ []

abbrev all_allowed : Text → Bool
all_allowed url = true

abbrev no_records : Text → Option MediaRecord
no_records line = none

abbrev digest : Text → Text
digest body = codes "abcd"

abbrev png : Text → Text → Text
png url content_type = codes ".png"

found : discovered all_allowed parts ≡ record { state = codes "u" ∷ []; complete = true }
unfolding read_articles part_names is_part select_where insertion_sort read_parts read_article_part
    visit_all add_urls is_seen has_prefix lookup text_eq
found = refl

abbrev calls : Calls
calls = record {
  create_temp = true;
  copy = true;
  sync = true;
  close = true;
  mkdir = true;
  rename = true;
}

abbrev response : Response
response = record {
  status = 200;
  retry_after = [];
  wp_total = [];
  wp_total_pages = [];
  content_type = codes "image/png";
  content_length = pos 3;
  body = codes "png";
}

abbrev saved : MediaRecord
saved =
    success (codes "u") (media_type (codes "image/png")) (codes "abcd")
      (media_name (codes "abcd") (codes ".png")) 3 downloaded

abbrev files : Stored
files = insert (media_name (codes "abcd") (codes ".png")) (codes "png") []

saves : download_one_media digest png calls 262144000 (codes "u") (got response) [] ≡ (saved, files)
unfolding download_one_media save_media store_media lookup
saves = refl

-- the crew with one worker, after each step
abbrev crew : Crew
crew = first_crew 1 (discovered all_allowed parts).state []

abbrev working : Crew
working = record crew { todo = []; workers = received (codes "u") ∷ [] }

abbrev holding : Crew
holding = takes 0 saved files working

abbrev delivered : Crew
delivered = record holding { workers = waiting ∷ []; results = saved ∷ [] }

abbrev written : Crew
written = record delivered { results = []; manifest = saved ∷ [] }

abbrev ended : Crew
ended = record written { closed = true; workers = gone ∷ [] }

abbrev run : Run digest png 262144000 2 false [] crew ended
run = step {t = working} (sends 0 (codes "u") [] refl todo refl) (
    step {t = holding}
      (downloads 0 (codes "u") calls (got response) saved files refl refl (inl refl) saves)
      (step {t = delivered} (delivers 0 saved refl (omega arith)) (
        step {t = written} (collects saved [] refl refl) (
          step {t = record written { closed = true }} (closes refl (inl refl))
            (step {t = ended} (leaves 0 refl refl) stop)))))
  where
    todo : (discovered all_allowed parts).state ≡ codes "u" ∷ []
    todo = ap (λ v. v.state) found

first_part :
    lookup (part_name 1) parts ≡ some (record { articles = article ∷ []; ends_well = true })
unfolding lookup text_eq part_name decimal five_digits
first_part = refl

finished :
    Succeeds digest png all_allowed no_records (pos 0) (pos 1) false parts missing [] [] ended
unfolding load_media_manifest
finished = finishes refl (ap (λ v. v.complete) found) run ((refl, tt), refl, refl) refl

crew_ends_example :
    (HasEnded ended ⊎ ((u : Crew) × Step digest png 262144000 2 false [] ended u))
    × (steps digest png 262144000 2 false [] run
        ≤ 4 * length crew.todo + 4 * length crew.workers + length crew.results + 2)
crew_ends_example = crew_ends digest png 262144000 2 false [] (omega arith) crew ended run

page_media-Filed_example :
    Filed (codes "u") ended.manifest
    ⊎ ((false ≡ true) × (lookup {V = MediaRecord} (codes "u") [] ≢ none))
page_media-Filed_example =
    page_media-Filed digest png all_allowed no_records (pos 0) (pos 1) false parts missing [] []
      ended 1 (record { articles = article ∷ []; ends_well = true }) article (codes "u") finished
      first_part (inl refl) (inl refl) refl

download-Covered_example :
    IsSetOf
      (Gathered (allowed_in all_allowed) (collected parts).state)
      (discovered all_allowed parts).state
    × Covered digest png
        (limit_of (pos 0))
        (2 * crew_size (pos 1))
        false
        []
        (discovered all_allowed parts).state
        ended
download-Covered_example =
    download-Covered digest png all_allowed no_records (pos 0) (pos 1) false parts missing [] []
      ended finished
