-- ===== src/Examples/Migration.antt =====
-- A run of the migration command.
use web_scraper.Base.{
  ℕ, suc, ◌↔◌, ◌≡◌, ◌≤◌, refl, true, false, none, some, [], ◌∷◌, Text, codes, Among, text_eq,
  select_where, insertion_sort,
}
use web_scraper.Base.Int.{pos, int_eq, ◌≤ℤ◌}
use web_scraper.Base.Dict.{lookup, insert, remove}
use web_scraper.Go.Strconv.{decimal}
use web_scraper.Go.Strings.{has_prefix, trim_space}
use web_scraper.Ziz.Types.{Article, article_from_wp}
use web_scraper.Ziz.Parts.{File, part_name, five_digits, is_part, in_turn}
use web_scraper.Ziz.Client.Settings.{new_client}
use web_scraper.Ziz.Validate.{
  ValidateStats, validate_articles, read_articles, read_parts, read_article_part, visit_all,
  part_names, count_article, count_id, is_known, add_urls,
}
use web_scraper.Ziz.Validate.Counts.{collected, IsCounted}
use web_scraper.Ziz.Pool.Exported.{Exported}
use web_scraper.Ziz.Migrate.{
  Flags, Steps, Summary, whole, summary_path, export_stats, migrate, write_json,
}
use web_scraper.Ziz.Migrate.Complete.{reported, Ends, migrate-Complete}
use web_scraper.Ziz.Client.{Fetched, Page, page}
use web_scraper.Ziz.Parts.{Files, whole_part, write_article_part, encodes}
use web_scraper.Ziz.Pool.{Pool, first_pool, Succeeds, at_once, start_export}
use web_scraper.Examples.Export.{urls, packages, post, with_part, all_work}

abbrev flags : Flags
flags = record {
  base_url = codes "https://z/";
  workers = pos 1;
  media_workers = pos 1;
  timeout = pos 0;
  resume = false;
  with_media = false;
  max_media_bytes = pos 0;
  user_agent = [];
}

abbrev scheme : Text → Text
scheme u = codes "https"

-- one page of one article
abbrev only : Page
only = record { posts = post ∷ []; total = pos 2; total_pages = pos 1 }

abbrev ask_only : ℕ → Fetched
ask_only n = page only

abbrev pool : Pool
pool = first_pool (pos 1) (with_part 1 []) 1 1 0

exported : Succeeds packages false ask_only (pos 1) [] 1 pool
unfolding start_export write_article_part in_turn encodes
exported = at_once [] all_work refl

abbrev run_steps : Steps
run_steps = record {
  made = true;
  exported = some (export_stats only pool, pool.files);
  media = none;
  script = all_work;
}

abbrev part : Files
part = (codes "part-00001.jsonl.gz", whole_part packages [] (post ∷ [])) ∷ []

one_part : pool.files ≡ part
unfolding insert remove text_eq part_name five_digits decimal
one_part = refl

counted :
    validate_articles part
    ≡ some (record {
      unique_articles = 1;
      duplicates = 0;
      empty_bodies = 0;
      empty_titles = 0;
      media_urls = 0;
      duplicate_ids = [];
    })
unfolding validate_articles read_articles read_parts read_article_part visit_all part_names
    count_article count_id is_known add_urls is_part has_prefix text_eq int_eq select_where
    insertion_sort lookup whole_part trim_space article_from_wp
counted = refl

-- WordPress reported two articles: the run warns
ends : Ends urls scheme flags run_steps (migrate urls scheme flags run_steps []) true
unfolding migrate new_client write_json in_turn text_eq
ends = rw (one_part, counted) refl

migrate-Complete_example :
    (v : ValidateStats) × (x : Summary) × IsCounted (collected pool.files).state v
    × (lookup summary_path (migrate urls scheme flags run_steps []).1 ≡ some (whole x))
    × (x.validation ≡ v)
    × (x.media ≡ reported urls scheme flags run_steps)
    × (x.articles.expected_articles ≡ pos 2)
    × ◌≡◌ {A = ℕ} x.articles.expected_pages 1
    × (x.articles.articles_written ≡ pool.articles_written)
    × ((true ≡ true) ↔ (pos (suc v.unique_articles) ≤ℤ pos 2))
    × ((n : ℕ)
        → 1 ≤ n
        → n ≤ 1
        → Exported packages false 1 ask_only [] n pool.files
          × ((x : File)
              → lookup (part_name n) pool.files ≡ some x
              → (a : Article) → Among a x.articles
              → Among a (collected pool.files).state))
migrate-Complete_example =
    migrate-Complete urls scheme flags run_steps packages ask_only [] only pool [] true refl
      exported refl ends
