-- ===== src/Examples/Export.antt =====
-- Runs of the article export, its validation and its media.
use web_scraper.Base.{
  ◌↔◌, ℕ, zero, suc, ◌+◌, ◌*◌, ◌-◌, ◌≤◌, ◌≡◌, refl, ap, ◌⊎◌, inl, true, false, Option, none, some,
  List, [], ◌∷◌, ◌++◌, Text, codes, arith, length, take,
}
use web_scraper.Base.Int.{pos}
use web_scraper.Base.Dict.{lookup, insert, remove}
use web_scraper.Ziz.Types.{WpPost, Urls}
use web_scraper.Ziz.Client.{Response, Try, answered, broken, got, Fetched, page, Page, do_request}
use web_scraper.Ziz.Client.Retries.{Decided, Limited, do_request-Decided, do_request-Limited}
use web_scraper.Ziz.Parts.{
  Files, Packages, Call, Outcome, works, fails, sync, written, part_name, temporary, unfinished,
  whole_part, in_turn, encodes, write_article_part,
}
use web_scraper.Ziz.Parts.Atomic.{Leaves, write_article_part-Leaves}
use web_scraper.Ziz.Pool.{
  Pool, waiting, gone, received, fetching, writing, Step, Run, stop, step, sends, closes, leaves,
  asks, fetches, writes, IsOver, first_pool, starts, start_export, Succeeds, pooled,
}
use web_scraper.Ziz.Pool.Complete.{IsExported, export-IsExported}
use web_scraper.Ziz.Pool.Ends.{pool_ends, steps}
use web_scraper.Ziz.Validate.{ValidateStats, validate_articles}
use web_scraper.Ziz.Validate.Counts.{collected, IsCounted, validate_articles-IsCounted}
use web_scraper.Ziz.Media.{
  MediaRecord, downloaded, Calls, load_media_manifest, scanned, download_one_media,
}
use web_scraper.Ziz.Media.Addressed.{IsAddressed, SavesOrFails, download_one_media-SavesOrFails}
use web_scraper.Ziz.Media.Resume.{IsLastFor, load_media_manifest-last}

abbrev pub urls : Urls
urls = record {
  Url = Text;
  parse = λ s. some s;
  is_abs = λ u. true;
  resolve = λ b u. u;
  path = λ u. u;
  show = λ u. u;
}

abbrev pub packages : Packages
packages = record {
  unescape = λ s. s;
  urls = urls;
  base = [];
  time_of = λ s. some s;
  reread = λ a. a;
}

abbrev pub post : WpPost
post = record {
  id = pos 7;
  date = codes "2024-01-02T03:04:05";
  date_gmt = [];
  modified = [];
  modified_gmt = [];
  slug = codes "a";
  link = [];
  title = codes "<b>A</b>";
  content = codes "text";
  excerpt = [];
  authors = [];
  media = [];
  terms = [];
}

abbrev pub answer : Page
answer = record { posts = post ∷ []; total = pos 2; total_pages = pos 2 }

abbrev pub ask : ℕ → Fetched
ask n = page answer

abbrev pub all_work : Call → Outcome
all_work c = works

-- the directory after a part is written
abbrev pub with_part : ℕ → Files → Files
with_part n files =
    let part = whole_part packages [] (post ∷ []) in
    insert (part_name n) part (
      remove (temporary (part_name n))
        (insert (temporary (part_name n)) part (insert (temporary (part_name n)) unfinished files)))

part_written :
    (n : ℕ) (files : Files)
    → write_article_part packages [] all_work (part_name n) (post ∷ []) files
      ≡ written (with_part n files)
unfolding write_article_part in_turn encodes
part_written n files = refl

abbrev first : Pool
first = first_pool (pos 1) (with_part 1 []) 1 1 0

abbrev sent : Pool
sent = record first { next = 3; workers = received 2 ∷ [] }

abbrev asking : Pool
asking = record sent { workers = fetching 2 ∷ [] }

abbrev filling : Pool
filling = record asking { workers = writing 2 (post ∷ []) ∷ [] }

abbrev stored : Pool
stored = record filling {
  workers = waiting ∷ [];
  files = with_part 2 (with_part 1 []);
  pages_written = 2;
  articles_written = 2;
}

abbrev pub ended : Pool
ended = record stored { closed = true; workers = gone ∷ [] }

started : start_export packages false (pos 1) [] all_work [] (ask 1) ≡ starts 2 first
unfolding start_export write_article_part in_turn encodes
started = refl

abbrev run : Run packages false 2 ask first ended
run = step {t = sent} (sends 0 refl (omega arith) refl) (
    step {t = asking} (asks 0 2 refl refl (inl refl)) (
      step {t = filling} (fetches 0 2 answer refl refl) (
        step {t = stored}
          (writes 0 2 (post ∷ []) [] all_work (with_part 2 (with_part 1 [])) refl
            (part_written 2 (with_part 1 [])))
          (step {t = record stored { closed = true }} (closes refl (inl (omega arith)))
            (step {t = ended} (leaves 0 refl refl) stop)))))

pub exported : Succeeds packages false ask (pos 1) [] 2 ended
exported = pooled [] all_work started run (refl, tt) refl refl

export-IsExported_example : IsExported packages false ask [] 2 ended
export-IsExported_example = export-IsExported packages false ask [] (pos 1) 2 ended exported

pool_ends_example :
    (IsOver ended ⊎ ((u : Pool) × Step packages false 2 ask ended u))
    × (steps packages false 2 ask run ≤ 4 * (suc 2 - 2) + 4 * 1 + 2)
pool_ends_example = pool_ends packages false 2 ask first ended run

-- file.Sync fails
abbrev sync_fails : Call → Outcome
sync_fails sync = fails
sync_fails c = works

write_article_part-Leaves_example :
    Leaves sync_fails
      (part_name 2)
      (whole_part packages [] (post ∷ []))
      (with_part 1 [])
      (write_article_part packages [] sync_fails (part_name 2) (post ∷ []) (with_part 1 []))
write_article_part-Leaves_example =
    write_article_part-Leaves packages [] sync_fails (part_name 2) (post ∷ []) (with_part 1 [])

validate_articles-IsCounted_example :
    (((collected (with_part 1 [])).complete ≡ false) × (validate_articles (with_part 1 []) ≡ none))
    ⊎ (((collected (with_part 1 [])).complete ≡ true)
        × ((s : ValidateStats) × (validate_articles (with_part 1 []) ≡ some s)
            × IsCounted (collected (with_part 1 [])).state s))
validate_articles-IsCounted_example = validate_articles-IsCounted (with_part 1 [])

abbrev unavailable : Response
unavailable = record {
  status = 503;
  retry_after = codes "2";
  wp_total = [];
  wp_total_pages = [];
  content_type = [];
  content_length = pos 0;
  body = [];
}

abbrev found : Response
found = record unavailable {
  status = 200;
  content_type = codes "image/png";
  content_length = pos 3;
  body = codes "png";
}

-- 503, then no answer, then 200
abbrev tries : ℕ → Try
tries zero = answered unavailable
tries (suc zero) = broken (codes "reset")
tries (suc (suc n)) = answered found

do_request-Decided_example :
    (k : ℕ) × Decided
      (λ s. none)
      tries
      (λ n. true)
      0
      k
      (do_request (λ s. none) tries (λ n. true) true)
do_request-Decided_example = do_request-Decided (λ s. none) tries (λ n. true)

do_request-Limited_example :
    Limited (λ s. none) tries (λ n. true) 4 (do_request (λ s. none) tries (λ n. true) true)
do_request-Limited_example = do_request-Limited (λ s. none) tries (λ n. true) true

abbrev values : List Text
values = codes "b" ∷ [] ∷ codes "a" ∷ codes "b" ∷ []

abbrev zeros : ℕ → Text
zeros zero = []
zeros (suc n) = b'0' ∷ zeros n

-- a hash of 64 characters
abbrev hash : Text → Text
hash body = take 64 (body ++ zeros 64)

length-take_append : (n : ℕ) (s t : Text) → n ≤ length t → length (take n (s ++ t)) ≡ n
length-take_append zero s t h = refl
length-take_append (suc n) [] [] h = absurd (omega (arith, h))
length-take_append (suc n) [] (c ∷ t) h = ap suc (length-take_append n [] t (omega (arith, h)))
length-take_append (suc n) (c ∷ s) t h = ap suc (length-take_append n s t (omega (arith, h)))

hash_length : (body : Text) → length (hash body) ≡ 64
hash_length body = length-take_append 64 body (zeros 64) (omega arith)

abbrev calls : Calls
calls = record {
  create_temp = true;
  copy = true;
  sync = true;
  close = true;
  mkdir = true;
  rename = true;
}

none_stored : IsAddressed hash hash_length []
unfolding lookup
none_stored name body h = absurd (cc)

download_one_media-SavesOrFails_example :
    SavesOrFails hash hash_length 100
      (got found)
      []
      (download_one_media hash (λ u t. codes ".png") calls 100 (codes "u") (got found) [])
download_one_media-SavesOrFails_example =
    download_one_media-SavesOrFails hash hash_length (λ u t. codes ".png") calls 100 (codes "u")
      (got found) [] (omega arith) none_stored

-- each line is a URL, whose file is there
abbrev unmarshal : Text → Option MediaRecord
unmarshal line = some (record {
  url = line;
  local_path = [];
  sha256 = [];
  size = 0;
  content_type = [];
  status = downloaded;
  error = none;
})

load_media_manifest-last_example :
    (out : List (Text × MediaRecord)) × (load_media_manifest unmarshal
        (scanned (codes "u" ∷ [] ∷ codes "v" ∷ []) true)
      ≡ some out)
    × ((r : MediaRecord)
        → (lookup (codes "u") out ≡ some r)
          ↔ IsLastFor unmarshal (codes "u") (codes "u" ∷ [] ∷ codes "v" ∷ []) r)
load_media_manifest-last_example =
    load_media_manifest-last unmarshal (codes "u" ∷ [] ∷ codes "v" ∷ []) (codes "u")
