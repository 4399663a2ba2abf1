-- ===== src/Examples/Searches.antt =====
-- A search request from its body to its job.
use web_scraper.Base.{◌≡◌, refl, none, [], ◌∷◌, ◌++◌, codes, find_where, count_where, text_eq}
use web_scraper.Base.Int.{pos, int_eq}
use web_scraper.Model.{SearchRequest}
use web_scraper.Go.Strings.{trim_space, ascii_lower, has_prefix}
use web_scraper.Policy.Regex.{match_string}
use web_scraper.Policy.Unicode.{is_format, join, fields, is_space, decode, encode}
use web_scraper.Policy.Search.{
  filter_runes, filter_search_query, matches_any, has_forbidden_characters, is_forbidden,
  normalize_query, fold_width,
}
use web_scraper.Store.Db.{up, ok}
use web_scraper.Store.Jobs.{new_row, scan_claim, has_id}
use web_scraper.Api.Reply.{valid_marketplace}
use web_scraper.Api.Await.{answer}
use web_scraper.Api.Search.{request, passed, check_request, is_json, wants_compact, search}
use web_scraper.Api.Search.Created.{IsRunnable, search-created}
use web_scraper.Base.{ℕ, Bool, true, false, some, ◌==◌, arith}
use web_scraper.Model.{Job, complete}
use web_scraper.Store.Db.{JobRow, Db}
use web_scraper.Store.Jobs.{
  next_queued, row_check, marketplace_check, limit_check, is_queued, earlier,
}
use web_scraper.Api.Reply.{write_job_json}
use web_scraper.Api.Await.{tick}
use web_scraper.System.Answered.{settled}
use web_scraper.System.Roundtrip.{search_roundtrip}
use web_scraper.Examples.Queue.{db-IsValid}
use web_scraper.Examples.Slots.{message, script, quiet}
use web_scraper.Examples.Data.{server, show_id, db, item}

abbrev asked : SearchRequest
asked = record {
  marketplace = codes " eBay";
  query = codes "1TB  SSD";
  limit = pos 0;
  wait_ms = none;
}

abbrev cleaned : SearchRequest
cleaned = record {
  marketplace = codes "ebay";
  query = codes "1TB SSD";
  limit = pos 20;
  wait_ms = none;
}

asked_passes :
    check_request (codes "Application/JSON; charset=utf-8") (request asked) ≡ passed cleaned 12000
unfolding check_request is_json valid_marketplace trim_space ascii_lower has_prefix
    filter_search_query filter_runes has_forbidden_characters is_forbidden is_format normalize_query
    join fields is_space fold_width match_string matches_any text_eq decode encode int_eq
asked_passes = refl

no_such_job : count_where (has_id 9) db.jobs ≡ 0
unfolding count_where has_id
no_such_job = refl

search-created_example :
    ((r : SearchRequest) × (request asked ≡ request r) × IsRunnable r.query cleaned 12000)
    × (search server
          (codes "Application/JSON; charset=utf-8")
          (request asked)
          (codes "1")
          up
          9
          500
          (show_id 7)
          []
          db
        ≡ (
          answer server
              (wants_compact (codes "1"))
              12000
              (show_id 7)
              (ok (scan_claim server (new_row 9 500 cleaned 7)))
              [],
          record db { jobs = db.jobs ++ new_row 9 500 cleaned 7 ∷ [] },
        ))
unfolding find_where
search-created_example =
    search-created server (codes "Application/JSON; charset=utf-8") (request asked) (codes "1") 9
      500 7 (show_id 7) [] db cleaned 12000 asked_passes refl refl no_such_job

-- another worker has the lock of the older job
abbrev locked : ℕ → Bool
locked n = n == 1

abbrev row : JobRow
row = new_row 9 500 cleaned 7

abbrev created : Db
created = record db { jobs = db.jobs ++ row ∷ [] }

accepted : row_check 9 7 cleaned db ≡ true
unfolding row_check marketplace_check limit_check has_id text_eq count_where find_where
accepted = refl

is_next : next_queued locked created.jobs ≡ some row
unfolding next_queued is_queued earlier new_row
is_next = refl

search_roundtrip_example :
    (j : Job) × (j.status ≡ complete)
    × (j.result ≡ item ∷ [])
    × (j.query ≡ cleaned.query)
    × ((search server
          (codes "Application/JSON; charset=utf-8")
          (request asked)
          (codes "1")
          up
          9
          500
          (show_id 7)
          (tick false up (
              settled server message script quiet created row locked 600 700 2
                (codes "w1")
                (item ∷ []))
            ∷ [])
          db).0
        ≡ some (write_job_json 200 j (wants_compact (codes "1"))))
search_roundtrip_example =
    search_roundtrip server message (codes "Application/JSON; charset=utf-8") (request asked)
      (codes "1") (show_id 7) (codes "w1") 9 500 7 600 700 2 12000 locked false [] db cleaned script
      quiet (item ∷ []) asked_passes (λ e. absurd (omega (arith, e))) refl accepted db-IsValid
      is_next refl refl
