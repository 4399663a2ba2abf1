-- ===== src/Examples/Requests.antt =====
-- Runs of the API's gates, the keys, the rate limiter and the search filter.
use web_scraper.Base.{
  ◌⊎◌, ℕ, ◌*◌, ◌≤◌, ◌≡◌, ◌↔◌, refl, inl, true, false, not, none, some, List, [], ◌∷◌, ◌++◌, Text,
  codes, arith, Among, text_eq, find_where, count_where,
}
use web_scraper.Base.Int.{pos}
use web_scraper.Base.Dict.{lookup, insert}
use web_scraper.Store.Db.{KeyRow, JobRow, up, ok, err, no_rows}
use web_scraper.Store.Jobs.{get_job, scan_job}
use web_scraper.Store.Keys.{
  CreatedApiKey, ApiKey, scan_key, create_api_key, insert_key, new_key, key_is_new, key_has_id,
  requests_per_minute, authenticate_api_key, revoke_api_key, unlocks,
}
use web_scraper.Store.Keys.Laws.{authenticate-revoke, authenticate-create}
use web_scraper.Api.Limiter.{allow, allowed, decide, new_rate_limiter}
use web_scraper.Api.Limiter.Laws.{allowed-minute}
use web_scraper.Api.Header.{bearer}
use web_scraper.Api.Reply.{write_terminal_job, reply, job_body}
use web_scraper.Api.Await.{Event, tick, await_job}
use web_scraper.Api.Await.Answers.{reply_of, unreadable, Brings, Fails, await_job-reply_of}
use web_scraper.Model.{Job, queued, complete}
use web_scraper.Api.Handlers.{serve, with_api_key, limit_gate, job}
use web_scraper.Api.Handlers.Served.{with_api_key-served, job-authorized}
use web_scraper.Policy.Regex.{Regex, match_string}
use web_scraper.Policy.Unicode.{is_format, join, fields, is_space}
use web_scraper.Policy.Patterns.{internal_target_patterns}
use web_scraper.Policy.Search.{
  accepted, filter_runes, matches_any, has_forbidden_characters, is_forbidden, normalize_query,
  fold_width,
}
use web_scraper.Policy.Search.Accepted.{IsClean, filter_again}
use web_scraper.Policy.Search.Found.{IsMatched, matches_any_iff}
use web_scraper.Examples.Data.{held, item, queued_row, server, hash, key_row, db, show_id}

abbrev header : Text
header = codes "Bearer ws_live_abc"

-- the key of the sample, as the store returns it
abbrev key : ApiKey
unfolding scan_key
key = scan_key server hash key_row

served :
    (with_api_key server hash up 500 1000 header new_rate_limiter db).0
    ≡ (serve key, record { items = (key.id, record { start = 1000; count = 1 }) ∷ [] })
unfolding with_api_key bearer authenticate_api_key limit_gate allow decide new_rate_limiter lookup
    insert find_where unlocks text_eq scan_key
served = refl

with_api_key-served_example :
    (k : KeyRow) × Among k db.api_keys
    × (k.key_hash ≡ hash (bearer header))
    × (k.revoked_at ≡ none)
    × (scan_key server hash k ≡ key)
    × (allow key.id key.rate_limit_per_minute 1000 new_rate_limiter
        ≡ (true, record { items = (key.id, record { start = 1000; count = 1 }) ∷ [] }))
with_api_key-served_example =
    with_api_key-served server hash up 500 1000 header new_rate_limiter _ db key served

job-authorized_example :
    ((job server hash up (show_id 2) header db).1 ≡ db)
    × ((job server hash up (show_id 2) header db).0.status ≡ 200
        → (r : JobRow) × (k : KeyRow) × Among r db.jobs
          × Among k db.api_keys
          × (server.parse_uuid (show_id 2) ≡ some r.id)
          × (k.id ≡ r.requested_by)
          × (k.key_hash ≡ hash (bearer header))
          × (k.revoked_at ≡ none)
          × ((job server hash up (show_id 2) header db).0
              ≡ reply 200 (job_body (scan_job server r))))
job-authorized_example = job-authorized server hash up (show_id 2) header db

authenticate-revoke_example :
    (authenticate_api_key server hash up 600
      (codes "ws_live_abc")
      (revoke_api_key server hash up 500 (show_id 7) db).1).0
    ≡ err no_rows
authenticate-revoke_example =
    authenticate-revoke server hash 500 600 (show_id 7) (codes "ws_live_abc") db key_row (tt, tt)
      (inl refl) refl refl

abbrev created : KeyRow
unfolding new_key
created =
    new_key 8 500 (codes "app") (codes "ws_live_" ++ codes "xyz")
      (hash (codes "ws_live_" ++ codes "xyz")) 120

abbrev created_key : CreatedApiKey
unfolding scan_key
created_key = record { key = scan_key server hash created; secret = codes "ws_live_xyz" }

creation :
    create_api_key server hash up 8 500 (some (codes "xyz")) (codes "app") (pos 0) db
    ≡ (ok created_key, record db { api_keys = db.api_keys ++ created ∷ [] })
unfolding create_api_key insert_key new_key key_is_new key_has_id requests_per_minute count_where
    text_eq scan_key
creation = refl

authenticate-create_example :
    (authenticate_api_key server hash up 600 created_key.secret
      (record db { api_keys = db.api_keys ++ created ∷ [] })).0
    ≡ ok created_key.key
authenticate-create_example =
    authenticate-create server hash 8 500 600 (some (codes "xyz")) (codes "app") (pos 0) db _
      created_key creation

abbrev times : List ℕ
times = 100 ∷ 200 ∷ 300 ∷ []

allowed-minute_example : allowed (codes "k") 2 times new_rate_limiter ≤ 2 * 2
allowed-minute_example =
    allowed-minute (codes "k") 2 100 times new_rate_limiter (omega arith)
      ((omega arith, omega arith), ((omega arith, omega arith), ((omega arith, omega arith), tt)))

ssd_accepted : filter_runes (codes " 1TB  SSD ") ≡ accepted (codes "1TB SSD") true
unfolding filter_runes has_forbidden_characters is_forbidden is_format normalize_query join fields
    is_space fold_width match_string matches_any text_eq
ssd_accepted = refl

filter_again_example :
    IsClean (codes "1TB SSD")
    × (not (text_eq (codes "1TB SSD") (codes " 1TB  SSD ")) ≡ true)
    × (filter_runes (codes "1TB SSD") ≡ accepted (codes "1TB SSD") false)
filter_again_example = filter_again (codes " 1TB  SSD ") (codes "1TB SSD") true ssd_accepted

matches_any_iff_example :
    (matches_any internal_target_patterns (codes "cat /etc/passwd") ≡ true)
    ↔ ((r : Regex) × Among r internal_target_patterns × IsMatched r (codes "cat /etc/passwd"))
matches_any_iff_example = matches_any_iff internal_target_patterns (codes "cat /etc/passwd")

abbrev first : Text → ℕ
first [] = 0
first (a ∷ s) = a

-- the sample's finished job, as it was created
abbrev asked : Job
asked = record held { id = show_id 3; status = queued; worker_id = [] }

-- it is under way at the first poll, and complete at the second
abbrev events : List Event
events =
    tick false up (record db { jobs = (record queued_row { id = 3 }) ∷ [] }) ∷ tick false up db ∷ []

abbrev finished : Job
finished = record held {
  id = show_id 3;
  status = complete;
  result = item ∷ [];
  finished_at = some 400;
}

waited : await_job server false (show_id 7) asked events ≡ some (reply 200 (job_body finished))
unfolding await_job get_job scan_job find_where write_terminal_job
waited = refl

await_job-reply_of_example :
    ((e : Event) × Among e events
      × Fails server (show_id 7) asked e
      × (reply 200 (job_body finished) ≡ unreadable))
    ⊎ ((e : Event) × (j : Job) × Among e events
        × Brings server (show_id 7) asked e j
        × (reply 200 (job_body finished) ≡ reply_of false j))
await_job-reply_of_example =
    await_job-reply_of server false (show_id 7) asked events (reply 200 (job_body finished)) waited
