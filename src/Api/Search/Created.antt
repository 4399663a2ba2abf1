-- ===== src/Api/Search/Created.antt =====
-- What passes the checks of `search` is what the tables accept.
use web_scraper.Base.{
  ℕ, ◌≤◌, ◌≢◌, inl, inr, ◌≡◌, refl, sym, ◌∙◌, ap, Bool, true, false, not, ◌||◌, some, List, [], ◌∷◌,
  ◌++◌, Text, arith, find_where, count_where, Bool-cases,
}
use web_scraper.Base.Int.{ℤ, pos, negsuc, ltb_ℤ, pos_part}
use web_scraper.Model.{SearchRequest, Job}
use web_scraper.Policy.Unicode.{Runes, encode}
use web_scraper.Policy.Search.{SearchDecision, accepted, rejected, filter_search_query}
use web_scraper.Store.Db.{Db, Result, over, up, ok, Postgres}
use web_scraper.Store.Jobs.{
  marketplace_check, limit_check, row_check, key_exists, key_has_id, has_id, new_row, scan_claim,
  create_job,
}
use web_scraper.Go.Strings.{trim_space, ascii_lower}
use web_scraper.Api.Reply.{Reply, write_error, valid_marketplace}
use web_scraper.Api.Await.{Event, answer, enqueue}
use web_scraper.Api.Search.{
  SearchBody, not_json, more_than_one, request, refused, passed, is_json, wait_of, limit_of,
  check_wait, check_limit, check_decision, check_marketplace, check_request, wants_compact,
  search_checked, search,
}

-- The request is one that the tables accept, and its query is one that the policy has let through.
pub record IsRunnable (input : Text) (req : SearchRequest) (wait_ms : ℕ) : Type 0 where
  pub marketplace : marketplace_check req.marketplace ≡ true
  pub limit : limit_check req.limit ≡ true
  pub wait : wait_ms ≤ 30000
  pub query : Runes
  pub normalized : Bool
  pub allowed : filter_search_query input ≡ accepted query normalized
  pub stored : req.query ≡ encode query

refused_ne : (x : Reply) (req : SearchRequest) (w : ℕ) → refused x ≢ passed req w
refused_ne x req w e = cc

in_wait : (n : ℤ) → (ltb_ℤ n (pos 0) || ltb_ℤ (pos 30000) n) ≡ false → pos_part n ≤ 30000
in_wait (pos n) h = ground arith
in_wait (negsuc n) h = omega arith

in_limit : (n : ℤ) → (ltb_ℤ n (pos 1) || ltb_ℤ (pos 100) n) ≡ false → limit_check n ≡ true
unfolding limit_check
in_limit n h = ground arith

passed_same : (r req : SearchRequest) (v w : ℕ) → passed r v ≡ passed req w → (r ≡ req) × (v ≡ w)
passed_same r req v w h = (cc, cc)

check_wait-passed :
    (r req : SearchRequest) (w : ℕ) → check_wait r ≡ passed req w → (r ≡ req) × (w ≤ 30000)
unfolding check_wait
check_wait-passed r req w h =
    elim (Bool-cases (ltb_ℤ (wait_of r.wait_ms) (pos 0) || ltb_ℤ (pos 30000) (wait_of r.wait_ms))) [
      | inl e ↦ absurd (refused_ne _ req w (rw e at h))
      | inr e ↦
          let (same, waits) = passed_same r req (pos_part (wait_of r.wait_ms)) w (rw e at h) in
          (same, rw (← waits) (in_wait (wait_of r.wait_ms) e))
    ]

check_limit-passed :
    (r req : SearchRequest) (w : ℕ)
    → check_limit r ≡ passed req w
    → (limit_check req.limit ≡ true)
      × (req.marketplace ≡ r.marketplace)
      × (req.query ≡ r.query)
      × (w ≤ 30000)
unfolding check_limit
check_limit-passed r req w h =
    elim (Bool-cases (ltb_ℤ (limit_of r.limit) (pos 1) || ltb_ℤ (pos 100) (limit_of r.limit))) [
      | inl e ↦ absurd (refused_ne _ req w (rw e at h))
      | inr e ↦
          let (same, waits) =
            check_wait-passed (record r { limit = limit_of r.limit }) req w (rw e at h) in
          (
            ap limit_check (sym (ap (λ q. q.limit) same)) ∙ in_limit (limit_of r.limit) e,
            sym (ap (λ q. q.marketplace) same),
            sym (ap (λ q. q.query) same),
            waits,
          )
    ]

valid_marketplace-check :
    (m : Text) → not (valid_marketplace m) ≡ false → marketplace_check m ≡ true
unfolding valid_marketplace marketplace_check
valid_marketplace-check m h = ground arith

check_decision-passed :
    (input : Text) (r req : SearchRequest) (w : ℕ) (d : SearchDecision)
    → marketplace_check r.marketplace ≡ true
    → filter_search_query input ≡ d
    → check_decision r d ≡ passed req w
    → IsRunnable input req w
unfolding check_decision
check_decision-passed input r req w (rejected x) m d h = absurd (refused_ne _ req w h)
check_decision-passed input r req w (accepted query normalized) m d h =
    let (a, b, c, e) = check_limit-passed (record r { query = encode query }) req w h in
    record {
      marketplace = ap marketplace_check b ∙ m;
      limit = a;
      wait = e;
      query = query;
      normalized = normalized;
      allowed = d;
      stored = c;
    }

check_marketplace-passed :
    (r req : SearchRequest) (w : ℕ) → check_marketplace r ≡ passed req w → IsRunnable r.query req w
unfolding check_marketplace
check_marketplace-passed r req w h =
    let m = ascii_lower (trim_space r.marketplace) in
    elim (Bool-cases (not (valid_marketplace m))) [
      | inl e ↦ absurd (refused_ne _ req w (rw e at h))
      | inr e ↦
          check_decision-passed r.query (record r { marketplace = m }) req w
            (filter_search_query r.query) (valid_marketplace-check m e) refl (rw e at h)
    ]

check_request-passed :
    (content_type : Text) (body : SearchBody) (req : SearchRequest) (w : ℕ)
    → check_request content_type body ≡ passed req w
    → (r : SearchRequest) × (body ≡ request r) × IsRunnable r.query req w
unfolding check_request
check_request-passed content_type body req w h = elim (Bool-cases (not (is_json content_type))) [
  | inl e ↦ absurd (refused_ne _ req w (rw e at h))
  | inr e ↦ by_body body (rw e at h)
]
  where
    by_body :
        (b : SearchBody)
        → elim b [
          | not_json ↦ refused (write_error 400 "invalid JSON request")
          | more_than_one ↦ refused (write_error 400 "request body must contain one JSON object")
          | request r ↦ check_marketplace r
        ]
          ≡ passed req w
        → (r : SearchRequest) × (b ≡ request r) × IsRunnable r.query req w
    by_body not_json k = absurd (refused_ne _ req w k)
    by_body more_than_one k = absurd (refused_ne _ req w k)
    by_body (request r) k = (r, refl, check_marketplace-passed r req w k)

row_checked :
    (fresh key : ℕ) (req : SearchRequest) (db : Db)
    → marketplace_check req.marketplace ≡ true
    → limit_check req.limit ≡ true
    → key_exists (find_where (key_has_id key) db.api_keys) ≡ true
    → count_where (has_id fresh) db.jobs ≡ 0
    → row_check fresh key req db ≡ true
unfolding row_check
row_checked fresh key req db m l k f = rw (m, l, k, f) refl

pub create_job-up :
    (pg : Postgres) (fresh now key : ℕ) (key_id : Text) (db : Db) (req : SearchRequest)
    → pg.parse_uuid key_id ≡ some key
    → row_check fresh key req db ≡ true
    → let row = new_row fresh now req key in
      create_job pg up fresh now req key_id db
      ≡ (ok (scan_claim pg row), record db { jobs = db.jobs ++ row ∷ [] })
unfolding create_job over
create_job-up pg fresh now key key_id db req u c = rw (u, create_job) (rw (c, create_job) refl)

-- A request that `search` lets through is for a known marketplace, wants 1 to 100 results, waits
-- for at most 30 seconds, and has a query that the policy has accepted. With a database that
-- answers, the key's row and an id that is not used, its job is then created: no constraint of the
-- tables refuses it, and the reply is that for the queued job.
pub search-created :
    (pg : Postgres) (content_type : Text) (body : SearchBody) (compact : Text) (fresh now key : ℕ)
    (key_id : Text) (es : List Event) (db : Db) (req : SearchRequest) (w : ℕ)
    → check_request content_type body ≡ passed req w
    → pg.parse_uuid key_id ≡ some key
    → key_exists (find_where (key_has_id key) db.api_keys) ≡ true
    → count_where (has_id fresh) db.jobs ≡ 0
    → let row = new_row fresh now req key in
      ((r : SearchRequest) × (body ≡ request r) × IsRunnable r.query req w)
      × (search pg content_type body compact up fresh now key_id es db ≡ (
        answer pg (wants_compact compact) w key_id (ok (scan_claim pg row)) es,
        record db { jobs = db.jobs ++ row ∷ [] },
      ))
unfolding search enqueue
search-created pg content_type body compact fresh now key key_id es db req w h u k f =
    let (r, b, good) = check_request-passed content_type body req w h in
    let row = new_row fresh now req key in
    (
      (r, b, good),
      ap (λ c. search_checked pg c (wants_compact compact) up fresh now key_id es db) h
          ∙ ap (λ (t : Result Job × Db). (answer pg (wants_compact compact) w key_id t.0 es, t.1))
              (create_job-up pg fresh now key key_id db req u
                (row_checked fresh key req db good.marketplace good.limit k f)),
    )
