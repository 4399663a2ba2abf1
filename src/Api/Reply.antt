-- ===== src/Api/Reply.antt =====
-- internal/api/server.go and compact.go: what the handlers write. A reply's body is the value that
-- is encoded as JSON. The headers are left out.
use web_scraper.Base.{
  ℕ, Bool, ◌||◌, Option, none, some, List, Text, String, codes, text_eq, map, if◌then◌else◌,
}
use web_scraper.Base.Int.{ℤ}
use web_scraper.Model.{
  Listing, Status, queued, running, complete, failed, Job, Worker, PricePoint, Float64,
}
use web_scraper.Policy.Search.{Rejection}
use web_scraper.Store.Keys.{CreatedApiKey, ApiKeyRecord}

pub record CompactListing : Type 0 where
  pub external_id : Text
  pub title : Text
  pub url : Text
  pub seller : Text
  pub price_minor : Option ℤ
  pub original_price_minor : Option ℤ
  pub ship_minor : Option ℤ
  pub currency : Text
  pub available : Option Bool
  pub rating : Option Float64
  pub review_count : Option ℤ
  pub sold_count : Option ℤ
  pub sponsored : Option Bool

pub record CompactJob : Type 0 where
  pub id : Text
  pub marketplace : Text
  pub query : Text
  pub status : Status
  pub error : Text
  pub result : List CompactListing

abbrev compact_listing : Listing → CompactListing
compact_listing item = record {
  external_id = item.external_id;
  title = item.title;
  url = item.url;
  seller = item.seller;
  price_minor = item.price_minor;
  original_price_minor = item.original_price_minor;
  ship_minor = item.ship_minor;
  currency = item.currency;
  available = item.available;
  rating = item.rating;
  review_count = item.review_count;
  sold_count = item.sold_count;
  sponsored = item.sponsored;
}

unfoldable pub compact_job_view : Job → CompactJob
compact_job_view job = record {
  id = job.id;
  marketplace = job.marketplace;
  query = job.query;
  status = job.status;
  error = job.error;
  result = map compact_listing job.result;
}

pub data Body : Type 0 where
  is_ok : Body
  error_message : Text → Body
  policy_error : Rejection → Body
  job_body : Job → Body
  compact_body : CompactJob → Body
  history_body : Text → Text → List PricePoint → Body
  created_key : CreatedApiKey → Body
  key_list : List ApiKeyRecord → Body
  revoked : Text → Body
  worker_list : List Worker → Body

pub record Reply : Type 0 where
  pub status : ℕ
  pub body : Body

abbrev pub reply : ℕ → Body → Reply
reply status body = record { status = status; body = body }

abbrev pub write_error : ℕ → String → Reply
write_error status message = reply status (error_message (codes message))

abbrev pub write_job_json : ℕ → Job → Bool → Reply
write_job_json status job compact =
    if compact
    then reply status (compact_body (compact_job_view job))
    else reply status (job_body job)

-- the reply for a job that has ended
unfoldable pub write_terminal_job : Job → Bool → Option Reply
write_terminal_job job compact = elim job.status [
  | queued ↦ none
  | running ↦ none
  | complete ↦ some (write_job_json 200 job compact)
  | failed ↦ some (write_job_json 502 job compact)
]

unfoldable pub valid_marketplace : Text → Bool
valid_marketplace m =
    text_eq m (codes "amazon") || text_eq m (codes "aliexpress") || text_eq m (codes "ebay")
