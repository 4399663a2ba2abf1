-- ===== src/Api/Search.antt =====
-- internal/api/server.go: the handlers that read a request's body or path: `search` from its checks
-- on, `history` and `createAPIKey`. A body comes as what the JSON decoder makes of it. The headers
-- of a reply are left out.
pub mod Created
use web_scraper.Base.{
  ℕ, Bool, true, false, not, ◌&&◌, ◌||◌, Option, none, some, List, [], ◌∷◌, Text, codes, text_eq,
  is_empty, ltb, if◌then◌else◌,
}
use web_scraper.Base.Int.{ℤ, pos, negsuc, int_eq, ltb_ℤ, pos_part}
use web_scraper.Model.{SearchRequest, PricePoint}
use web_scraper.Go.Strings.{trim_space, has_prefix, ascii_lower}
use web_scraper.Go.Strconv.{atoi}
use web_scraper.Policy.Unicode.{Runes, encode}
use web_scraper.Policy.Search.{SearchDecision, accepted, rejected, filter_search_query}
use web_scraper.Store.Db.{Db, StoreError, Result, ok, err, Link, Postgres}
use web_scraper.Store.Catalogue.{history}
use web_scraper.Store.Keys.{CreatedApiKey, create_api_key}
use web_scraper.Api.Reply.{
  Reply, reply, write_error, valid_marketplace, error_message, policy_error, history_body,
  created_key,
}
use web_scraper.Api.Await.{Event, enqueue}

pub data SearchBody : Type 0 where
  not_json more_than_one : SearchBody
  request : SearchRequest → SearchBody

-- a reply, or the request to run and how long to wait for it
pub data Checked : Type 0 where
  refused : Reply → Checked
  passed : SearchRequest → ℕ → Checked

unfoldable pub is_json : Text → Bool
is_json header =
    let content_type = ascii_lower (trim_space header) in
    is_empty content_type || has_prefix content_type (codes "application/json")

abbrev pub wait_of : Option ℤ → ℤ
wait_of none = pos 12000
wait_of (some n) = n

abbrev pub limit_of : ℤ → ℤ
limit_of n = if int_eq n (pos 0) then pos 20 else n

unfoldable pub check_wait : SearchRequest → Checked
check_wait req =
    let wait = wait_of req.wait_ms in
    if ltb_ℤ wait (pos 0) || ltb_ℤ (pos 30000) wait
    then refused (write_error 400 "wait_ms must be 0..30000")
    else passed req (pos_part wait)

unfoldable pub check_limit : SearchRequest → Checked
unfolding check_wait
check_limit req =
    let limit = limit_of req.limit in
    if ltb_ℤ limit (pos 1) || ltb_ℤ (pos 100) limit
    then refused (write_error 400 "limit must be 1..100")
    else check_wait (record req { limit = limit })

unfoldable pub check_decision : SearchRequest → SearchDecision → Checked
unfolding check_limit
check_decision req (rejected r) = refused (reply 400 (policy_error r))
check_decision req (accepted query normalized) = check_limit (record req { query = encode query })

unfoldable pub check_marketplace : SearchRequest → Checked
unfolding check_decision
check_marketplace req =
    let marketplace = ascii_lower (trim_space req.marketplace) in
    if not (valid_marketplace marketplace)
    then refused (write_error 400 "marketplace must be amazon, aliexpress, or ebay")
    else check_decision (record req { marketplace = marketplace }) (filter_search_query req.query)

unfoldable pub check_request : Text → SearchBody → Checked
unfolding is_json check_marketplace
check_request content_type body =
    if not (is_json content_type)
    then refused (write_error 415 "content type must be application/json")
    else elim body [
      | not_json ↦ refused (write_error 400 "invalid JSON request")
      | more_than_one ↦ refused (write_error 400 "request body must contain one JSON object")
      | request req ↦ check_marketplace req
    ]

-- `wantsCompact`
unfoldable pub wants_compact : Text → Bool
wants_compact raw =
    let value = ascii_lower (trim_space raw) in
    text_eq value (codes "1") || text_eq value (codes "true") || text_eq value (codes "yes")

abbrev days_of : Text → Option ℤ
days_of raw = if is_empty raw then some (pos 60) else atoi raw

abbrev points_reply : Text → Text → Result (List PricePoint) → Reply
points_reply marketplace external_id (ok points) =
    reply 200 (history_body marketplace external_id points)
points_reply marketplace external_id (err e) = write_error 500 "could not read history"

module _ (pg : Postgres) where
  -- GET /v1/history/{marketplace}/{externalID}
  unfoldable pub get_history : Link → ℕ → Text → Text → Text → Db → Reply
  unfolding history
  get_history link now raw_marketplace raw_id raw_days db =
      let marketplace = ascii_lower (trim_space raw_marketplace) in
      let external_id = trim_space raw_id in
      if not (valid_marketplace marketplace)
      then write_error 400 "marketplace must be amazon, aliexpress, or ebay"
      else if is_empty external_id
      then write_error 400 "external id is required"
      else elim (days_of raw_days) [
        | none ↦ write_error 400 "days must be 1..365"
        | some n ↦
            if ltb_ℤ n (pos 1) || ltb_ℤ (pos 365) n
            then write_error 400 "days must be 1..365"
            else points_reply marketplace external_id
                (history pg link now marketplace external_id n db).0
      ]

  -- after the checks
  abbrev pub search_checked :
      Checked → Bool → Link → ℕ → ℕ → Text → List Event → Db → Option Reply × Db
  search_checked (refused r) compact link fresh now key_id es db = (some r, db)
  search_checked (passed req wait_ms) compact link fresh now key_id es db =
      enqueue pg link fresh now req compact wait_ms key_id es db

  -- POST /v1/search, for a request that `withAPIKey` lets through with the key `key_id`
  unfoldable pub search :
      Text → SearchBody → Text → Link → ℕ → ℕ → Text → List Event → Db → Option Reply × Db
  unfolding check_request
  search content_type body compact link fresh now key_id es db =
      search_checked (check_request content_type body) (wants_compact compact) link fresh now key_id
        es db

  -- `message` is the text of a store's error
  abbrev key_reply : (StoreError → Text) → Result CreatedApiKey → Reply
  key_reply message (ok key) = reply 201 (created_key key)
  key_reply message (err e) = reply 400 (error_message (message e))

  -- POST /admin/api-keys, with the name and the limit of the body
  unfoldable pub create_key :
      (Text → Text)
      → (StoreError → Text)
      → Link
      → ℕ
      → ℕ
      → Option Text
      → Option (Text × ℤ)
      → Db
      → Reply × Db
  create_key hash message link fresh now secret none db = (write_error 400 "invalid JSON", db)
  create_key hash message link fresh now secret (some (name, rpm)) db =
      let (r, db') = create_api_key pg hash link fresh now secret (trim_space name) rpm db in
      (key_reply message r, db')
