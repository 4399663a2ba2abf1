-- ===== src/Ziz/Client.antt =====
-- internal/ziz/client.go: the requests, their retries and waits, and a page of posts. What the
-- network answers is a script: `tries n` is the outcome of the request of attempt n, and
-- `undisturbed n` tells that the wait after it is not cut off by the context. Durations are in
-- nanoseconds.
pub mod Retries
pub mod Settings
use web_scraper.Base.{
  ℕ, zero, suc, ◌+◌, ◌-◌, ◌*◌, ◌^◌, Bool, true, false, not, ◌&&◌, ◌||◌, Option, none, some, List,
  [], ◌∷◌, Text, codes, is_empty, ltb, leb, ◌==◌, if◌then◌else◌, length,
}
use web_scraper.Base.Int.{ℤ, pos, negsuc, ltb_ℤ, int_eq, pos_part}
use web_scraper.Go.Strconv.{atoi, atoi_value}
use web_scraper.Ziz.Types.{WpPost}

pub record Response : Type 0 where
  pub status : ℕ
  pub retry_after : Text
  pub wp_total : Text
  pub wp_total_pages : Text
  pub content_type : Text
  pub content_length : ℤ
  pub body : Text

-- what `c.http.Do` returns
pub data Try : Type 0 where
  answered : Response → Try
  broken : Text → Try

-- `lastErr`
pub data LastError : Type 0 where
  bad_status : ℕ → LastError
  transport : Text → LastError

-- what `do` returns: a response, or one of its errors
pub data Reply : Type 0 where
  got : Response → Reply
  bad_request : Reply
  rejected : Response → Reply
  cancelled : Reply
  exhausted : LastError → Reply

abbrev pub second : ℕ
second = 1000000000

abbrev pub ms : ℕ
ms = 1000000

abbrev retries : ℕ
retries = 3

abbrev pub is_success : ℕ → Bool
is_success status = leb 200 status && ltb status 300

abbrev pub is_retryable : ℕ → Bool
is_retryable status = status == 429 || leb 500 status

abbrev pub cap_seconds : ℤ → ℕ
cap_seconds (negsuc n) = 0
cap_seconds (pos n) = if ltb 10 n then 10 * second else n * second

abbrev pub cap_wait : Option ℤ → ℕ
cap_wait none = 0
cap_wait (some (negsuc n)) = 0
cap_wait (some (pos n)) = if ltb (10 * second) n then 10 * second else n

-- `until` is the time from now to the date that http.ParseTime reads, if it reads one
unfoldable pub retry_after : (Text → Option ℤ) → Text → ℕ
retry_after until raw =
    if is_empty raw
    then 0
    else elim (atoi raw) [ some n ↦ cap_seconds n | none ↦ cap_wait (until raw) ]

-- the wait between two attempts
unfoldable pub backoff : ℕ → ℕ
backoff attempt = 250 * 2 ^ attempt * ms

-- the reply, with the requests made and the time that was spent in waits that ran to their end
pub record Run : Type 0 where
  pub reply : Reply
  pub requests : ℕ
  pub waited : ℕ

abbrev pub finish : Reply → Run
finish r = record { reply = r; requests = 1; waited = 0 }

-- a request and a wait before the rest
abbrev pub wait_then : ℕ → Bool → Run → Run
wait_then t undisturbed rest =
    if undisturbed
    then record rest { requests = suc rest.requests; waited = t + rest.waited }
    else finish cancelled

-- a request that no wait follows
abbrev then_give_up : LastError → Run
then_give_up e = finish (exhausted e)

module _ (until : Text → Option ℤ) (tries : ℕ → Try) (undisturbed : ℕ → Bool) where
  -- the loop's end after a failure that may be retried: `left` attempts are left after this one,
  -- the wait by Retry-After is `wait`, and `rest` is what the next attempt brings
  unfoldable pub retry : ℕ → ℕ → ℕ → LastError → Run → Run
  unfolding backoff
  retry wait left attempt e rest =
      if ltb 0 wait
      then (wait_then wait (undisturbed attempt)
          (if left == 0 then record { reply = exhausted e; requests = 0; waited = 0 } else rest))
      else if left == 0
      then then_give_up e
      else wait_then (backoff attempt) (undisturbed attempt) rest

  unfoldable pub handle : Try → ℕ → ℕ → Run → Run
  unfolding retry retry_after
  handle (broken e) left attempt rest = retry 0 left attempt (transport e) rest
  handle (answered r) left attempt rest =
      if is_success r.status
      then finish (got r)
      else if not (is_retryable r.status)
      then finish (rejected r)
      else retry (retry_after until r.retry_after) left attempt (bad_status r.status) rest

  -- the loop, from an attempt on after which `left` more may be made
  unfoldable pub attempts_from : ℕ → ℕ → Run
  unfolding handle
  attempts_from zero attempt = handle (tries attempt) 0 attempt (finish (exhausted (transport [])))
  attempts_from (suc left) attempt =
      handle (tries attempt) (suc left) attempt (attempts_from left (suc attempt))

  -- `valid` tells that http.NewRequestWithContext accepts the URL
  unfoldable pub do_request : Bool → Run
  unfolding attempts_from
  do_request valid =
      if valid
      then attempts_from retries 0
      else record { reply = bad_request; requests = 0; waited = 0 }

-- the arguments of `FetchPostsPage` as it corrects them
unfoldable page_of : ℤ → ℤ
page_of page = if ltb_ℤ page (pos 1) then pos 1 else page

unfoldable per_page_of : ℤ → ℤ
per_page_of n = if ltb_ℤ n (pos 1) || ltb_ℤ (pos 100) n then pos 100 else n

pub record Page : Type 0 where
  pub posts : List WpPost
  pub total : ℤ
  pub total_pages : ℤ

pub data Fetched : Type 0 where
  page : Page → Fetched
  request_failed not_json no_headers : Fetched

-- after the decoder
unfoldable read_headers : ℤ → List WpPost → Text → Text → Fetched
read_headers per_page posts total total_pages =
    if int_eq (atoi_value total_pages) (pos 0)
    then (if ltb_ℤ (pos (length posts)) per_page
        then page (record { posts = posts; total = pos (length posts); total_pages = pos 1 })
        else no_headers)
    else page
        (record { posts = posts; total = atoi_value total; total_pages = atoi_value total_pages })

-- `decode_posts` is the JSON decoder. `ask` is `do` on the URL for a page and a page size.
unfoldable fetch_posts_page : (Text → Option (List WpPost)) → (ℤ → ℤ → Reply) → ℤ → ℤ → Fetched
unfolding read_headers page_of per_page_of
fetch_posts_page decode_posts ask n per_page = elim (ask (page_of n) (per_page_of per_page)) [
  | got r ↦ elim (decode_posts r.body) [
    | none ↦ not_json
    | some posts ↦ read_headers (per_page_of per_page) posts r.wp_total r.wp_total_pages
  ]
  | bad_request ↦ request_failed
  | rejected r ↦ request_failed
  | cancelled ↦ request_failed
  | exhausted e ↦ request_failed
]
