-- ===== src/Store/Jobs.antt =====
-- internal/store/store.go: the methods on the table scrape_jobs, but `CompleteJob`. Each is one
-- statement, or one transaction around one statement, and runs atomically: the rows that it
-- changes are locked. The argument `link` says how its round trip ends, `now` is the server's
-- now(), and the other arguments that the source does not have are named where they stand.
use web_scraper.Base.{
  ℕ, ◌+◌, Bool, true, false, not, ◌&&◌, ◌||◌, Option, none, some, List, [], ◌∷◌, ◌++◌, Text, codes,
  text_eq, ◌==◌, ltb, if◌then◌else◌, find_where, update_where, count_where,
}
use web_scraper.Base.Int.{ℤ, pos, ltb_ℤ}
use web_scraper.Model.{SearchRequest, Listing, Status, queued, running, complete, failed, Job}
use web_scraper.Store.Db.{
  KeyRow, JobRow, Db, Result, ok, err, no_rows, claim_lost, db_error, Sql, Link, over, Postgres,
}

unfoldable status_eq : Status → Status → Bool
status_eq queued queued = true
status_eq running running = true
status_eq complete complete = true
status_eq failed failed = true
status_eq _ _ = false

-- a nullable column compared with a value: NULL is not equal to anything
unfoldable column_is : Option Text → Text → Bool
column_is none w = false
column_is (some v) w = text_eq v w

abbrev text_or_empty : Option Text → Text
text_or_empty none = []
text_or_empty (some t) = t

abbrev listings_or_empty : Option (List Listing) → List Listing
listings_or_empty none = []
listings_or_empty (some l) = l

abbrev pub with_row : {A : Type 0} → Option JobRow → (JobRow → Result A) → Result A
with_row none f = err no_rows
with_row (some r) f = f r

abbrev pub cast : {A : Type 0} → Option ℕ → (ℕ → Result A) → Result A
cast none f = err db_error
cast (some u) f = f u

-- the column's CHECK, and the server's side of `validMarketplace`
unfoldable pub marketplace_check : Text → Bool
marketplace_check m =
    text_eq m (codes "amazon") || text_eq m (codes "aliexpress") || text_eq m (codes "ebay")

unfoldable pub limit_check : ℤ → Bool
limit_check n = not (ltb_ℤ n (pos 1)) && not (ltb_ℤ (pos 100) n)

-- the row of an INSERT, with the defaults of schema.sql
unfoldable pub new_row : ℕ → ℕ → SearchRequest → ℕ → JobRow
new_row id now req requester = record {
  id = id;
  marketplace = req.marketplace;
  query = req.query;
  result_limit = req.limit;
  status = queued;
  priority = 0;
  requested_by = requester;
  worker_id = none;
  result = none;
  error = none;
  created_at = now;
  claimed_at = none;
  finished_at = none;
}

-- id=$1::uuid AND status='running' AND worker_id=$2
unfoldable pub owned : ℕ → Text → JobRow → Bool
unfolding status_eq column_is
owned id w r = r.id == id && (status_eq r.status running && column_is r.worker_id w)

abbrev pub set_running : Text → ℕ → JobRow → JobRow
set_running w now r = record r {
  status = running;
  claimed_at = some now;
  worker_id = some w;
  error = none;
}

abbrev pub set_complete : List Listing → ℕ → JobRow → JobRow
set_complete listings now r = record r {
  status = complete;
  result = some listings;
  finished_at = some now;
  error = none;
}

abbrev pub set_failed : Text → ℕ → JobRow → JobRow
set_failed message now r = record r {
  status = failed;
  error = some message;
  finished_at = some now;
}

abbrev stale_message : Text
stale_message = codes "requeued after stale worker claim"

abbrev pub set_queued : JobRow → JobRow
set_queued r = record r {
  status = queued;
  claimed_at = none;
  worker_id = none;
  error = some stale_message;
}

-- claimed_at < now()-($1 * interval '1 second')
abbrev claimed_before : Option ℕ → ℕ → ℕ → Bool
claimed_before none older_than now = false
claimed_before (some t) older_than now = ltb (t + older_than) now

unfoldable pub is_stale : ℕ → ℕ → JobRow → Bool
unfolding status_eq
is_stale older_than now r = status_eq r.status running && claimed_before r.claimed_at older_than now

unfoldable pub has_id : ℕ → JobRow → Bool
has_id u r = r.id == u

unfoldable pub is_queued : JobRow → Bool
unfolding status_eq
is_queued r = status_eq r.status queued

-- ORDER BY priority DESC, created_at: `a` comes strictly before `b`
unfoldable pub precedes : JobRow → JobRow → Bool
precedes a b =
    ltb b.priority a.priority || (a.priority == b.priority && ltb a.created_at b.created_at)

-- the first row in that order, of those that no other transaction has locked; of rows that tie the
-- server may return any, and this is the first in the table
unfoldable pub earlier : JobRow → Option JobRow → Option JobRow
unfolding precedes
earlier r none = some r
earlier r (some b) = if precedes b r then some b else some r

unfoldable pub next_queued : (ℕ → Bool) → List JobRow → Option JobRow
unfolding earlier is_queued
next_queued locked [] = none
next_queued locked (r ∷ rows) =
    let rest = next_queued locked rows in
    if is_queued r && not (locked r.id) then earlier r rest else rest

-- `result.RowsAffected() != 1` after an UPDATE of the jobs
unfoldable pub update_owned : (JobRow → Bool) → (JobRow → JobRow) → Sql Unit
update_owned p f db =
    let db' = record db { jobs = update_where p f db.jobs } in
    if count_where p db.jobs == 1 then (ok tt, db') else (err claim_lost, db')

unfoldable pub requeue_stale_jobs : Link → ℕ → ℕ → Sql ℕ
unfolding over is_stale
requeue_stale_jobs link now older_than = over link λ db. (
  ok (count_where (is_stale older_than now) db.jobs),
  record db { jobs = update_where (is_stale older_than now) set_queued db.jobs },
)

abbrev pub key_exists : Option KeyRow → Bool
key_exists none = false
key_exists (some _) = true

abbrev pub key_has_id : ℕ → KeyRow → Bool
key_has_id u k = k.id == u

-- the constraints of scrape_jobs on a new row
unfoldable pub row_check : ℕ → ℕ → SearchRequest → Db → Bool
unfolding marketplace_check limit_check has_id
row_check id requester req db =
    marketplace_check req.marketplace
    && limit_check req.limit
    && key_exists (find_where (key_has_id requester) db.api_keys)
    && count_where (has_id id) db.jobs == 0

module _ (pg : Postgres) where
  open pg use {show_uuid, parse_uuid}

  unfoldable pub scan_job : JobRow → Job
  scan_job r = record {
    id = show_uuid r.id;
    marketplace = r.marketplace;
    query = r.query;
    limit = r.result_limit;
    status = r.status;
    worker_id = text_or_empty r.worker_id;
    error = text_or_empty r.error;
    result = listings_or_empty r.result;
    created_at = r.created_at;
    finished_at = r.finished_at;
  }

  -- what the RETURNING clauses of `CreateJob` and `ClaimJob` fill in; the rest of a Job stays zero
  unfoldable pub scan_claim : JobRow → Job
  scan_claim r = record {
    id = show_uuid r.id;
    marketplace = r.marketplace;
    query = r.query;
    limit = r.result_limit;
    status = r.status;
    worker_id = text_or_empty r.worker_id;
    error = [];
    result = [];
    created_at = r.created_at;
    finished_at = none;
  }

  -- `fresh` is what gen_random_uuid() returns
  unfoldable pub create_job : Link → ℕ → ℕ → SearchRequest → Text → Sql Job
  unfolding over scan_claim
  create_job link fresh now req requester = over link λ db. elim (parse_uuid requester) [
    | none ↦ (err db_error, db)
    | some key ↦
        if row_check fresh key req db
        then (
          ok (scan_claim (new_row fresh now req key)),
          record db { jobs = db.jobs ++ new_row fresh now req key ∷ [] },
        )
        else (err db_error, db)
  ]

  unfoldable pub get_job : Link → Text → Text → Sql Job
  unfolding over scan_job has_id
  get_job link id requester = over link λ db. (
    cast (parse_uuid id) (λ u. cast (parse_uuid requester) (λ key.
        with_row (find_where (λ r. has_id u r && JobRow.requested_by r == key) db.jobs)
          (λ r. ok (scan_job r)))),
    db,
  )

  -- the UPDATE … FROM next … RETURNING, over the row that the subquery found
  unfoldable pub take_job : ℕ → Text → Option JobRow → Sql Job
  unfolding scan_claim has_id
  take_job now w none db = (err no_rows, db)
  take_job now w (some r) db = (
    ok (scan_claim (set_running w now r)),
    record db { jobs = update_where (has_id r.id) (set_running w now) db.jobs },
  )

  -- `locked` tells the jobs on which another transaction holds a row lock (SKIP LOCKED)
  unfoldable pub claim_job : Link → (ℕ → Bool) → ℕ → Text → Sql Job
  unfolding over take_job
  claim_job link locked now w = over link λ db. take_job now w (next_queued locked db.jobs) db

  unfoldable pub refresh_job_claim : Link → ℕ → Text → Text → Sql Unit
  unfolding over
  refresh_job_claim link now id w = over link λ db. elim (parse_uuid id) [
    | none ↦ (err db_error, db)
    | some u ↦ update_owned (owned u w) (λ r. record r { claimed_at = some now }) db
  ]

  unfoldable pub fail_job : Link → ℕ → Text → Text → Text → Sql Unit
  unfolding over
  fail_job link now id w message = over link λ db. elim (parse_uuid id) [
    | none ↦ (err db_error, db)
    | some u ↦ update_owned (owned u w) (set_failed message now) db
  ]
