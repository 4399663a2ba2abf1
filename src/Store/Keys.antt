-- ===== src/Store/Keys.antt =====
-- internal/store/store.go and api_keys.go: the methods on api_keys and workers.
pub mod Laws
use web_scraper.Go.Strings.{text_le}
use web_scraper.Base.{
  ℕ, ◌+◌, ◌<◌, Bool, true, false, not, ◌&&◌, ◌||◌, Option, none, some, List, [], ◌∷◌, ◌++◌, Text,
  codes, text_eq, is_empty, ◌==◌, ltb, leb, if◌then◌else◌, find_where, update_where, count_where,
  select_where, insertion_sort, take, map,
}
use web_scraper.Base.Int.{ℤ, pos, negsuc, ltb_ℤ}
use web_scraper.Model.{Job, Worker}
use web_scraper.Store.Db.{
  KeyRow, JobRow, WorkerRow, Db, Result, ok, err, no_rows, name_required, db_error, ◌>>=◌, Sql,
  Link, over, Postgres,
}
use web_scraper.Store.Jobs.{has_id, scan_job, cast, with_row}

pub record ApiKey : Type 0 where
  pub id : Text
  pub name : Text
  pub prefix : Text
  pub rate_limit_per_minute : ℕ

pub record CreatedApiKey : Type 0 where
  pub key : ApiKey
  pub secret : Text

pub record ApiKeyRecord : Type 0 where
  pub key : ApiKey
  pub created_at : ℕ
  pub last_used_at : Option ℕ
  pub revoked_at : Option ℕ

-- `rpm <= 0` becomes 120
unfoldable pub requests_per_minute : ℤ → ℕ
requests_per_minute (pos n) = if n == 0 then 120 else n
requests_per_minute (negsuc n) = 120

-- the range of the column's type, integer
abbrev int4_limit : ℕ
int4_limit = 2147483648

abbrev is_null : Option ℕ → Bool
is_null none = true
is_null (some _) = false

abbrev or_now : Option ℕ → ℕ → Option ℕ
or_now none now = some now
or_now (some t) now = some t

abbrev pub revoke : ℕ → KeyRow → KeyRow
revoke now k = record k { revoked_at = or_now k.revoked_at now }

unfoldable pub key_has_id : ℕ → KeyRow → Bool
key_has_id u k = k.id == u

-- key_hash=$1 AND revoked_at IS NULL
unfoldable pub unlocks : Text → KeyRow → Bool
unlocks h k = text_eq k.key_hash h && is_null k.revoked_at

abbrev use_at : ℕ → KeyRow → KeyRow
use_at now k = record k { last_used_at = some now }

-- the UNIQUE constraints on id and key_hash
unfoldable pub key_is_new : ℕ → Text → Db → Bool
key_is_new id h db =
    count_where (key_has_id id) db.api_keys == 0
    && count_where (λ k. text_eq (KeyRow.key_hash k) h) db.api_keys == 0

unfoldable pub new_key : ℕ → ℕ → Text → Text → Text → ℕ → KeyRow
new_key id now name raw h rpm = record {
  id = id;
  name = name;
  key_prefix = take 16 raw;
  key_hash = h;
  rate_limit_per_minute = rpm;
  created_at = now;
  last_used_at = none;
  revoked_at = none;
}

abbrev worker_row : ℕ → Text → List Text → WorkerRow
worker_row now id capabilities = record { id = id; last_seen = now; capabilities = capabilities }

-- INSERT INTO workers … ON CONFLICT (id) DO UPDATE
unfoldable pub touch_worker : Link → ℕ → Text → List Text → Sql (Unit {0})
unfolding over
touch_worker link now id capabilities = over link λ db.
    let same = λ (w : WorkerRow). text_eq w.id id in
    (
      ok tt,
      record db {
        workers =
            if count_where same db.workers == 0
            then db.workers ++ worker_row now id capabilities ∷ []
            else update_where same (λ _. worker_row now id capabilities) db.workers;
      },
    )

abbrev worker_of : WorkerRow → Worker
worker_of w = record { id = w.id; last_seen = w.last_seen; capabilities = w.capabilities }

unfoldable pub list_workers : Link → Sql (List Worker)
unfolding over
list_workers link = over link λ db.
    (ok (map worker_of (insertion_sort (λ (a b : WorkerRow). text_le a.id b.id) db.workers)), db)

-- `hash` is `hashKey`, the hexadecimal SHA-256 of a key; nothing is assumed of it.
module _ (pg : Postgres) (hash : Text → Text) where
  open pg use {show_uuid, parse_uuid}

  unfoldable pub scan_key : KeyRow → ApiKey
  scan_key k = record {
    id = show_uuid k.id;
    name = k.name;
    prefix = k.key_prefix;
    rate_limit_per_minute = k.rate_limit_per_minute;
  }

  abbrev pub with_key : {A : Type 0} → Option KeyRow → (KeyRow → Result A) → Result A
  with_key none f = err no_rows
  with_key (some k) f = f k

  -- INSERT INTO api_keys … RETURNING
  unfoldable pub insert_key : Link → KeyRow → Text → Sql CreatedApiKey
  unfolding over scan_key
  insert_key link row raw = over link λ d.
      if ltb row.rate_limit_per_minute int4_limit && key_is_new row.id row.key_hash d
      then (
        ok (record { key = scan_key row; secret = raw }),
        record d { api_keys = d.api_keys ++ row ∷ [] },
      )
      else (err db_error, d)

  -- `secret` is the base64url text of the 32 random bytes, `none` if the generator failed
  unfoldable pub create_api_key : Link → ℕ → ℕ → Option Text → Text → ℤ → Sql CreatedApiKey
  create_api_key link fresh now secret name rpm db = elim (is_empty name) [
    | true ↦ (err name_required, db)
    | false ↦ elim secret [
      | none ↦ (err db_error, db)
      | some s ↦
          insert_key link
            (new_key fresh now name (codes "ws_live_" ++ s) (hash (codes "ws_live_" ++ s))
              (requests_per_minute rpm))
            (codes "ws_live_" ++ s) db
    ]
  ]

  unfoldable pub authenticate_api_key : Link → ℕ → Text → Sql ApiKey
  unfolding over scan_key
  authenticate_api_key link now raw = over link λ db. (
    with_key (find_where (unlocks (hash raw)) db.api_keys) (λ k. ok (scan_key k)),
    record db { api_keys = update_where (unlocks (hash raw)) (use_at now) db.api_keys },
  )

  -- the UPDATE … RETURNING id of one key, after the cast of its id
  unfoldable revoke_row : ℕ → Option ℕ → Sql (Unit {0})
  revoke_row now none db = (err db_error, db)
  revoke_row now (some u) db = (
    with_key (find_where (key_has_id u) db.api_keys) (λ _. ok tt),
    record db { api_keys = update_where (key_has_id u) (revoke now) db.api_keys },
  )

  unfoldable pub revoke_api_key : Link → ℕ → Text → Sql (Unit {0})
  unfolding over revoke_row
  revoke_api_key link now id = over link λ db. revoke_row now (parse_uuid id) db

  unfoldable pub list_api_keys : Link → Sql (List ApiKeyRecord)
  unfolding over scan_key
  list_api_keys link = over link λ db.
      let newest_first = λ (a b : KeyRow). leb b.created_at a.created_at in
      let show = λ (k : KeyRow).
        let r : ApiKeyRecord = record {
          key = scan_key k;
          created_at = k.created_at;
          last_used_at = k.last_used_at;
          revoked_at = k.revoked_at;
        } in
        r in
      (ok (map show (insertion_sort newest_first db.api_keys)), db)

  -- JOIN api_keys k ON k.id=j.requested_by WHERE … k.key_hash=$2 AND k.revoked_at IS NULL
  unfoldable pub readable : Text → List KeyRow → JobRow → Bool
  readable raw keys j =
      not (count_where (λ k. KeyRow.id k == j.requested_by && unlocks (hash raw) k) keys == 0)

  unfoldable pub get_job_by_api_key : Link → Text → Text → Sql Job
  unfolding over scan_job has_id readable
  get_job_by_api_key link id raw = over link λ db. (
    cast (parse_uuid id) (λ u.
        with_row (find_where (λ j. has_id u j && readable raw db.api_keys j) db.jobs)
          (λ r. ok (scan_job pg r))),
    db,
  )
