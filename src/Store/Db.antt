-- ===== src/Store/Db.antt =====
-- internal/store/schema.sql: the tables as lists of rows, the errors that the store's methods
-- return, and the ways in which a round trip to the server can end.
use web_scraper.Base.{
  ℕ, ◌≤◌, ◌≡◌, refl, ◌≢◌, ◌⊎◌, inl, inr, Bool, Option, none, some, List, ◌∷◌, Text, All, Among,
}
use web_scraper.Base.Int.{ℤ}
use web_scraper.Model.{Listing, Status, Float64}

pub record KeyRow : Type 0 where
  pub id : ℕ
  pub name : Text
  pub key_prefix : Text
  pub key_hash : Text
  pub rate_limit_per_minute : ℕ
  pub created_at : ℕ
  pub last_used_at : Option ℕ
  pub revoked_at : Option ℕ

-- `priority` has its default, 0, in every row that the program inserts.
pub record JobRow : Type 0 where
  pub id : ℕ
  pub marketplace : Text
  pub query : Text
  pub result_limit : ℤ
  pub status : Status
  pub priority : ℕ
  pub requested_by : ℕ
  pub worker_id : Option Text
  pub result : Option (List Listing)
  pub error : Option Text
  pub created_at : ℕ
  pub claimed_at : Option ℕ
  pub finished_at : Option ℕ

pub record ProductRow : Type 0 where
  pub id : ℕ
  pub marketplace : Text
  pub external_id : Text
  pub canonical_url : Text
  pub title : Text
  pub image_url : Option Text
  pub seller : Option Text
  pub created_at : ℕ
  pub updated_at : ℕ

pub record ObservationRow : Type 0 where
  pub product_id : ℕ
  pub job_id : Option ℕ
  pub observed_at : ℕ
  pub price_minor : Option ℤ
  pub original_price_minor : Option ℤ
  pub shipping_minor : Option ℤ
  pub currency : Option Text
  pub available : Option Bool
  pub rating : Option Float64
  pub review_count : Option ℤ
  pub sold_count : Option ℤ
  pub sponsored : Option Bool
  pub source : Text

pub record WorkerRow : Type 0 where
  pub id : Text
  pub last_seen : ℕ
  pub capabilities : List Text

pub record Db : Type 0 where
  pub api_keys : List KeyRow
  pub jobs : List JobRow
  pub products : List ProductRow
  pub observations : List ObservationRow
  pub workers : List WorkerRow

-- `pgx.ErrNoRows`, `ErrJobClaimLost`, the two errors that the methods make up, and all else that
-- pgx returns: a lost connection, a cancelled context, a failed cast, a violated constraint.
pub data StoreError : Type 0 where
  no_rows claim_lost missing_claim name_required db_error : StoreError

pub data Result {ℓ} (A : Type ℓ) : Type ℓ where
  err : StoreError → Result A
  ok : A → Result A

-- the early return after each call that fails
infixl 5 ◌>>=◌
abbrev pub ◌>>=◌ {ι κ} :
    {A : Type ι} {B : Type κ} (call : Result A) (rest : A → Result B) → Result B
err problem >>= rest = err problem
ok answer >>= rest = rest answer

-- What a bind that succeeds says of its two parts.
pub >>=-eq-ok {ι κ} :
    {A : Type ι} {B : Type κ} (call : Result A) (rest : A → Result B) {final : B}
    → (call >>= rest) ≡ ok final
    → (answer : A) × (call ≡ ok answer) × (rest answer ≡ ok final)
>>=-eq-ok (err problem) rest h = cc
>>=-eq-ok (ok answer) rest h = (answer, refl, h)

-- A method of the store: its result, and the tables it leaves.
abbrev pub Sql : Type 0 → Type 0
Sql A = Db → Result A × Db

-- How a round trip ends: it goes through; the statement does not run; the statement runs and is
-- committed, but the reply does not arrive.
pub data Link : Type 0 where
  up refused reply_lost : Link

unfoldable pub over : {A : Type 0} → Link → Sql A → Sql A
over up m db = m db
over refused m db = (err db_error, db)
over reply_lost m db = (err db_error, (m db).1)

-- `BeginTx`, a body, `Commit`, with the deferred `Rollback`: an error in the body leaves the tables
-- as they were.
unfoldable pub transaction : {A : Type 0} → Link → (Db → Result (A × Db)) → Sql A
unfolding over
transaction commit body db = elim (body db) [
  | err e ↦ (err e, db)
  | ok (a, db') ↦ over commit (λ _. (ok a, db')) db
]

Result-cases :
    {A : Type 0} (r : Result (A × Db))
    → ((e : StoreError) × (r ≡ err e)) ⊎ ((a : A) × (db : Db) × (r ≡ ok (a, db)))
Result-cases (ok (a, db)) = inr (a, db, refl)
Result-cases (err e) = inl (e, refl)

-- A transaction leaves the tables as they were, or as its body leaves them.
pub transaction-cases :
    {A : Type 0} (commit : Link) (body : Db → Result (A × Db)) (db : Db)
    → ((transaction commit body db).1 ≡ db)
      ⊎ ((a : A) × (db' : Db) × (body db ≡ ok (a, db')) × ((transaction commit body db).1 ≡ db'))
unfolding transaction
transaction-cases {A} commit body db = elim (Result-cases (body db)) [
  | inl (e, h) ↦ inl (rw (h, transaction))
  | inr (a, db', h) ↦ over_cases commit a db' h
]
  where
    over_cases :
        (l : Link) (a : A) (db' : Db) (h : body db ≡ ok (a, db'))
        → ((transaction l body db).1 ≡ db)
          ⊎ ((a : A) × (db' : Db) × (body db ≡ ok (a, db')) × ((transaction l body db).1 ≡ db'))
    over_cases up a db' h = inr (a, db', h, rw (h, transaction))
    over_cases refused a db' h = inl (rw (h, transaction))
    over_cases reply_lost a db' h = inr (a, db', h, rw (h, transaction))

-- What Postgres and its driver decide: the text form of a uuid, which for a uuid of its own it
-- reads back; the next product id, which no row has; the row that ORDER BY observed_at DESC LIMIT 1
-- returns, one of those with the latest time; and what becomes of an int that stands for a text.
pub record Postgres : Type 0 where
  pub show_uuid : ℕ → Text
  pub parse_uuid : Text → Option ℕ
  pub parse-show : (u : ℕ) → parse_uuid (show_uuid u) ≡ some u
  pub nextval : List ProductRow → ℕ
  pub nextval-fresh : (ps : List ProductRow) → All (λ p. ProductRow.id p ≢ nextval ps) ps
  pub newest : List ObservationRow → Option ObservationRow
  pub newest-latest :
      (os : List ObservationRow) (o : ObservationRow)
      → newest os ≡ some o
      → All (λ x. ObservationRow.observed_at x ≤ ObservationRow.observed_at o) os
  pub newest-among :
      (os : List ObservationRow) (o : ObservationRow) → newest os ≡ some o → Among o os
  pub newest-cons : (o : ObservationRow) (os : List ObservationRow) → newest (o ∷ os) ≢ none
  -- the length in microseconds of ($3::text || ' days')::interval for an argument that is an int:
  -- none if the driver has no encoding of an int as a text, as pgx v5 has none
  pub interval_of : ℕ → Option ℕ
