-- ===== src/Store/Catalogue.antt =====
-- internal/store/store.go: the statements on products and observations, which `CompleteJob` runs
-- for each listing, and `PruneHistory` and `History` over the same tables.
pub mod Products
pub mod Observations
use web_scraper.Base.{
  ℕ, ◌+◌, ◌*◌, ◌-◌, Bool, true, false, not, ◌&&◌, ◌||◌, Option, none, some, List, [], ◌∷◌, ◌++◌,
  map, Text, text_eq, is_empty, ◌==◌, ltb, leb, if◌then◌else◌, find_where, update_where,
  count_where, select_where, insertion_sort,
}
use web_scraper.Base.Int.{ℤ, int_eq, pos, ltb_ℤ, pos_part}
use web_scraper.Model.{Listing, Float64, PricePoint}
use web_scraper.Store.Db.{
  ProductRow, ObservationRow, Db, ok, err, db_error, Sql, Link, over, Postgres,
}

-- NULLIF(t,'')
unfoldable nullif_empty : Text → Option Text
nullif_empty t = if is_empty t then none else some t

-- COALESCE(a,b)
unfoldable coalesce : Option Text → Option Text → Option Text
coalesce none b = b
coalesce (some a) b = some a

-- a IS NOT DISTINCT FROM b: equal, or both NULL
unfoldable pub not_distinct : {A : Type 0} → (A → A → Bool) → Option A → Option A → Bool
not_distinct eq none none = true
not_distinct eq (some a) (some b) = eq a b
not_distinct eq _ _ = false

unfoldable pub bool_eq : Bool → Bool → Bool
bool_eq true b = b
bool_eq false b = not b

-- two numbers of type double precision, by bit pattern: the two zeros are equal. (JSON has no NaN.)
unfoldable pub float_eq : Float64 → Float64 → Bool
float_eq a b =
    a == b || ((a == 0 || a == 9223372036854775808) && (b == 0 || b == 9223372036854775808))

unfoldable pub same_product : Listing → ProductRow → Bool
same_product item p =
    text_eq p.marketplace item.marketplace && text_eq p.external_id item.external_id

unfoldable pub refresh_product : ℕ → Listing → ProductRow → ProductRow
unfolding nullif_empty coalesce
refresh_product now item p = record p {
  canonical_url = item.url;
  title = item.title;
  image_url = coalesce (nullif_empty item.image_url) p.image_url;
  seller = coalesce (nullif_empty item.seller) p.seller;
  updated_at = now;
}

unfoldable pub new_product : ℕ → ℕ → Listing → ProductRow
unfolding nullif_empty
new_product id now item = record {
  id = id;
  marketplace = item.marketplace;
  external_id = item.external_id;
  canonical_url = item.url;
  title = item.title;
  image_url = nullif_empty item.image_url;
  seller = nullif_empty item.seller;
  created_at = now;
  updated_at = now;
}

unfoldable pub new_observation : ℕ → ℕ → ℕ → Listing → ObservationRow
unfolding nullif_empty
new_observation product job now item = record {
  product_id = product;
  job_id = some job;
  observed_at = now;
  price_minor = item.price_minor;
  original_price_minor = item.original_price_minor;
  shipping_minor = item.ship_minor;
  currency = nullif_empty item.currency;
  available = item.available;
  rating = item.rating;
  review_count = item.review_count;
  sold_count = item.sold_count;
  sponsored = item.sponsored;
  source = item.marketplace;
}

abbrev pub hour : ℕ
hour = 3600000000

abbrev day : ℕ
day = 86400000000

-- the nine comparisons in the subquery of the INSERT
unfoldable pub same_values : ObservationRow → ObservationRow → Bool
unfolding not_distinct bool_eq float_eq
same_values o n =
    not_distinct int_eq o.price_minor n.price_minor
    && (not_distinct int_eq o.original_price_minor n.original_price_minor
        && (not_distinct int_eq o.shipping_minor n.shipping_minor
            && (not_distinct text_eq o.currency n.currency
                && (not_distinct bool_eq o.available n.available
                    && (not_distinct float_eq o.rating n.rating
                        && (not_distinct int_eq o.review_count n.review_count
                            && (not_distinct int_eq o.sold_count n.sold_count
                                && not_distinct bool_eq o.sponsored n.sponsored)))))))

-- EXISTS (…): the newest observation has these values and is less than 24 hours old
unfoldable pub is_repeat : Option ObservationRow → ObservationRow → Bool
is_repeat none n = false
is_repeat (some o) n = same_values o n && ltb n.observed_at (o.observed_at + 24 * hour)

unfoldable pub of_product : ℕ → ObservationRow → Bool
of_product id o = o.product_id == id

module _ (pg : Postgres) where
  open pg use {nextval, newest}

  -- INSERT … ON CONFLICT (marketplace,external_id) DO UPDATE … RETURNING id
  unfoldable pub upsert_product : ℕ → Listing → List ProductRow → ℕ × List ProductRow
  upsert_product now item ps = elim (find_where (same_product item) ps) [
    | none ↦ (nextval ps, ps ++ new_product (nextval ps) now item ∷ [])
    | some p ↦ (ProductRow.id p, update_where (same_product item) (refresh_product now item) ps)
  ]

  -- INSERT INTO observations … SELECT … WHERE NOT EXISTS
  unfoldable pub record_observation : ObservationRow → List ObservationRow → List ObservationRow
  record_observation n os =
      if is_repeat (newest (select_where (of_product n.product_id) os)) n then os else os ++ n ∷ []

-- DELETE FROM observations WHERE observed_at < now()-($1 || ' days')::interval
unfoldable pub prune_history : Link → ℕ → ℕ → Sql ℕ
unfolding over
prune_history link now days =
    let old = λ (o : ObservationRow). ltb (o.observed_at + days * day) now in
    over link λ db. (
      ok (count_where old db.observations),
      record db { observations = select_where (λ o. not (old o)) db.observations },
    )

abbrev text_or_empty : Option Text → Text
text_or_empty none = []
text_or_empty (some t) = t

unfoldable price_point : ObservationRow → PricePoint
price_point o = record {
  observed_at = o.observed_at;
  price_minor = o.price_minor;
  original_price_minor = o.original_price_minor;
  ship_minor = o.shipping_minor;
  currency = text_or_empty o.currency;
  available = o.available;
  rating = o.rating;
  review_count = o.review_count;
  sold_count = o.sold_count;
  sponsored = o.sponsored;
  source = o.source;
}

-- `days` below 1 becomes 60, above 365 becomes 365
unfoldable clamp_days : ℤ → ℕ
clamp_days days =
    if ltb_ℤ days (pos 1) then 60 else if ltb_ℤ (pos 365) days then 365 else pos_part days

-- JOIN products p ON p.id=o.product_id WHERE p.marketplace=$1 AND p.external_id=$2 …
-- and o.observed_at >= now()-(…)::interval, of the length `age`
unfoldable in_history : List ProductRow → Text → Text → ℕ → ℕ → ObservationRow → Bool
in_history ps marketplace external_id now age o =
    let wanted = λ (p : ProductRow).
      p.id == o.product_id
      && (text_eq p.marketplace marketplace && text_eq p.external_id external_id) in
    not (count_where wanted ps == 0) && leb now (o.observed_at + age)

module _ (pg : Postgres) where
  open pg use {interval_of}

  -- The query fails if the driver cannot encode the days, which stand as an int for a text.
  unfoldable pub history : Link → ℕ → Text → Text → ℤ → Sql (List PricePoint)
  unfolding over clamp_days in_history price_point
  history link now marketplace external_id days = elim (interval_of (clamp_days days)) [
    | none ↦ λ db. (err db_error, db)
    | some age ↦ over link λ db.
        let rows =
          select_where (in_history db.products marketplace external_id now age) db.observations in
        (
          ok (
              map price_point
                (insertion_sort (λ (a b : ObservationRow). leb a.observed_at b.observed_at) rows)),
          db,
        )
  ]
