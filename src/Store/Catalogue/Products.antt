-- ===== src/Store/Catalogue/Products.antt =====
-- The constraints of the catalogue, whatever a job stores: one product row for each marketplace and
-- external id, and a product for each observation.
use web_scraper.Base.{
  ℕ, ◌≡◌, ◌≢◌, refl, ap, inl, inr, false, List, [], ◌∷◌, Text, arith, find_where, select_where, All,
  All-append, All-imp, All-of_Among, Among, Among-append, Among-append_right, Among-update_where,
  Among-update_where_picked, Distinct, Distinct-append_one, Distinct-update_where, Bool-cases,
  Option-cases, text_eq_iff, find_where-absent, find_where-Among,
}
use web_scraper.Model.{Listing}
use web_scraper.Store.Db.{ProductRow, ObservationRow, Postgres}
use web_scraper.Store.Catalogue.{
  same_product, refresh_product, new_product, upsert_product, new_observation, record_observation,
  is_repeat, of_product,
}
use web_scraper.Store.Complete.{Progress, store_listing}

-- the columns of UNIQUE (marketplace, external_id)
abbrev product_key : ProductRow → Text × Text
product_key p = (p.marketplace, p.external_id)

-- A product row has this id.
abbrev pub HasRow : List ProductRow → ℕ → Type 0
HasRow ps id = (p : ProductRow) × Among p ps × (p.id ≡ id)

-- The rows keep the constraints of the tables: PRIMARY KEY and UNIQUE of the products, and
-- REFERENCES of the observations.
pub record IsStocked (ps : List ProductRow) (os : List ObservationRow) : Type 0 where
  pub ids : Distinct ProductRow.id ps
  pub keys : Distinct product_key ps
  pub observed : All (λ o. HasRow ps (ObservationRow.product_id o)) os

same_product-false :
    (item : Listing) (p : ProductRow)
    → same_product item p ≡ false
    → product_key p ≢ (item.marketplace, item.external_id)
unfolding same_product
same_product-false item p h e = ground (
  arith,
  text_eq_iff p.marketplace item.marketplace,
  text_eq_iff p.external_id item.external_id,
  ap (λ (k : Text × Text). k.0) e,
  ap (λ (k : Text × Text). k.1) e,
)

module _ (pg : Postgres) where
  open pg use {nextval, nextval-fresh, newest}

  upsert_product-ids :
      (now : ℕ) (item : Listing) (ps : List ProductRow)
      → Distinct ProductRow.id ps
      → Distinct ProductRow.id (upsert_product pg now item ps).1
  unfolding upsert_product new_product refresh_product
  upsert_product-ids now item ps d = elim (Option-cases (find_where (same_product item) ps)) [
    | inl e ↦ rw (e, upsert_product) (Distinct-append_one ProductRow.id ps _ (nextval-fresh ps) d)
    | inr (r, e) ↦
        rw (e, upsert_product) (Distinct-update_where ProductRow.id _ _ ps (λ p _ _. refl) d)
  ]

  upsert_product-keys :
      (now : ℕ) (item : Listing) (ps : List ProductRow)
      → Distinct product_key ps
      → Distinct product_key (upsert_product pg now item ps).1
  unfolding upsert_product new_product refresh_product
  upsert_product-keys now item ps d = elim (Option-cases (find_where (same_product item) ps)) [
    | inl e ↦
        rw (e, upsert_product)
          (Distinct-append_one product_key ps _
            (All-of_Among _ ps
              λ p m. same_product-false item p (find_where-absent (same_product item) ps e p m))
            d)
    | inr (r, e) ↦
        rw (e, upsert_product) (Distinct-update_where product_key _ _ ps (λ p _ _. refl) d)
  ]

  -- no row loses its id
  upsert_product-HasRow :
      (now : ℕ) (item : Listing) (ps : List ProductRow) (id : ℕ)
      → HasRow ps id
      → HasRow (upsert_product pg now item ps).1 id
  unfolding upsert_product refresh_product
  upsert_product-HasRow now item ps id (p, m, q) =
      elim (Option-cases (find_where (same_product item) ps)) [
        | inl e ↦ rw (e, upsert_product) (p, Among-append ps _ p m, q)
        | inr (r, e) ↦
            rw (e, upsert_product)
              (elim (Bool-cases (same_product item p)) [
                | inl t ↦ (refresh_product now item p, Among-update_where_picked _ _ ps p t m, q)
                | inr t ↦ (p, Among-update_where _ _ ps p t m, q)
              ])
      ]

  -- the id that is returned has its row
  upsert_product-returned :
      (now : ℕ) (item : Listing) (ps : List ProductRow)
      → let (id, ps') = upsert_product pg now item ps in HasRow ps' id
  unfolding upsert_product new_product refresh_product
  upsert_product-returned now item ps = elim (Option-cases (find_where (same_product item) ps)) [
    | inl e ↦
        rw (e, upsert_product) (new_product (nextval ps) now item, Among-append_right ps _, refl)
    | inr (r, e) ↦
        rw (e, upsert_product)
          (let (m, t) = find_where-Among (same_product item) ps r e in
            (refresh_product now item r, Among-update_where_picked _ _ ps r t m, refl))
  ]

  record_observation-All :
      (P : ObservationRow → Type 0) (n : ObservationRow) (os : List ObservationRow)
      → P n
      → All P os
      → All P (record_observation pg n os)
  unfolding record_observation
  record_observation-All P n os h a =
      elim (Bool-cases (is_repeat (newest (select_where (of_product n.product_id) os)) n)) [
        | inl e ↦ rw e a
        | inr e ↦ rw e (All-append P os (n ∷ []) a (h, tt))
      ]

  -- Storing a listing keeps the constraints.
  pub store_listing-IsStocked :
      (job now : ℕ) (item : Listing) (s : Progress)
      → IsStocked s.products s.observations
      → let t = store_listing pg job now item s in IsStocked t.products t.observations
  unfolding store_listing new_observation
  store_listing-IsStocked job now item s c = record {
    ids = upsert_product-ids now item s.products c.ids;
    keys = upsert_product-keys now item s.products c.keys;
    observed =
        record_observation-All _ _ s.observations (upsert_product-returned now item s.products) (
          All-imp _ _ s.observations
            (λ o. upsert_product-HasRow now item s.products (ObservationRow.product_id o))
            c.observed);
  }
