-- ===== src/Store/Catalogue/Observations.antt =====
-- The observations: the change-only history with its heartbeat, and its retention.
use web_scraper.Base.{
  ℕ, ◌+◌, ◌*◌, ◌<◌, ◌≤◌, ◌≡◌, ◌≢◌, refl, sym, ap, ◌∙◌, ◌⊎◌, inl, inr, Bool, true, false, ◌&&◌,
  Option, none, some, List, [], ◌∷◌, ◌++◌, Text, arith, select_where, All-Among, Among,
  Among-select_where, Among-append_inv, Among-append_right, select_where-append, ltb, lt→ltb,
  if◌then◌else◌, Bool-cases, Option-cases, text_eq, text_eq_refl,
}
use web_scraper.Base.Int.{ℤ, int_eq, int_eq_iff}
use web_scraper.Model.{Listing, Float64}
use web_scraper.Store.Db.{ObservationRow, Postgres}
use web_scraper.Store.Catalogue.{
  hour, not_distinct, bool_eq, float_eq, same_values, is_repeat, of_product, new_observation,
  record_observation,
}

not_distinct_refl :
    {A : Type 0} (eq : A → A → Bool) (o : Option A)
    → ((a : A) → eq a a ≡ true)
    → not_distinct eq o o ≡ true
unfolding not_distinct
not_distinct_refl eq none h = refl
not_distinct_refl eq (some a) h = h a

bool_eq_refl : (b : Bool) → bool_eq b b ≡ true
unfolding bool_eq
bool_eq_refl true = refl
bool_eq_refl false = refl

float_eq_refl : (a : Float64) → float_eq a a ≡ true
unfolding float_eq
float_eq_refl a = ground arith

int_column : (o : Option ℤ) → not_distinct int_eq o o ≡ true
int_column o = not_distinct_refl int_eq o (λ a. (int_eq_iff a a).1 refl)

text_column : (o : Option Text) → not_distinct text_eq o o ≡ true
text_column o = not_distinct_refl text_eq o text_eq_refl

bool_column : (o : Option Bool) → not_distinct bool_eq o o ≡ true
bool_column o = not_distinct_refl bool_eq o bool_eq_refl

float_column : (o : Option Float64) → not_distinct float_eq o o ≡ true
float_column o = not_distinct_refl float_eq o float_eq_refl

-- Two observations of one listing have the same values.
same_values-new_observation :
    (p j j' t t' : ℕ) (item : Listing)
    → same_values (new_observation p j t item) (new_observation p j' t' item) ≡ true
unfolding same_values new_observation
same_values-new_observation p j j' t t' item =
    simp (int_column, text_column, bool_column, float_column)

of_product-eq : (id : ℕ) (x : ObservationRow) → of_product id x ≡ true → x.product_id ≡ id
unfolding of_product
of_product-eq id x h = ground arith

of_product_one :
    (id : ℕ) (n : ObservationRow)
    → n.product_id ≡ id
    → select_where (of_product id) (n ∷ []) ≡ n ∷ []
unfolding of_product select_where
of_product_one id n h = ground arith

not_distinct-eq : (a b : Option ℤ) → not_distinct int_eq a b ≡ true → a ≡ b
unfolding not_distinct
not_distinct-eq none none h = refl
not_distinct-eq (some a) (some b) h = ap some ((int_eq_iff a b).0 h)
not_distinct-eq none (some b) h = cc
not_distinct-eq (some a) none h = cc

not_soon :
    (b : Bool) (now now' : ℕ) → now + 24 * hour ≤ now' → (b && ltb now' (now + 24 * hour)) ≡ false
not_soon b now now' h = ground arith

repeats :
    (id job job' now now' : ℕ) (item : Listing)
    → now' < now + 24 * hour
    → is_repeat (some (new_observation id job now item)) (new_observation id job' now' item) ≡ true
unfolding is_repeat
repeats id job job' now now' item soon =
    rw same_values-new_observation (unfold new_observation in lt→ltb now' (now + 24 * hour) soon)

price_differs : (o n : ObservationRow) → o.price_minor ≢ n.price_minor → same_values o n ≡ false
unfolding same_values
price_differs o n h = elim (Bool-cases (not_distinct int_eq o.price_minor n.price_minor)) [
  | inl e ↦ absurd (h (not_distinct-eq o.price_minor n.price_minor e))
  | inr e ↦ rw e refl
]

not_repeats :
    (id job job' now now' : ℕ) (item item' : Listing)
    → (item.price_minor ≢ item'.price_minor) ⊎ (now + 24 * hour ≤ now')
    → is_repeat (some (new_observation id job now item)) (new_observation id job' now' item')
      ≡ false
unfolding is_repeat new_observation
not_repeats id job job' now now' item item' (inl h) =
    rw
      (price_differs (new_observation id job now item) (new_observation id job' now' item')
        (unfold new_observation in h))
      refl
not_repeats id job job' now now' item item' (inr h) =
    not_soon (same_values (new_observation id job now item) (new_observation id job' now' item'))
      now now' h

module _ (pg : Postgres) where
  open pg use {newest, newest-latest, newest-among, newest-cons}

  append-ne-nil : (xs : List ObservationRow) (n : ObservationRow) → newest (xs ++ n ∷ []) ≢ none
  append-ne-nil [] n = newest-cons n []
  append-ne-nil (x ∷ xs) n = newest-cons x (xs ++ n ∷ [])

  -- A row that is later than all others is the newest.
  newest-append_later :
      (xs : List ObservationRow) (n : ObservationRow)
      → ((x : ObservationRow) → Among x xs → x.observed_at < n.observed_at)
      → newest (xs ++ n ∷ []) ≡ some n
  newest-append_later xs n h = elim (Option-cases (newest (xs ++ n ∷ []))) [
    | inl e ↦ absurd (append-ne-nil xs n e)
    | inr (o, e) ↦
        e
        ∙ ap some (elim (Among-append_inv xs (n ∷ []) o (newest-among _ o e)) [
          | inl m ↦ absurd (
              omega (
                arith,
                h o m,
                All-Among (λ x. ObservationRow.observed_at x ≤ o.observed_at) (xs ++ n ∷ [])
                    (newest-latest _ o e) (Among-append_right xs n),
              ))
          | inr m ↦ elim m [ inl q ↦ sym q | inr z ↦ elim z [ ] ]
        ])
  ]

  -- the decision about a second observation, after one that is later than the product's others
  record_observation-after :
      (n n' : ObservationRow) (os : List ObservationRow)
      → n.product_id ≡ n'.product_id
      → ((x : ObservationRow)
          → Among x os
          → x.product_id ≡ n.product_id
          → x.observed_at < n.observed_at)
      → record_observation pg n' (os ++ n ∷ [])
        ≡ (if is_repeat (some n) n' then os ++ n ∷ [] else (os ++ n ∷ []) ++ n' ∷ [])
  unfolding record_observation
  record_observation-after n n' os same later =
      rw (select_where-append, picked)
        (rw
          (newest-append_later (select_where (of_product n'.product_id) os) n λ x m.
            let (k, t) = Among-select_where _ os x m in
            later x k (of_product-eq n'.product_id x t ∙ sym same))
          refl)
    where
      picked : select_where (of_product n'.product_id) (n ∷ []) ≡ n ∷ []
      picked = of_product_one n'.product_id n same

  -- A scrape that finds the values of a stored observation, less than 24 hours after it, adds
  -- nothing to the history, if the stored observation is later than the product's others.
  record_observation-repeat :
      (id job job' now now' : ℕ) (item : Listing) (os : List ObservationRow)
      → ((x : ObservationRow) → Among x os → x.product_id ≡ id → x.observed_at < now)
      → now' < now + 24 * hour
      → let stored = os ++ new_observation id job now item ∷ [] in
        record_observation pg (new_observation id job' now' item) stored ≡ stored
  record_observation-repeat id job job' now now' item os later soon =
      record_observation-after (new_observation id job now item) (new_observation id job' now' item)
        os (unfold new_observation in refl) (unfold new_observation in later)
      ∙ rw (repeats id job job' now now' item soon)

  -- A scrape that finds another price, or comes 24 hours or more after the stored observation, is
  -- added to the history, if the stored observation is later than the product's others.
  pub record_observation-change :
      (id job job' now now' : ℕ) (item item' : Listing) (os : List ObservationRow)
      → ((x : ObservationRow) → Among x os → x.product_id ≡ id → x.observed_at < now)
      → (item.price_minor ≢ item'.price_minor) ⊎ (now + 24 * hour ≤ now')
      → let stored = os ++ new_observation id job now item ∷ [] in
        record_observation pg (new_observation id job' now' item') stored
        ≡ stored ++ new_observation id job' now' item' ∷ []
  record_observation-change id job job' now now' item item' os later new =
      record_observation-after (new_observation id job now item)
        (new_observation id job' now' item') os (unfold new_observation in refl)
        (unfold new_observation in later)
      ∙ rw (not_repeats id job job' now now' item item' new)
