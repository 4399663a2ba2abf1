-- ===== src/Examples/Data.antt =====
-- A server's choices, and sample rows, for the runs.
use web_scraper.Base.{
  sym, subst, ltb→lt, ℕ, suc, ◌≤◌, ◌≡◌, refl, ◌≢◌, inl, inr, max, true, false, Option, none, some,
  List, [], ◌∷◌, Text, codes, arith, ltb, if◌then◌else◌, All, Among, Bool-cases,
}
use web_scraper.Base.Int.{pos}
use web_scraper.Model.{running, Listing, queued, Job}
use web_scraper.Store.Jobs.{set_running, set_complete}
use web_scraper.Store.Db.{KeyRow, JobRow, ProductRow, ObservationRow, Db, Postgres}

abbrev pub show_id : ℕ → Text
show_id u = u ∷ []

abbrev parse_id : Text → Option ℕ
parse_id [] = none
parse_id (u ∷ []) = some u
parse_id (u ∷ v ∷ s) = none

unfoldable pub max_id : List ProductRow → ℕ
max_id [] = 0
max_id (p ∷ ps) = max p.id (max_id ps)

pub below_next :
    (ps : List ProductRow) (n : ℕ) → max_id ps ≤ n → All (λ p. ProductRow.id p ≢ suc n) ps
unfolding max_id
below_next [] n h = tt
below_next (p ∷ ps) n h = (λ e. omega (arith, e), below_next ps n (omega arith))

-- the latest of an observation and those that follow it
unfoldable pub best : ObservationRow → List ObservationRow → ObservationRow
best x [] = x
best x (y ∷ os) =
    let next = best y os in
    let rest = best x os in if ltb x.observed_at y.observed_at then next else rest

abbrev latest : List ObservationRow → Option ObservationRow
latest [] = none
latest (x ∷ os) = some (best x os)

abbrev IsBound : ObservationRow → List ObservationRow → Type 0
IsBound o os = All (λ x. ObservationRow.observed_at x ≤ ObservationRow.observed_at o) os

best_next :
    (x y : ObservationRow) (os : List ObservationRow)
    → ltb x.observed_at y.observed_at ≡ true
    → best x (y ∷ os) ≡ best y os
unfolding best
best_next x y os h = rw h refl

best_skip :
    (x y : ObservationRow) (os : List ObservationRow)
    → ltb x.observed_at y.observed_at ≡ false
    → best x (y ∷ os) ≡ best x os
unfolding best
best_skip x y os h = rw h refl

not_lt : (a b : ℕ) → ltb a b ≡ false → b ≤ a
not_lt a b h = ground arith

best-IsBound : (x : ObservationRow) (os : List ObservationRow) → IsBound (best x os) (x ∷ os)
best-IsBound x [] = unfold best in (omega arith, tt)
best-IsBound x (y ∷ os) = elim (Bool-cases (ltb x.observed_at y.observed_at)) [
  | inl e ↦
      let (h, k) = best-IsBound y os in
      subst (λ (b : ObservationRow). IsBound b (x ∷ y ∷ os)) (sym (best_next x y os e))
        (omega (arith, h, ltb→lt x.observed_at y.observed_at e), (h, k))
  | inr e ↦
      let (h, k) = best-IsBound x os in
      subst (λ (b : ObservationRow). IsBound b (x ∷ y ∷ os)) (sym (best_skip x y os e))
        (h, (omega (arith, h, not_lt x.observed_at y.observed_at e), k))
]

best-Among : (x : ObservationRow) (os : List ObservationRow) → Among (best x os) (x ∷ os)
best-Among x [] = unfold best in inl refl
best-Among x (y ∷ os) = elim (Bool-cases (ltb x.observed_at y.observed_at)) [
  | inl e ↦
      subst (λ (b : ObservationRow). Among b (x ∷ y ∷ os)) (sym (best_next x y os e))
        (inr (best-Among y os))
  | inr e ↦
      subst (λ (b : ObservationRow). Among b (x ∷ y ∷ os)) (sym (best_skip x y os e))
        (elim (best-Among x os) [ inl h ↦ inl h | inr k ↦ inr (inr k) ])
]

unsome : {a b : ObservationRow} → some a ≡ some b → a ≡ b
unsome h = cc

pub latest-IsBound :
    (os : List ObservationRow) (o : ObservationRow) → latest os ≡ some o → IsBound o os
latest-IsBound [] o h = tt
latest-IsBound (x ∷ os) o h =
    subst (λ (b : ObservationRow). IsBound b (x ∷ os)) (unsome h) (best-IsBound x os)

pub latest-Among : (os : List ObservationRow) (o : ObservationRow) → latest os ≡ some o → Among o os
latest-Among [] o h = cc
latest-Among (x ∷ os) o h =
    subst (λ (b : ObservationRow). Among b (x ∷ os)) (unsome h) (best-Among x os)

pub latest-cons : (o : ObservationRow) (os : List ObservationRow) → latest (o ∷ os) ≢ none
latest-cons o os e = cc

abbrev pub server : Postgres
server = record {
  show_uuid = show_id;
  parse_uuid = parse_id;
  interval_of = λ days. none;
  parse-show = λ u. refl;
  nextval = λ ps. suc (max_id ps);
  nextval-fresh = λ ps. below_next ps (max_id ps) (omega arith);
  newest = latest;
  newest-latest = latest-IsBound;
  newest-among = latest-Among;
  newest-cons = latest-cons;
}

-- a hash that tells keys apart
abbrev pub hash : Text → Text
hash raw = 0 ∷ raw

abbrev pub key_row : KeyRow
key_row = record {
  id = 7;
  name = codes "shop";
  key_prefix = codes "ws_live_";
  key_hash = hash (codes "ws_live_abc");
  rate_limit_per_minute = 2;
  created_at = 100;
  last_used_at = none;
  revoked_at = none;
}

abbrev pub queued_row : JobRow
queued_row = record {
  id = 1;
  marketplace = codes "ebay";
  query = codes "esp32";
  result_limit = pos 20;
  status = queued;
  priority = 0;
  requested_by = 7;
  worker_id = none;
  result = none;
  error = none;
  created_at = 200;
  claimed_at = none;
  finished_at = none;
}

abbrev pub running_row : JobRow
running_row = set_running (codes "w1") 300 (record queued_row { id = 2 })

abbrev pub item : Listing
item = record {
  marketplace = codes "ebay";
  external_id = codes "e1";
  title = codes "board";
  url = codes "u";
  image_url = [];
  seller = codes "s";
  price_minor = some (pos 500);
  original_price_minor = none;
  ship_minor = none;
  currency = codes "USD";
  available = some true;
  rating = none;
  review_count = none;
  sold_count = none;
  sponsored = none;
}

abbrev pub done_row : JobRow
done_row = set_complete (item ∷ []) 400 (record running_row { id = 3 })

abbrev pub db : Db
db = record {
  api_keys = key_row ∷ [];
  jobs = queued_row ∷ running_row ∷ done_row ∷ [];
  products = [];
  observations = [];
  workers = [];
}

-- the job of the running row, as its worker was given it
abbrev pub held : Job
held = record {
  id = show_id 2;
  marketplace = codes "ebay";
  query = codes "esp32";
  limit = pos 20;
  status = running;
  worker_id = codes "w1";
  error = [];
  result = [];
  created_at = 200;
  finished_at = none;
}

-- the same job in the hands of a worker that has lost it
abbrev pub stale : Job
stale = record held { worker_id = codes "w2" }
