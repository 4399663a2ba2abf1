-- ===== src/Store/Lifecycle/Claimed.antt =====
-- A claim that finds a row: what it returns, and the row after it.
use web_scraper.Base.{
  ℕ, ◌≡◌, ◌≢◌, refl, ap, Bool, true, some, List, Text, arith, update_where, count_where,
  count_where_unique, Among, Among-unique, Among-update_where_picked, Distinct,
  Distinct-update_where, text_eq_refl, ==-refl,
}
use web_scraper.Model.{Status, queued, running}
use web_scraper.Store.Db.{JobRow, Db, ok, up, Postgres}
use web_scraper.Store.Jobs.{claim_job, next_queued, set_running, scan_claim, owned, has_id}
use web_scraper.Store.Lifecycle.Edges.{next_queued-free}

pub owned-running : (w : Text) (now : ℕ) (r : JobRow) → owned r.id w (set_running w now r) ≡ true
unfolding owned
owned-running w now r = ground (arith, text_eq_refl w)

pub owned-id : (id : ℕ) (w : Text) (r : JobRow) → owned id w r ≡ true → r.id ≡ id
unfolding owned
owned-id id w r p = ground arith

pub has_own_id : (r : JobRow) → has_id r.id r ≡ true
unfolding has_id
has_own_id r = ==-refl r.id

pub claim_job-found :
    (pg : Postgres) (locked : ℕ → Bool) (now : ℕ) (w : Text) (db : Db) (r : JobRow)
    → next_queued locked db.jobs ≡ some r
    → claim_job pg up locked now w db ≡ (
      ok (scan_claim pg (set_running w now r)),
      record db { jobs = update_where (has_id r.id) (set_running w now) db.jobs },
    )
unfolding claim_job
claim_job-found pg locked now w db r h = rw (h, claim_job) refl

running_not_queued : (s : Status) → s ≡ running → s ≢ queued
running_not_queued s e f = cc

-- the rows after the claim
module _ (locked : ℕ → Bool) (now : ℕ) (w : Text) (rows : List JobRow) (r : JobRow)
    (d : Distinct JobRow.id rows) (next : next_queued locked rows ≡ some r) where
  abbrev after : List JobRow
  after = update_where (has_id r.id) (set_running w now) rows

  after-Distinct : Distinct JobRow.id after
  after-Distinct = Distinct-update_where JobRow.id _ (set_running w now) rows (λ x m t. refl) d

  pub claimed-Among : Among (set_running w now r) after
  claimed-Among =
      Among-update_where_picked (has_id r.id) (set_running w now) rows r (has_own_id r)
        (next_queued-free locked rows r next).0

  pub claimed_once : count_where (owned r.id w) after ≡ 1
  claimed_once =
      count_where_unique JobRow.id (owned r.id w) after (set_running w now r) after-Distinct
        claimed-Among (owned-running w now r) (owned-id r.id w)

  -- no later claim takes the job
  pub not_next : (others : ℕ → Bool) (x : JobRow) → next_queued others after ≡ some x → x.id ≢ r.id
  not_next others x h e =
      let (m, q, _) = next_queued-free others after x h in
      let same : x ≡ set_running w now r =
        Among-unique JobRow.id after x (set_running w now r) after-Distinct m claimed-Among e in
      running_not_queued x.status (ap JobRow.status same) q
