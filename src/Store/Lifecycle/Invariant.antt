-- ===== src/Store/Lifecycle/Invariant.antt =====
-- What holds of the jobs after any interleaving of calls, and what never changes again.
use web_scraper.Base.{
  ℕ, ◌≡◌, ◌≢◌, ◌⊎◌, inl, inr, Bool, true, false, Option, none, some, List, [], ◌∷◌, Text, arith,
  count_where, All, All-append, All-update_where, Among, Among-append, Among-update_where, Distinct,
  Distinct-append_one, Distinct-update_where, Bool-cases,
}
use web_scraper.Model.{SearchRequest, queued, running, complete, failed}
use web_scraper.Store.Db.{JobRow, Db, Postgres}
use web_scraper.Store.Jobs.{has_id, new_row, limit_check, marketplace_check}
use web_scraper.Store.Lifecycle.{Op, step, run}
use web_scraper.Store.Lifecycle.Edges.{
  Edge, claimed, renewed, finished, given_up, requeued, Change, same, inserted, moved, step-Change,
}

abbrev is_some : {A : Type 0} → Option A → Bool
is_some none = false
is_some (some _) = true

-- A queued job has no worker; a running one has a worker and a claim time, and a finished one its
-- result or its error, its worker and its finishing time. The columns with a CHECK pass it.
pub record IsConsistent (r : JobRow) : Type 0 where
  pub free : r.status ≡ queued → (r.worker_id ≡ none) × (r.claimed_at ≡ none)
  pub unfinished :
      (r.status ≡ queued) ⊎ (r.status ≡ running) → (r.finished_at ≡ none) × (r.result ≡ none)
  pub held : r.status ≢ queued → (is_some r.worker_id ≡ true) × (is_some r.claimed_at ≡ true)
  pub stored :
      r.status ≡ complete
      → (is_some r.result ≡ true) × (is_some r.finished_at ≡ true) × (r.error ≡ none)
  pub explained :
      r.status ≡ failed
      → (is_some r.error ≡ true) × (is_some r.finished_at ≡ true) × (r.result ≡ none)
  pub marketplace_ok : marketplace_check r.marketplace ≡ true
  pub limit_ok : limit_check r.result_limit ≡ true

pub record IsValid (rows : List JobRow) : Type 0 where
  pub distinct : Distinct JobRow.id rows
  pub consistent : All IsConsistent rows

Edge-IsConsistent : {r s : JobRow} → Edge r s → IsConsistent r → IsConsistent s
Edge-IsConsistent (claimed w now q e) h = ground arith
Edge-IsConsistent (renewed now q e) h = ground arith
Edge-IsConsistent (finished l now q e) h = ground arith
Edge-IsConsistent (given_up m now q e) h = ground arith
Edge-IsConsistent (requeued q e) h = ground arith

-- An edge keeps the columns that are set at the INSERT.
id-Edge : {r s : JobRow} → Edge r s → s.id ≡ r.id
id-Edge (claimed w now q e) = ground arith
id-Edge (renewed now q e) = ground arith
id-Edge (finished l now q e) = ground arith
id-Edge (given_up m now q e) = ground arith
id-Edge (requeued q e) = ground arith

new_row-IsConsistent :
    (id now key : ℕ) (req : SearchRequest)
    → marketplace_check req.marketplace ≡ true
    → limit_check req.limit ≡ true
    → IsConsistent (new_row id now req key)
unfolding new_row
new_row-IsConsistent id now key req m l = ground arith

ids_ne :
    (id : ℕ) (rows : List JobRow)
    → count_where (has_id id) rows ≡ 0
    → All (λ y. JobRow.id y ≢ id) rows
unfolding count_where has_id
ids_ne id [] h = tt
ids_ne id (r ∷ rows) h = (λ e. ground arith, ids_ne id rows (ground arith))

Change-IsValid : {rows rows' : List JobRow} → Change rows rows' → IsValid rows → IsValid rows'
Change-IsValid (same e) v = rw e v
Change-IsValid {rows} (inserted id now key req m l n e) v = rw e (record {
  distinct = Distinct-append_one JobRow.id rows _ (unfold new_row in ids_ne id rows n) v.distinct;
  consistent =
      All-append IsConsistent rows _ v.consistent (new_row-IsConsistent id now key req m l, tt);
})
Change-IsValid {rows} (moved p f edge e) v = rw e (record {
  distinct = Distinct-update_where JobRow.id p f rows (λ r m t. id-Edge (edge r m t)) v.distinct;
  consistent =
      All-update_where IsConsistent p f rows (λ r m h t. Edge-IsConsistent (edge r m t) h)
        v.consistent;
})

abbrev IsFinal : JobRow → Type 0
IsFinal r = (r.status ≡ complete) ⊎ (r.status ≡ failed)

not-Edge-IsFinal : {r s : JobRow} → Edge r s → ¬ IsFinal r
not-Edge-IsFinal (claimed w now q e) h = ground arith
not-Edge-IsFinal (renewed now q e) h = ground arith
not-Edge-IsFinal (finished l now q e) h = ground arith
not-Edge-IsFinal (given_up m now q e) h = ground arith
not-Edge-IsFinal (requeued q e) h = ground arith

Change-keeps_final :
    {rows rows' : List JobRow} (r : JobRow)
    → IsFinal r
    → Change rows rows'
    → Among r rows
    → Among r rows'
Change-keeps_final r h (same e) m = rw e m
Change-keeps_final {rows} r h (inserted id now key req c l n e) m = rw e (Among-append rows _ r m)
Change-keeps_final {rows} r h (moved p f edge e) m = rw e (
    Among-update_where p f rows r
      (elim (Bool-cases (p r)) [ inl t ↦ absurd (not-Edge-IsFinal (edge r m t) h) | inr t ↦ t ]) m)

module _ (pg : Postgres) (hash : Text → Text) where
  -- From valid jobs, any interleaving of calls by any processes, whichever round trips fail, leads
  -- to valid jobs: distinct ids, and each row with the columns that its status calls for.
  pub run-IsValid : (ops : List Op) (db : Db) → IsValid db.jobs → IsValid (run pg hash ops db).jobs
  unfolding run
  run-IsValid [] db v = v
  run-IsValid (op ∷ ops) db v =
      run-IsValid ops (step pg hash op db) (Change-IsValid (step-Change pg hash op db v.distinct) v)

  -- From valid jobs, a complete or failed job keeps its whole row, result and error included,
  -- through any interleaving of calls: no stale worker changes it any more.
  pub run-keeps_final :
      (ops : List Op) (db : Db) (r : JobRow)
      → IsValid db.jobs
      → IsFinal r
      → Among r db.jobs
      → Among r (run pg hash ops db).jobs
  unfolding run
  run-keeps_final [] db r v h m = m
  run-keeps_final (op ∷ ops) db r v h m =
      let change = step-Change pg hash op db v.distinct in
      run-keeps_final ops (step pg hash op db) r (Change-IsValid change v) h
        (Change-keeps_final r h change m)
