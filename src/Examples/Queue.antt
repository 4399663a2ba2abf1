-- ===== src/Examples/Queue.antt =====
-- Runs of the queue.
use web_scraper.Base.{
  ap, text_eq, ℕ, ◌≡◌, ◌≢◌, refl, ◌⊎◌, inl, inr, false, none, some, List, [], ◌∷◌, Text, codes,
  arith, Among, Distinct, find_where, count_where, ◌==◌, if◌then◌else◌,
}
use web_scraper.Base.Int.{pos}
use web_scraper.Model.{SearchRequest, Job}
use web_scraper.Store.Db.{JobRow, up, reply_lost, ok, err, claim_lost, no_rows}
use web_scraper.Store.Jobs.{
  marketplace_check, limit_check, claim_job, refresh_job_claim, fail_job, owned, next_queued,
  set_running, scan_claim, precedes,
}
use web_scraper.Store.Complete.{complete_job}
use web_scraper.Store.Complete.Laws.{completed, complete_job_all_or_nothing}
use web_scraper.Store.Complete.Outcome.{healthy, complete_job-healthy}
use web_scraper.Store.Lifecycle.{Op, create, claim, finish, requeue, step, run}
use web_scraper.Store.Lifecycle.Edges.{Change, step-Change}
use web_scraper.Store.Lifecycle.Invariant.{IsValid, IsConsistent, run-IsValid, run-keeps_final}
use web_scraper.Store.Lifecycle.Claims.{IsFree, claim_job-first}
use web_scraper.Store.Lifecycle.Exclusion.{IsLost, lost_claim_is_reported, claim_job-excludes}
use web_scraper.Examples.Data.{
  server, show_id, hash, queued_row, running_row, done_row, item, db, held, stale,
}

complete_job_all_or_nothing_example :
    let after = (complete_job server healthy reply_lost 500 held (item ∷ []) db).1 in
    (after ≡ db)
    ⊎ ((id : ℕ) × (r : JobRow) × (server.parse_uuid held.id ≡ some id)
        × (find_where (owned id held.worker_id) db.jobs ≡ some r)
        × (after ≡ completed server id 500 held (item ∷ []) db))
complete_job_all_or_nothing_example =
    complete_job_all_or_nothing server healthy reply_lost 500 held (item ∷ []) db

complete_job-healthy_example : complete_job server healthy up 500 held (item ∷ []) db ≡ (
    if count_where (owned 2 held.worker_id) db.jobs == 1
    then (ok tt, completed server 2 500 held (item ∷ []) db)
    else (err claim_lost, db))
complete_job-healthy_example = complete_job-healthy server 500 2 held (item ∷ []) db refl refl

stale-IsLost : IsLost 2 stale.worker_id db
unfolding count_where owned text_eq
stale-IsLost = refl

lost_claim_is_reported_example :
    (refresh_job_claim server up 500 stale.id stale.worker_id db ≡ (err claim_lost, db))
    × (fail_job server up 500 stale.id stale.worker_id (codes "boom") db ≡ (err claim_lost, db))
    × (complete_job server healthy up 500 stale (item ∷ []) db ≡ (err claim_lost, db))
lost_claim_is_reported_example =
    lost_claim_is_reported server 2 500 stale (item ∷ []) (codes "boom") db refl refl stale-IsLost

first_queued : next_queued (λ _. false) db.jobs ≡ some queued_row
unfolding next_queued
first_queued = refl

db-Distinct : Distinct JobRow.id db.jobs
db-Distinct =
    ((λ e. omega (arith, e), (λ e. omega (arith, e), tt)), ((λ e. omega (arith, e), tt), (tt, tt)))

abbrev second : Text → ℕ
second [] = 0
second (a ∷ []) = 0
second (a ∷ b ∷ s) = b

claim_job-excludes_example :
    let db' = (claim_job server up (λ _. false) 500 (codes "w2") db).1 in
    (j : Job) × ((claim_job server up (λ _. false) 500 (codes "w2") db).0 ≡ ok j)
    × (j.id ≡ show_id 1)
    × (j.worker_id ≡ codes "w2")
    × (count_where (owned 1 (codes "w2")) db'.jobs ≡ 1)
    × IsLost 1 (codes "w1") db'
    × ((k : Job) → (claim_job server up (λ _. false) 600 (codes "w1") db').0 ≡ ok k → k.id ≢ j.id)
claim_job-excludes_example =
    claim_job-excludes server (λ _. false) (λ _. false) 500 600 (codes "w2") (codes "w1") db
      queued_row db-Distinct first_queued (λ e. omega (arith, ap second e))

claim_job-first_example :
    ((r : JobRow) × Among r db.jobs
      × IsFree (λ _. false) r
      × ((claim_job server up (λ _. false) 500 (codes "w2") db).0
          ≡ ok (scan_claim server (set_running (codes "w2") 500 r)))
      × ((x : JobRow) → Among x db.jobs → IsFree (λ _. false) x → precedes x r ≡ false))
    ⊎ (((claim_job server up (λ _. false) 500 (codes "w2") db).0 ≡ err no_rows)
        × ((x : JobRow) → Among x db.jobs → ¬ IsFree (λ _. false) x))
claim_job-first_example = claim_job-first server (λ _. false) 500 (codes "w2") db

abbrev request : SearchRequest
request = record {
  marketplace = codes "amazon";
  query = codes "ssd";
  limit = pos 5;
  wait_ms = none;
}

-- a new job, a claim of the first, a requeue, and a completion that comes too late
abbrev calls : List Op
calls =
    create up 9 450 request (7 ∷ [])
    ∷ claim up (λ _. false) 460 (codes "w2")
    ∷ requeue up 900 100
    ∷ finish healthy up 950 held (item ∷ [])
    ∷ []

step-Change_example :
    Change db.jobs (step server hash (claim up (λ _. false) 460 (codes "w2")) db).jobs
step-Change_example =
    step-Change server hash (claim up (λ _. false) 460 (codes "w2")) db db-Distinct

queued-IsConsistent : IsConsistent queued_row
unfolding marketplace_check limit_check text_eq
queued-IsConsistent = record {
  free = λ _. (refl, refl);
  unfinished = λ _. (refl, refl);
  held = λ n. absurd (n refl);
  stored = λ e. cc;
  explained = λ e. cc;
  marketplace_ok = refl;
  limit_ok = refl;
}

running-IsConsistent : IsConsistent running_row
unfolding marketplace_check limit_check text_eq
running-IsConsistent = record {
  free = λ e. cc;
  unfinished = λ _. (refl, refl);
  held = λ _. (refl, refl);
  stored = λ e. cc;
  explained = λ e. cc;
  marketplace_ok = refl;
  limit_ok = refl;
}

done-IsConsistent : IsConsistent done_row
unfolding marketplace_check limit_check text_eq
done-IsConsistent = record {
  free = λ e. cc;
  unfinished = λ e. elim e [ inl h ↦ cc | inr h ↦ cc ];
  held = λ _. (refl, refl);
  stored = λ _. (refl, refl, refl);
  explained = λ e. cc;
  marketplace_ok = refl;
  limit_ok = refl;
}

pub db-IsValid : IsValid db.jobs
db-IsValid = record {
  distinct = db-Distinct;
  consistent = (queued-IsConsistent, (running-IsConsistent, (done-IsConsistent, tt)));
}

run-IsValid_example : IsValid (run server hash calls db).jobs
run-IsValid_example = run-IsValid server hash calls db db-IsValid

run-keeps_final_example : Among done_row (run server hash calls db).jobs
run-keeps_final_example =
    run-keeps_final server hash calls db done_row db-IsValid (inl refl) (inr (inr (inl refl)))
