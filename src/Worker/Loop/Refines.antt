-- ===== src/Worker/Loop/Refines.antt =====
-- What a worker slot does to the tables is a sequence of calls of the store.
use web_scraper.Base.{
  ℕ, zero, suc, ◌≡◌, refl, sym, ap, ◌∙◌, inl, inr, Bool, true, false, List, [], ◌∷◌, ◌++◌, Text,
  Bool-cases, All,
}
use web_scraper.Model.{Job}
use web_scraper.Store.Db.{StoreError, Result, ok, err, Db, Link, Postgres}
use web_scraper.Store.Jobs.{claim_job}
use web_scraper.Store.Lifecycle.{Op, claim, finish, fail, step, run}
use web_scraper.Worker.{
  Attempt, Scrape, listings, scrape_failed, Outcome, done, scrape_error, store_error, Next, go_on,
  stop, is_claim_lost, is_last, end_scrape, end_attempt, attempts, fail_with, settle, process_job,
}
use web_scraper.Worker.Loop.{Turn, after_job, with_claim, worker_loop}

module _ (pg : Postgres) (hash : Text → Text) where
  -- The tables come about by calls of the store.
  abbrev pub IsRun : Db → Db → Type 0
  IsRun db db' = (ops : List Op) × (db' ≡ run pg hash ops db)

  run-append :
      (xs ys : List Op) (db : Db) → run pg hash (xs ++ ys) db ≡ run pg hash ys (run pg hash xs db)
  unfolding run
  run-append [] ys db = refl
  run-append (op ∷ xs) ys db = run-append xs ys (step pg hash op db)

  pub IsRun-refl : (db : Db) → IsRun db db
  unfolding run
  IsRun-refl db = ([], refl)

  pub IsRun-trans : (a b c : Db) → IsRun a b → IsRun b c → IsRun a c
  IsRun-trans a b c (xs, e) (ys, f) =
      (xs ++ ys, f ∙ ap (run pg hash ys) e ∙ sym (run-append xs ys a))

  pub IsRun-one : (op : Op) (db : Db) → IsRun db (step pg hash op db)
  unfolding run
  IsRun-one op db = (op ∷ [], refl)

  -- What the other processes do in a round, or in a turn.
  abbrev pub IsOthers : (Db → Db) → Type 0
  IsOthers f = (db : Db) → IsRun db (f db)

  module _ (message : StoreError → Text) where
    end_scrape-IsRun :
        (a : Attempt) (s : Scrape) (job : Job) (last : Bool) (again : Db → Outcome × Db) (db : Db)
        → IsRun db (again db).1
        → IsRun db (end_scrape pg a s job last again db).1
    unfolding end_scrape
    end_scrape-IsRun a (listings l) job last again db r =
        unfold step in IsRun-one (finish a.runs a.commit a.now job l) db
    end_scrape-IsRun a (scrape_failed m) job last again db r = elim (Bool-cases a.stopping) [
      | inl e ↦ rw e (IsRun-refl db)
      | inr e ↦ rw e (elim (Bool-cases last) [ inl f ↦ rw f (IsRun-refl db) | inr f ↦ rw f r ])
    ]

    attempts-IsRun :
        (script : ℕ → Attempt) (job : Job) (left n : ℕ) (db : Db)
        → ((k : ℕ) → IsOthers (script k).others)
        → IsRun db (attempts pg script job left n db).1
    unfolding attempts end_attempt
    attempts-IsRun script job zero n db o = IsRun-refl db
    attempts-IsRun script job (suc left) n db o =
        let now = (script n).others db in
        IsRun-trans db now _ (o n db) (elim (Bool-cases (script n).signalled) [
          | inl e ↦ rw e (IsRun-refl now)
          | inr e ↦ rw e (
              end_scrape-IsRun (script n) (script n).scrape job (is_last left)
                (attempts pg script job left (suc n)) now
                (attempts-IsRun script job left (suc n) now o))
        ])

    fail_with-IsRun :
        (stopping : Bool) (link : Link) (now : ℕ) (job : Job) (w m : Text) (db : Db)
        → IsRun db (fail_with pg message stopping link now job w m db).1
    fail_with-IsRun true link now job w m db = IsRun-refl db
    fail_with-IsRun false link now job w m db =
        unfold step in IsRun-one (fail link now job.id w m) db

    settle-IsRun :
        (o : Outcome) (stopping : Bool) (link : Link) (now : ℕ) (job : Job) (w : Text) (db : Db)
        → IsRun db (settle pg message o stopping link now job w db).1
    unfolding settle
    settle-IsRun done stopping link now job w db = IsRun-refl db
    settle-IsRun (scrape_error m) stopping link now job w db =
        fail_with-IsRun stopping link now job w m db
    settle-IsRun (store_error e) stopping link now job w db = elim (Bool-cases (is_claim_lost e)) [
      | inl f ↦ rw f (IsRun-refl db)
      | inr f ↦ rw f (fail_with-IsRun stopping link now job w (message e) db)
    ]

    process_job-IsRun :
        (script : ℕ → Attempt) (max_attempts : ℕ) (stopping : Bool) (link : Link) (now : ℕ)
        (job : Job) (w : Text) (db : Db)
        → ((k : ℕ) → IsOthers (script k).others)
        → IsRun db (process_job pg message script max_attempts stopping link now job w db).1
    unfolding process_job
    process_job-IsRun script max_attempts stopping link now job w db o =
        IsRun-trans db _ _ (attempts-IsRun script job max_attempts 1 db o)
          (settle-IsRun _ stopping link now job w _)

    module _ (max_attempts : ℕ) (w : Text) where
      after_job-IsRun :
          (next : Next) (again : Db → Db) (db : Db)
          → IsRun db (again db)
          → IsRun db (after_job pg message max_attempts w next again db)
      after_job-IsRun go_on again db r = r
      after_job-IsRun stop again db r = IsRun-refl db

      with_claim-IsRun :
          (t : Turn) (r : Result Job) (again : Db → Db) (db : Db)
          → ((k : ℕ) → IsOthers (t.rounds k).others)
          → IsOthers again
          → IsRun db (with_claim pg message max_attempts w t r again db)
      with_claim-IsRun t (err e) again db o a = a db
      with_claim-IsRun t (ok job) again db o a =
          let after =
            process_job pg message t.rounds max_attempts t.stopping t.fail_link t.fail_now job w
              db in
          IsRun-trans db after.1 _
            (process_job-IsRun t.rounds max_attempts t.stopping t.fail_link t.fail_now job w db o)
            (after_job-IsRun after.0 again after.1 (a after.1))

      -- The other processes act by calls of the store, before the claim and in each round.
      abbrev IsPlayed : Turn → Type 0
      IsPlayed t = IsOthers t.others × ((k : ℕ) → IsOthers (t.rounds k).others)

      -- While the other processes change the tables by calls of the store only, so does a worker
      -- slot: whatever its turns bring, the tables that `workerLoop` leaves are those after some
      -- sequence of the store's calls. What holds after every such sequence holds after the loop.
      worker_loop-IsRun :
          (turns : List Turn)
          → All IsPlayed turns
          → (db : Db) → IsRun db (worker_loop pg message max_attempts w turns db)
      unfolding worker_loop
      worker_loop-IsRun [] o db = IsRun-refl db
      worker_loop-IsRun (t ∷ turns) ((o, rounds), os) db = elim (Bool-cases t.stopped) [
        | inl e ↦ rw e (IsRun-refl db)
        | inr e ↦
            let now = t.others db in
            let claimed = claim_job pg t.link t.locked t.now w now in
            rw e (
              IsRun-trans db now _ (o db) (
                IsRun-trans now claimed.1 _
                  (unfold step in IsRun-one (claim t.link t.locked t.now w) now)
                  (with_claim-IsRun t claimed.0 (worker_loop pg message max_attempts w turns)
                    claimed.1 rounds (worker_loop-IsRun turns os))))
      ]
