-- ===== src/Api/Await/Answers.antt =====
-- What the replies of a waiting search stand for.
use web_scraper.Base.{
  Among, sym, ◌∙◌, ◌≡◌, refl, ◌⊎◌, inl, inr, Bool, true, false, Option, none, some, List, [], ◌∷◌,
  Text, Empty,
}
use web_scraper.Model.{Job, Status, queued, running, complete, failed}
use web_scraper.Store.Db.{StoreError, Result, ok, err, Postgres}
use web_scraper.Store.Jobs.{get_job}
use web_scraper.Api.Reply.{Reply, write_error, write_job_json, write_terminal_job}
use web_scraper.Api.Await.{
  Event, gone, tick, deadline, after_tick, after_deadline, or_else_job, await_job,
}

-- the reply that a job deserves by its status: 200 for a complete one, 502 for a failed one, and
-- 202 while it is under way
unfoldable pub reply_of : Bool → Job → Reply
reply_of compact j = elim j.status [
  | queued ↦ write_job_json 202 j compact
  | running ↦ write_job_json 202 j compact
  | complete ↦ write_job_json 200 j compact
  | failed ↦ write_job_json 502 j compact
]

abbrev pub unreadable : Reply
unreadable = write_error 500 "could not read queued job"

Status-cases : (s : Status) → ((s ≡ queued) ⊎ (s ≡ running)) ⊎ ((s ≡ complete) ⊎ (s ≡ failed))
Status-cases queued = inl (inl refl)
Status-cases running = inl (inr refl)
Status-cases complete = inr (inl refl)
Status-cases failed = inr (inr refl)

terminal-cases :
    (compact : Bool) (j : Job)
    → (write_terminal_job j compact ≡ none)
      ⊎ (write_terminal_job j compact ≡ some (reply_of compact j))
unfolding write_terminal_job reply_of
terminal-cases compact j = elim (Status-cases j.status) [
  | inl (inl e) ↦ inl (rw e refl)
  | inl (inr e) ↦ inl (rw e refl)
  | inr (inl e) ↦ inr (rw e refl)
  | inr (inr e) ↦ inr (rw e refl)
]

after_deadline-reply_of :
    (compact : Bool) (j : Job) → after_deadline compact j ≡ some (reply_of compact j)
unfolding after_deadline write_terminal_job reply_of
after_deadline-reply_of compact j = elim (Status-cases j.status) [
  | inl (inl e) ↦ rw e refl
  | inl (inr e) ↦ rw e refl
  | inr (inl e) ↦ rw e refl
  | inr (inr e) ↦ rw e refl
]

unsome : {a b : Reply} → some a ≡ some b → a ≡ b
unsome h = cc

module _ (pg : Postgres) where
  -- the event brought this job: a tick read it, or the deadline did, or the deadline could not read
  -- and it is the job as it was created
  abbrev pub Brings : Text → Job → Event → Job → Type 0
  Brings requester job gone j = Empty
  Brings requester job (tick left link db) j = (get_job pg link job.id requester db).0 ≡ ok j
  Brings requester job (deadline link db) j =
      j ≡ or_else_job job (get_job pg link job.id requester db).0

  -- the event is a tick whose read fails, with the client still there
  abbrev pub Fails : Text → Job → Event → Type 0
  Fails requester job gone = Empty
  Fails requester job (tick left link db) =
      (left ≡ false) × ((x : StoreError) × ((get_job pg link job.id requester db).0 ≡ err x))
  Fails requester job (deadline link db) = Empty

  tick-cases :
      (compact left : Bool) (read : Result Job) (rest : Option Reply) (r : Reply)
      → after_tick compact left read rest ≡ some r
      → ((left ≡ false) × ((x : StoreError) × (read ≡ err x)) × (r ≡ unreadable))
        ⊎ ((j : Job) × (read ≡ ok j) × (r ≡ reply_of compact j))
        ⊎ (rest ≡ some r)
  unfolding after_tick
  tick-cases compact true (err e) rest r h = cc
  tick-cases compact false (err e) rest r h = inl (refl, (e, refl), sym (unsome h))
  tick-cases compact left (ok j) rest r h = elim (terminal-cases compact j) [
    | inl e ↦ inr (inr (rw e at h))
    | inr e ↦ inr (inl (j, refl, sym (unsome (rw e at h))))
  ]

  -- A search that waits answers with status 500 only at a tick whose read of the job fails, while
  -- the client is there. Otherwise it answers with a job that one of the events brought, and with the status that the job deserves: 200 exactly for a complete
  -- job, 502 for a failed one, 202 for one that is under way.
  pub await_job-reply_of :
      (compact : Bool) (requester : Text) (job : Job) (es : List Event) (r : Reply)
      → await_job pg compact requester job es ≡ some r
      → ((e : Event) × Among e es × Fails requester job e × (r ≡ unreadable))
        ⊎ ((e : Event) × (j : Job) × Among e es
            × Brings requester job e j
            × (r ≡ reply_of compact j))
  unfolding await_job
  await_job-reply_of compact requester job [] r h = cc
  await_job-reply_of compact requester job (gone ∷ es) r h = cc
  await_job-reply_of compact requester job (tick left link db ∷ es) r h =
      elim (tick-cases compact left (get_job pg link job.id requester db).0
        (await_job pg compact requester job es) r h) [
          | inl (stays, fails, e) ↦ inl (tick left link db, inl refl, (stays, fails), e)
          | inr (inl (j, read, e)) ↦ inr (tick left link db, j, inl refl, read, e)
          | inr (inr later) ↦ elim (await_job-reply_of compact requester job es r later) [
            | inl (ev, m, f, e) ↦ inl (ev, inr m, f, e)
            | inr (ev, j, m, b, e) ↦ inr (ev, j, inr m, b, e)
          ]
        ]
  await_job-reply_of compact requester job (deadline link db ∷ es) r h =
      let j = or_else_job job (get_job pg link job.id requester db).0 in
      inr (
        deadline link db,
        j,
        inl refl,
        refl,
        sym (unsome (sym (after_deadline-reply_of compact j) ∙ h)),
      )
