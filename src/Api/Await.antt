-- ===== src/Api/Await.antt =====
-- internal/api/server.go: `search` from the creation of the job on: the reply at once, or the wait
-- for the job, as a script of what `select` finds. A poll comes with the tables as they are then,
-- and with how its round trip ends.
pub mod Answers
use web_scraper.Base.{
  ℕ, Bool, true, false, Option, none, some, List, [], ◌∷◌, Text, ◌==◌, if◌then◌else◌,
}
use web_scraper.Model.{SearchRequest, Job}
use web_scraper.Store.Db.{Db, Result, ok, err, Link, Postgres}
use web_scraper.Store.Jobs.{get_job, create_job}
use web_scraper.Api.Reply.{Reply, write_error, write_job_json, write_terminal_job}

-- The client is gone; a tick, with whether the client has gone by the end of its read; the
-- deadline.
pub data Event : Type 0 where
  gone : Event
  tick : Bool → Link → Db → Event
  deadline : Link → Db → Event

abbrev or_rest : Option Reply → Option Reply → Option Reply
or_rest none rest = rest
or_rest (some r) rest = some r

abbrev pub or_else_job : Job → Result Job → Job
or_else_job job (ok current) = current
or_else_job job (err _) = job

-- after the read of a tick; `rest` is what the later events bring
unfoldable pub after_tick : Bool → Bool → Result Job → Option Reply → Option Reply
after_tick compact left (err _) rest =
    if left then none else some (write_error 500 "could not read queued job")
after_tick compact left (ok current) rest = or_rest (write_terminal_job current compact) rest

-- after the read at the deadline
unfoldable pub after_deadline : Bool → Job → Option Reply
after_deadline compact current =
    or_rest (write_terminal_job current compact) (some (write_job_json 202 current compact))

module _ (pg : Postgres) where
  -- the loop; none is to write no reply
  unfoldable pub await_job : Bool → Text → Job → List Event → Option Reply
  unfolding after_tick after_deadline
  await_job compact requester job [] = none
  await_job compact requester job (gone ∷ es) = none
  await_job compact requester job (tick left link db ∷ es) =
      after_tick compact left (get_job pg link job.id requester db).0
        (await_job compact requester job es)
  await_job compact requester job (deadline link db ∷ es) =
      after_deadline compact (or_else_job job (get_job pg link job.id requester db).0)

  -- after `CreateJob`
  unfoldable pub answer : Bool → ℕ → Text → Result Job → List Event → Option Reply
  unfolding await_job
  answer compact wait_ms requester (err _) es = some (write_error 500 "could not enqueue job")
  answer compact wait_ms requester (ok job) es =
      if wait_ms == 0
      then some (write_job_json 202 job compact)
      else await_job compact requester job es

  -- the end of `search`, for a request that has passed the checks
  unfoldable pub enqueue :
      Link → ℕ → ℕ → SearchRequest → Bool → ℕ → Text → List Event → Db → Option Reply × Db
  unfolding answer
  enqueue link fresh now req compact wait_ms requester es db =
      let (r, db') = create_job pg link fresh now req requester db in
      (answer compact wait_ms requester r es, db')
