-- ===== src/Journey.antt =====
-- From the request to the committed task: the dispatch of apps/control-plane, the job queue, and the
-- handler of apps/worker.
pub mod Handover
use donnav.Common.{
  ℕ, String, Bool, List, [], ◌∷◌, ◌++◌, ◌≡◌, ◌≢◌, ◌⊎◌, inl, inr, refl, sym, ap, ◌∙◌, subst, arith,
  Option, none, some, get_or, Result, ok, err, ◌>>=◌, >>=-eq_ok, Result-cases, Option-cases, eq_iff,
}
use donnav.Common.Json.{Value}
use donnav.Domain.Events.{EventEnvelope}
use donnav.Domain.Tasks.{Task, pending}
use donnav.Policy.Types.{PrincipalContext}
use donnav.Db.{TaskRow, EventRow, Database, event_envelope_to_row}
use donnav.Events.Create.{Platform, create_event}
use donnav.Orchestrator.Order.{WorkOrder}
use donnav.Orchestrator.Json.{Nested, order_value}
use donnav.Control.Mappers.{TaskInsert, inserted_task, task_to_row, build_work_order}
use donnav.Control.Postgres.{task_insert, event_insert, Postgres, insert_task, insert_event}
use donnav.Control.Queue.{execute_work_order_task}
use donnav.Control.Dispatch.{
  DispatchInput, DispatchResult, new_task, created_event, write_dispatch, dispatch, order_of,
}

module _ {W J X I : Type 0} (platform : Platform W) (nested : Nested I) (server : Postgres J X)
    (input : DispatchInput) (principal : PrincipalContext) where
  -- The task that is made in a world, its row and its event, and the world after.
  abbrev pub made_task : W → Task
  made_task w = new_task (platform.random_uuid w).0 input

  abbrev pub made_event : W → EventEnvelope × W
  made_event w =
      create_event platform (created_event (made_task w) principal) (platform.random_uuid w).1

  abbrev made_insert : W → TaskInsert
  made_insert w =
      task_to_row (made_task w) principal.organization_id input.hints.required_capabilities

  abbrev pub made_row : W → TaskRow
  made_row w = inserted_task (platform.now (made_event w).1) (made_insert w)

  abbrev made_event_row : W → EventRow
  made_event_row w = event_envelope_to_row (made_event w).0

  abbrev with_task : Database J → W → Database J
  with_task db w = record db { tasks = db.tasks ++ made_row w ∷ [] }

  -- The tables with the row of the task and that of its event.
  abbrev pub with_rows : Database J → W → Database J
  with_rows db w = record db {
    tasks = db.tasks ++ made_row w ∷ [];
    events = db.events ++ event_envelope_to_row (made_event w).0 ∷ [];
  }

  abbrev pub order_for : W → WorkOrder I
  order_for w = order_of platform nested server (made_task w) input principal

  abbrev add_for : Database J → W → Result X (Option String × J)
  add_for db w =
      server.add_job execute_work_order_task (order_value nested (order_for w)) (made_task w).id
        db.jobs

  -- The queue has taken the job of the order, with the task as its key.
  abbrev pub Queued : Database J → W → Option String → J → Type 0
  Queued db w id jobs = add_for db w ≡ ok (id, jobs)

  -- A dispatch writes the row of the task, the event `task.created` and the job, or it throws and
  -- leaves the database as it was; in both cases the world has made the same identifiers.
  pub dispatch-all_or_nothing :
      (db : Database J) (w : W)
      → ((x : X) × (dispatch platform nested server input principal db w
            ≡ (err x, db, (made_event w).1)))
        ⊎ ((id : Option String) × (jobs : J) × Queued db w id jobs
            × (dispatch platform nested server input principal db w ≡ (
              ok (record { task = made_task w; job_id = get_or id "" }),
              record (with_rows db w) { jobs = jobs },
              (made_event w).1,
            )))
  unfolding dispatch write_dispatch
  dispatch-all_or_nothing db w =
      elim (Option-cases (server.refuses (task_insert (made_insert w)) db)) [
        | inr (x, e) ↦ inl (x, rw (e) refl)
        | inl e ↦
            elim (Option-cases
              (server.refuses (event_insert (made_event_row w)) (with_task db w))) [
                | inr (x, e') ↦ inl (x, rw (e, e') refl)
                | inl e' ↦ elim (Result-cases (add_for db w)) [
                  | inr (x, q) ↦ inl (x, rw (e, e', q) refl)
                  | inl ((id, jobs), q) ↦ inr (id, jobs, q, rw (e, e', q) refl)
                ]
              ]
      ]
