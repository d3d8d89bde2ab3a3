-- ===== src/Control/Postgres.antt =====
-- Transactions of apps/control-plane on the database: the inserts that its services make. Postgres
-- and the function `add_job` of graphile-worker are parameters: each insert may be refused, and what
-- is thrown rolls the transaction back.
use donnav.Common.{ℕ, String, [], ◌∷◌, ◌++◌, Option, none, some, Result, ok, err}
use donnav.Common.Json.{Value}
use donnav.Db.{EventRow, Database}
use donnav.Control.Mappers.{ObjectiveInsert, TaskInsert, inserted_objective, inserted_task}

pub data Insert : Type 0 where
  objective_insert : ObjectiveInsert → Insert
  task_insert : TaskInsert → Insert
  event_insert : EventRow → Insert

-- What is taken from the server: whether it refuses an insert into the tables as they stand, and
-- `add_job` with its identifier, payload and key. The row of the job that it selects may be absent.
pub record Postgres (J X : Type 0) : Type 0 where
  pub refuses : Insert → Database J → Option X
  pub add_job : String → Value → String → J → Result X (Option String × J)

module _ {J X : Type 0} (server : Postgres J X) where
  abbrev unless_refused : Option X → Database J → Result X (Database J)
  unless_refused none db = ok db
  unless_refused (some x) db = err x

  abbrev pub insert_objective : ℕ → ObjectiveInsert → Database J → Result X (Database J)
  insert_objective now insert db =
      unless_refused (server.refuses (objective_insert insert) db)
        (record db { objectives = db.objectives ++ inserted_objective now insert ∷ [] })

  abbrev pub insert_task : ℕ → TaskInsert → Database J → Result X (Database J)
  insert_task now insert db =
      unless_refused (server.refuses (task_insert insert) db)
        (record db { tasks = db.tasks ++ inserted_task now insert ∷ [] })

  abbrev pub insert_event : EventRow → Database J → Result X (Database J)
  insert_event row db =
      unless_refused (server.refuses (event_insert row) db)
        (record db { events = db.events ++ row ∷ [] })

-- `db.transaction(body)`: all that the body wrote, or nothing.
abbrev pub transaction :
    {J X A : Type 0} → Result X (A × Database J) → Database J → Result X A × Database J
transaction (ok (a, after)) before = (ok a, after)
transaction (err x) before = (err x, before)
