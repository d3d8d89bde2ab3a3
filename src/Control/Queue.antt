-- ===== src/Control/Queue.antt =====
-- apps/control-plane/src/services/work-queue.ts: the producer's side of the job queue.
use Prim.Native.String.{◌++◌ as concat}
use donnav.Common.{ℕ, String, List, [], ◌∷◌, ◌++◌, ◌+◌, Option, Result}
use donnav.Common.Json.{Value}
use donnav.Common.Text.{decimal}
use donnav.Orchestrator.Order.{WorkOrder}
use donnav.Orchestrator.Json.{Nested, order_value}

-- `EXECUTE_WORK_ORDER_TASK` (packages/orchestrator/src/work-order.ts)
abbrev pub execute_work_order_task : String
execute_work_order_task = "execute-work-order"

-- The part of graphile-worker that is used: a job of an identifier, with a payload and a job key.
abbrev pub JobAdder : Type 0 → Type 0 → Type 0
JobAdder Q X = String → Value → Option String → Q → Result X String × Q

-- `GraphileWorkQueue.enqueue`
unfoldable pub enqueue :
    {I Q X : Type 0} → Nested I → JobAdder Q X → WorkOrder I → Q → Result X String × Q
enqueue nested add_job order q =
    add_job execute_work_order_task (order_value nested order) order.task_id q

pub record InMemoryWorkQueue (I : Type 0) : Type 0 where
  pub enqueued : List (WorkOrder I)
  pub seq : ℕ

-- `InMemoryWorkQueue.enqueue`
unfoldable pub enqueue_in_memory :
    {I : Type 0} → WorkOrder I → InMemoryWorkQueue I → String × InMemoryWorkQueue I
enqueue_in_memory order queue = (
  concat "mem-" (decimal (queue.seq + 1)),
  record { enqueued = queue.enqueued ++ order ∷ []; seq = queue.seq + 1 },
)
