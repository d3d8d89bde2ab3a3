-- ===== src/Domain/Tasks.antt =====
-- packages/core-domain/src/task.ts: execution classes, statuses and tasks.
use donnav.Common.{
  ℕ, String, Bool, true, false, List, [], ◌∷◌, ◌≡◌, ◌↔◌, arith, Eq, nat_beq, includes, Option,
}
use donnav.Domain.Values.{AuthorityLevel}

-- `EXECUTION_CLASSES`
pub data ExecutionClass : Type 0 where
  deterministic automation human browser coding_agent local_ai cloud_ai : ExecutionClass

-- The place of a class in `EXECUTION_CLASSES`, for `===` on classes.
abbrev pub class_index : ExecutionClass → ℕ
class_index deterministic = 0
class_index automation = 1
class_index human = 2
class_index browser = 3
class_index coding_agent = 4
class_index local_ai = 5
class_index cloud_ai = 6

pub class_beq_iff :
    (a b : ExecutionClass) → (nat_beq (class_index a) (class_index b) ≡ true) ↔ (a ≡ b)
class_beq_iff a b = ground arith

instance abbrev pub class_eq : Eq ExecutionClass
class_eq = record {
  same = λ a b. nat_beq (class_index a) (class_index b);
  same_iff = class_beq_iff;
}

unfoldable pub is_ai_execution_class : ExecutionClass → Bool
is_ai_execution_class local_ai = true
is_ai_execution_class cloud_ai = true
is_ai_execution_class _ = false

-- `TASK_STATUSES`
pub data TaskStatus : Type 0 where
  pending planned assigned running blocked awaiting_approval : TaskStatus
  checking completed failed cancelled : TaskStatus

abbrev pub status_index : TaskStatus → ℕ
status_index pending = 0
status_index planned = 1
status_index assigned = 2
status_index running = 3
status_index blocked = 4
status_index awaiting_approval = 5
status_index checking = 6
status_index completed = 7
status_index failed = 8
status_index cancelled = 9

pub status_beq_iff :
    (a b : TaskStatus) → (nat_beq (status_index a) (status_index b) ≡ true) ↔ (a ≡ b)
status_beq_iff a b = ground arith

instance abbrev pub status_eq : Eq TaskStatus
status_eq = record {
  same = λ a b. nat_beq (status_index a) (status_index b);
  same_iff = status_beq_iff;
}

abbrev pub terminal_task_statuses : List TaskStatus
terminal_task_statuses = completed ∷ cancelled ∷ []

unfoldable pub is_terminal_task_status : TaskStatus → Bool
is_terminal_task_status status = includes terminal_task_statuses status

-- `Task`: identifiers and texts are strings, and the counters are JavaScript numbers that hold
-- whole numbers.
pub record Task : Type 0 where
  pub id : String
  pub objective_id : String
  pub parent_task_id : Option String
  pub goal : String
  pub definition_of_done : String
  pub status : TaskStatus
  pub execution_class : Option ExecutionClass
  pub required_authority : AuthorityLevel
  pub idempotency_key : Option String
  pub retry_count : ℕ
  pub max_retries : ℕ
