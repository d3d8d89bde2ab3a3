-- ===== src/Orchestrator/Traces.antt =====
-- The events and the ledger of an execution (packages/orchestrator/src/orchestrator.ts).
use donnav.Common.{
  ℕ, zero, suc, List, [], ◌∷◌, ◌++◌, ◌≡◌, ◌+◌, ◌≤◌, refl, sym, ap, ◌∙◌, arith, Result, ok, err, map,
  length, append_assoc_lem, append-nil_lem,
}
use Prim.Native.Nat.add
use donnav.Domain.Events.{
  EventType, approval_requested, task_planned, worker_started, tool_called, task_blocked,
  task_completed, task_failed, EventEnvelope,
}
use donnav.Domain.Tasks.{class_eq}
use donnav.Cost.Ledger.{UsageRecord, record_usage}
use donnav.Events.Create.{create_event}
use donnav.Orchestrator.Order.{
  WorkOrder, WorkOrderStatus, completed, awaiting_human, approval_required, denied, blocked,
  budget_exceeded, failed, WorkOrderResult, OrchestratorDeps, Run,
}
use donnav.Adapter.Contracts.{CapabilityAdapter, ExecutionContext}
use donnav.Orchestrator.Budgets.{Still, emit-Quiet}
use donnav.Orchestrator.Steps.{Attempt, settled, retry_next, emit}

-- The types of the events that a run holds.
abbrev pub types_of : {W : Type 0} → Run W → List EventType
types_of s = map (λ e. e.type) s.events

-- What `n` started attempts emit.
abbrev pub rounds : ℕ → List EventType
rounds zero = []
rounds (suc n) = worker_started ∷ tool_called ∷ rounds n

-- The event that closes an order with a result of the given status.
abbrev pub closing : WorkOrderStatus → EventType
closing completed = task_completed
closing failed = task_failed
closing approval_required = approval_requested
closing denied = task_blocked
closing blocked = task_blocked
closing budget_exceeded = task_blocked
closing awaiting_human = task_blocked

-- The event before the attempts: none where the policy gate stops the order.
abbrev pub opening : WorkOrderStatus → List EventType
opening denied = []
opening approval_required = []
opening _ = task_planned ∷ []

-- How many usage records a result leaves.
abbrev pub charged : WorkOrderStatus → ℕ
charged completed = 1
charged _ = 0

rounds-add : (m n : ℕ) → rounds (m + n) ≡ rounds m ++ rounds n
rounds-add zero n = rw add.zero refl
rounds-add (suc m) n = rw add.suc (ap (λ xs. worker_started ∷ tool_called ∷ xs) (rounds-add m n))

-- Something of the world outside that is read, and what a call of an adapter's `execute` does to it:
-- a count of the calls, a log with one line for each.
pub record Meter (W : Type 0) : Type 1 where
  pub Reading : Type 0
  pub read : W → Reading
  pub tick : Reading → Reading

-- `n` ticks, one after another.
abbrev pub times : {P : Type 0} → ℕ → (P → P) → P → P
times zero tick p = p
times (suc n) tick p = times n tick (tick p)

times-add :
    {P : Type 0} (m n : ℕ) (tick : P → P) (p : P)
    → times (m + n) tick p ≡ times n tick (times m tick p)
times-add zero n tick p = rw add.zero refl
times-add (suc m) n tick p = rw add.suc (times-add m n tick (tick p))

-- An adapter whose estimates leave the reading as it is, and whose executions tick once each.
abbrev pub Ticks : {W X I O : Type 0} → Meter W → CapabilityAdapter W X I O → Type 0
Ticks {W} {X} {I} meter adapter =
    (i : I) (c : ExecutionContext) (w : W)
    → (meter.read (adapter.estimate i c w).1 ≡ meter.read w)
      × (meter.read (adapter.execute i c w).1 ≡ meter.tick (meter.read w))

-- What an outcome shows of a run since `s`: a number of started attempts, and then the event that
-- closes it, with the usage records of its status; an error that is thrown closes nothing.
pub record Closes {W O : Type 0} ⦃meter : Meter W⦄ (s : Run W) (r : WorkOrderResult O) (s' : Run W)
    : Type 0 where
  pub attempts : ℕ
  pub ran : meter.read s'.world ≡ times attempts meter.tick (meter.read s.world)
  pub entries : List UsageRecord
  pub told : types_of s' ≡ types_of s ++ (rounds attempts ++ closing r.status ∷ [])
  pub billed : s'.ledger ≡ s.ledger ++ entries
  pub counted : length entries ≡ charged r.status
  pub worked : charged r.status ≤ attempts
  pub planned : opening r.status ≡ task_planned ∷ []

pub record Breaks {W : Type 0} ⦃meter : Meter W⦄ (s s' : Run W) : Type 0 where
  pub attempts : ℕ
  pub ran : meter.read s'.world ≡ times attempts meter.tick (meter.read s.world)
  pub told : types_of s' ≡ types_of s ++ rounds attempts
  pub unbilled : s'.ledger ≡ s.ledger

abbrev pub Ends :
    {W X O : Type 0} → ⦃meter : Meter W⦄ → Run W → Result X (WorkOrderResult O) → Run W → Type 0
Ends s (ok r) s' = Closes s r s'
Ends s (err x) s' = Breaks s s'

join :
    {W : Type 0} (s t u : Run W) (m n : ℕ) (last : List EventType)
    → types_of t ≡ types_of s ++ rounds m
    → types_of u ≡ types_of t ++ (rounds n ++ last)
    → types_of u ≡ types_of s ++ (rounds (m + n) ++ last)
join s t u m n last p q = rw (rounds-add m n) (
    q
    ∙ ap (λ xs. xs ++ (rounds n ++ last)) p
    ∙ append_assoc_lem (types_of s) (rounds m) (rounds n ++ last)
    ∙ ap (λ xs. types_of s ++ xs) (sym (append_assoc_lem (rounds m) (rounds n) last)))

pub Breaks-after :
    {W : Type 0} ⦃meter : Meter W⦄ (s t u : Run W) → Breaks s t → Breaks t u → Breaks s u
Breaks-after ⦃meter = meter⦄ s t u b c = record {
  attempts = b.attempts + c.attempts;
  ran =
      c.ran
      ∙ ap (times c.attempts meter.tick) b.ran
      ∙ sym (times-add b.attempts c.attempts meter.tick (meter.read s.world));
  told = rw (rounds-add b.attempts c.attempts) (
      c.told
      ∙ ap (λ xs. xs ++ rounds c.attempts) b.told
      ∙ append_assoc_lem (types_of s) (rounds b.attempts) (rounds c.attempts));
  unbilled = c.unbilled ∙ b.unbilled;
}

-- After some attempts that left no result the rest of the run counts on.
pub Ends-after :
    {W X O : Type 0} ⦃meter : Meter W⦄ (s t : Run W) (o : Result X (WorkOrderResult O)) (u : Run W)
    → Breaks s t
    → Ends t o u
    → Ends s o u
Ends-after ⦃meter = meter⦄ s t (ok r) u b c = record {
  attempts = b.attempts + c.attempts;
  ran =
      c.ran
      ∙ ap (times c.attempts meter.tick) b.ran
      ∙ sym (times-add b.attempts c.attempts meter.tick (meter.read s.world));
  entries = c.entries;
  told = join s t u b.attempts c.attempts (closing r.status ∷ []) b.told c.told;
  billed = c.billed ∙ ap (λ l. l ++ c.entries) b.unbilled;
  counted = c.counted;
  worked = omega (arith, c.worked);
  planned = c.planned;
}
Ends-after s t (err x) u b c = Breaks-after s t u b c

map-snoc :
    (es : List EventEnvelope) (e : EventEnvelope)
    → map (λ x. x.type) (es ++ e ∷ []) ≡ map (λ x. x.type) es ++ e.type ∷ []
map-snoc [] e = refl
map-snoc (x ∷ es) e = ap (◌∷◌ x.type) (map-snoc es e)

module _ {W X I O : Type 0} ⦃meter : Meter W⦄ (deps : OrchestratorDeps W X I O)
    (order : WorkOrder I) (still : Still deps order meter.read) where
  -- An emission adds an event of its type and leaves the ledger alone.
  pub emit-types :
      (t : EventType) (s : Run W) → types_of (emit deps order t s) ≡ types_of s ++ t ∷ []
  unfolding emit create_event
  emit-types t s = map-snoc s.events _

  pub emit-read :
      (t : EventType) (s : Run W) → meter.read (emit deps order t s).world ≡ meter.read s.world
  emit-read t s = (emit-Quiet deps order meter.read still t s).0

  pub emit-ledger : (t : EventType) (s : Run W) → (emit deps order t s).ledger ≡ s.ledger
  unfolding emit
  emit-ledger t s = refl

  start-types :
      (s : Run W)
      → types_of (emit deps order tool_called (emit deps order worker_started s))
        ≡ types_of s ++ rounds 1
  start-types s =
      emit-types tool_called (emit deps order worker_started s)
      ∙ ap (λ xs. xs ++ tool_called ∷ []) (emit-types worker_started s)
      ∙ append_assoc_lem (types_of s) (worker_started ∷ []) (tool_called ∷ [])

  start-read :
      (s : Run W)
      → meter.read (emit deps order tool_called (emit deps order worker_started s)).world
        ≡ meter.read s.world
  start-read s =
      emit-read tool_called (emit deps order worker_started s) ∙ emit-read worker_started s

  -- A closing event, straight after `s`, of a result that costs nothing.
  pub close :
      (s : Run W) (r : WorkOrderResult O)
      → charged r.status ≡ 0
      → opening r.status ≡ task_planned ∷ []
      → Closes s r (emit deps order (closing r.status) s)
  close s r free p = record {
    attempts = 0;
    ran = emit-read (closing r.status) s;
    entries = [];
    told = emit-types (closing r.status) s;
    billed = emit-ledger (closing r.status) s ∙ sym (append-nil_lem s.ledger);
    counted = sym free;
    worked = omega arith;
    planned = p;
  }

  -- What an attempt with one adapter shows.
  abbrev pub Tried : Run W → Attempt X O → Run W → Type 0
  Tried s (settled o) s' = Ends s o s'
  Tried s (retry_next c) s' = Breaks s s'

  -- A start that led to a completed result and its record.
  pub finish :
      (s : Run W) (w : W) (r : WorkOrderResult O) (entry : UsageRecord)
      → r.status ≡ completed
      → meter.read w
        ≡ meter.tick
            (meter.read (emit deps order tool_called (emit deps order worker_started s)).world)
      → let t = emit deps order tool_called (emit deps order worker_started s) in
        Closes s r (
          emit deps order task_completed
            (record t { world = w; ledger = record_usage entry t.ledger }))
  unfolding record_usage emit
  finish s w r entry done called =
      let t = emit deps order tool_called (emit deps order worker_started s) in
      let u : Run W = record t { world = w; ledger = record_usage entry t.ledger } in
      record {
        attempts = 1;
        ran = emit-read task_completed u ∙ called ∙ ap meter.tick (start-read s);
        entries = entry ∷ [];
        told = rw done (
            emit-types task_completed u
            ∙ ap (λ xs. xs ++ task_completed ∷ []) (start-types s)
            ∙ append_assoc_lem (types_of s) (rounds 1) (task_completed ∷ []));
        billed = emit-ledger task_completed u;
        counted = rw done refl;
        worked = rw done (omega arith);
        planned = rw done refl;
      }

  -- A start, and whatever the adapter made of the world.
  pub started :
      (s : Run W) (w : W)
      → meter.read w
        ≡ meter.tick
            (meter.read (emit deps order tool_called (emit deps order worker_started s)).world)
      → let t = emit deps order tool_called (emit deps order worker_started s) in
        Breaks s (record t { world = w })
  unfolding emit
  started s w called = record {
    attempts = 1;
    ran = called ∙ ap meter.tick (start-read s);
    told = start-types s;
    unbilled = refl;
  }

  pub moved :
      (s : Run W) (w : W) → meter.read w ≡ meter.read s.world → Breaks s (record s { world = w })
  moved s w kept = record {
    attempts = 0;
    ran = kept;
    told = sym (append-nil_lem (types_of s));
    unbilled = refl;
  }

  pub Tried-after :
      (s t : Run W) (a : Attempt X O) (u : Run W) → Breaks s t → Tried t a u → Tried s a u
  Tried-after s t (settled o) u b c = Ends-after s t o u b c
  Tried-after s t (retry_next k) u b c = Breaks-after s t u b c
