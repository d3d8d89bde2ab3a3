-- ===== src/Scenarios/Events.antt =====
-- A bus with two handlers and an outbox with three events (packages/events, packages/db).
use donnav.Common.{
  ℕ, String, false, List, [], ◌∷◌, ◌++◌, ◌≡◌, refl, arith, none, some, Result, ok, err, take,
  length, ◌==◌, string_eq, eq_iff,
}
use donnav.Domain.Events.{EventEnvelope, ActorType, task_created, task_failed}
use donnav.Events.Bus.{EventHandler, InMemoryEventBus, only, every_event, matched, publish}
use donnav.Events.BusLaws.{identities, publish-isolates}
use donnav.Events.Outbox.{InMemoryOutboxStore, unpublished, dispatch_batch}
use donnav.Events.OutboxLaws.{batches, dispatch_batch-delivers, batches-drain}
use donnav.Events.Marking.{Reliable, DistinctIds, after, drop}

abbrev event : String → EventEnvelope
event id = record {
  id = id;
  type = task_created;
  organization_id = "acme";
  objective_id = none;
  task_id = some "t1";
  actor = record { type = ActorType.orchestrator; id = "worker" };
  correlation_id = "c1";
  causation_id = none;
  payload_ref = none;
  created_at = 7;
}

-- A handler that writes its number, and one that throws after it wrote it.
abbrev writer : ℕ → EventHandler (List ℕ) String
writer n = record { identity = n; call = λ e w. (ok tt, w ++ n ∷ []) }

abbrev thrower : ℕ → EventHandler (List ℕ) String
thrower n = record { identity = n; call = λ e w. (err "broken", w ++ n ∷ []) }

abbrev bus : InMemoryEventBus (List ℕ) String
bus = record {
  handlers =
      (every_event, writer 3 ∷ [])
      ∷ (only task_created, thrower 1 ∷ writer 2 ∷ [])
      ∷ (only task_failed, writer 4 ∷ [])
      ∷ [];
  on_error = none;
}

publish-isolates_example :
    publish bus (event "e1") [] ≡ (ok tt, identities (matched (event "e1") bus))
publish-isolates_example =
    publish-isolates bus (event "e1") [] refl (λ w. refl, (λ w. refl, (λ w. refl, tt)))

-- A bus that keeps the identifiers, and one that refuses an event.
abbrev keep : EventEnvelope → List String → Result String (Unit {0}) × List String
keep e w = (ok tt, w ++ e.id ∷ [])

abbrev outbox : InMemoryOutboxStore
outbox = record { pending = event "e0" ∷ event "e1" ∷ event "e2" ∷ []; published = "e0" ∷ [] }

distinct : (i j : String) → (i == j) ≡ false → i ≡ j → ⊥
distinct i j f p = ground (arith, eq_iff i j)

outbox-DistinctIds : DistinctIds outbox.pending
outbox-DistinctIds = (
  (distinct "e1" "e0" refl, (distinct "e2" "e0" refl, tt)),
  ((distinct "e2" "e1" refl, tt), (tt, tt)),
)

keep-Reliable : Reliable keep
keep-Reliable e w = refl

dispatch_batch-delivers_example :
    let batch = take 1 (unpublished outbox) in
    let (result, s', w') = dispatch_batch keep 1 outbox [] in
    (result ≡ ok (length batch))
    × (w' ≡ after keep batch [])
    × (unpublished s' ≡ drop 1 (unpublished outbox))
dispatch_batch-delivers_example =
    dispatch_batch-delivers keep 1 outbox [] keep-Reliable outbox-DistinctIds

batches-drain_example :
    (unpublished (batches keep 2 1 outbox []).0 ≡ [])
    × ((batches keep 2 1 outbox []).1 ≡ after keep (unpublished outbox) [])
batches-drain_example =
    batches-drain keep 2 1 outbox [] keep-Reliable outbox-DistinctIds (omega arith) (omega arith)
