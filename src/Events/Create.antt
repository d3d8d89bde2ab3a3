-- ===== src/Events/Create.antt =====
-- packages/events/src/create-event.ts: `createEvent`. The identifiers come from `randomUUID` of
-- node:crypto and the time from `new Date()`, which are parameters over the state of the world.
use donnav.Common.{ℕ, String, Option, none, some, get_or}
use donnav.Domain.Events.{EventType, Actor, EventEnvelope}

-- What the program takes from its platform.
pub record Platform (W : Type 0) : Type 0 where
  pub random_uuid : W → String × W
  pub now : W → ℕ

pub record CreateEventInput : Type 0 where
  pub type : EventType
  pub organization_id : String
  pub actor : Actor
  pub objective_id : Option String
  pub task_id : Option String
  pub correlation_id : Option String
  pub causation_id : Option String
  pub payload_ref : Option String
  pub now : Option ℕ

module _ {W : Type 0} (platform : Platform W) where
  -- `correlationId ?? randomUUID()`
  abbrev pub correlation : Option String → W → String × W
  correlation none w = platform.random_uuid w
  correlation (some given) w = (given, w)

  -- An optional field that is undefined in the input is absent from the envelope.
  unfoldable pub create_event : CreateEventInput → W → EventEnvelope × W
  create_event input w =
      let (id, w₁) = platform.random_uuid w in
      let (correlation_id, w₂) = correlation input.correlation_id w₁ in
      (
        record {
          id = id;
          type = input.type;
          organization_id = input.organization_id;
          objective_id = input.objective_id;
          task_id = input.task_id;
          actor = input.actor;
          correlation_id = correlation_id;
          causation_id = input.causation_id;
          payload_ref = input.payload_ref;
          created_at = get_or input.now (platform.now w₂);
        },
        w₂,
      )
