-- ===== src/Events/Bus.antt =====
-- packages/events/src/bus.ts: `InMemoryEventBus`. A handler is a value with an identity, since the
-- sets of the source compare functions by reference; calling it may throw and may change the world.
use donnav.Common.{
  ℕ, suc, ◌||◌, Bool, true, false, List, [], ◌∷◌, ◌++◌, ◌≡◌, ◌↔◌, arith, Option, none, some, get_or,
  Result, ok, err, Eq, nat_beq, nat_eq, ◌==◌, filter, not, if◌then◌else◌,
}
use donnav.Common.Dict.{Dict, get, put}
use donnav.Domain.Events.{EventType, event_index, event_beq_iff, EventEnvelope}

-- `EventSubscription`: one event type, or `'*'`.
pub data EventSubscription : Type 0 where
  only : EventType → EventSubscription
  every_event : EventSubscription

abbrev subscription_index : EventSubscription → ℕ
subscription_index every_event = 0
subscription_index (only t) = suc (event_index t)

pub subscription_beq_iff :
    (a b : EventSubscription)
    → (nat_beq (subscription_index a) (subscription_index b) ≡ true) ↔ (a ≡ b)
subscription_beq_iff every_event every_event = ground arith
subscription_beq_iff every_event (only t) = ground arith
subscription_beq_iff (only t) every_event = ground arith
subscription_beq_iff (only t) (only u) = ground (arith, event_beq_iff t u)

instance abbrev pub subscription_eq : Eq EventSubscription
subscription_eq = record {
  same = λ a b. nat_beq (subscription_index a) (subscription_index b);
  same_iff = subscription_beq_iff;
}

pub record EventHandler (W X : Type 0) : Type 0 where
  pub identity : ℕ
  pub call : EventEnvelope → W → Result X (Unit {0}) × W

-- `onError` is called with what a handler threw, and may throw itself.
pub record InMemoryEventBus (W X : Type 0) : Type 0 where
  pub handlers : Dict EventSubscription (List (EventHandler W X))
  pub on_error : Option (X → EventEnvelope → W → Result X (Unit {0}) × W)

module _ {W X : Type 0} where
  abbrev pub has : List (EventHandler W X) → ℕ → Bool
  has [] i = false
  has (h ∷ hs) i = h.identity == i || has hs i

  -- `set.add(handler)`
  abbrev pub add : EventHandler W X → List (EventHandler W X) → List (EventHandler W X)
  add h set = if has set h.identity then set else set ++ h ∷ []

  abbrev pub set_of : EventSubscription → InMemoryEventBus W X → List (EventHandler W X)
  set_of on bus = get_or (get on bus.handlers) []

  unfoldable pub subscribe :
      EventSubscription → EventHandler W X → InMemoryEventBus W X → InMemoryEventBus W X
  subscribe on handler bus = record bus {
    handlers = put on (add handler (set_of on bus)) bus.handlers;
  }

  -- The function that `subscribe` returns: `set.delete(handler)` on the set of the subscription,
  -- which stays the same object in the map.
  unfoldable pub unsubscribe : EventSubscription → ℕ → InMemoryEventBus W X → InMemoryEventBus W X
  unsubscribe on identity bus = record bus {
    handlers = put on (filter (λ h. not (h.identity == identity)) (set_of on bus)) bus.handlers;
  }

  abbrev pub matched : EventEnvelope → InMemoryEventBus W X → List (EventHandler W X)
  matched event bus = set_of (only event.type) bus ++ set_of every_event bus

  -- The `catch` of the loop.
  abbrev pub report :
      Option (X → EventEnvelope → W → Result X (Unit {0}) × W)
      → X
      → EventEnvelope
      → W
      → Result X (Unit {0}) × W
  report none error event w = (ok tt, w)
  report (some on_error) error event w = on_error error event w

  -- One round of the loop: the handler, and the report where it throws.
  unfoldable pub attempt :
      Option (X → EventEnvelope → W → Result X (Unit {0}) × W)
      → EventEnvelope
      → EventHandler W X
      → W
      → Result X (Unit {0}) × W
  attempt on_error event h w =
      let (r, w') = h.call event w in
      elim r [ ok _ ↦ (ok tt, w') | err error ↦ report on_error error event w' ]

  unfoldable pub deliver :
      Option (X → EventEnvelope → W → Result X (Unit {0}) × W)
      → EventEnvelope
      → List (EventHandler W X)
      → W
      → Result X (Unit {0}) × W
  deliver on_error event [] w = (ok tt, w)
  deliver on_error event (h ∷ hs) w =
      let (r, w') = attempt on_error event h w in
      elim r [ ok _ ↦ deliver on_error event hs w' | err error ↦ (err error, w') ]

  unfoldable pub publish : InMemoryEventBus W X → EventEnvelope → W → Result X (Unit {0}) × W
  unfolding deliver attempt
  publish bus event w = deliver bus.on_error event (matched event bus) w
