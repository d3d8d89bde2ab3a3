-- ===== src/Routing/Registry.antt =====
-- packages/work-router/src/registry.ts: the capability registry. The state of the class is its
-- list of items.
use donnav.Common.{
  String, Bool, true, false, refl, List, [], ◌∷◌, ◌++◌, ◌≡◌, ◌↔◌, ◌&&◌, arith, filter, every,
  includes, In, In-filter, All, every-includes_iff, string_eq,
}
use donnav.Domain.Tasks.{ExecutionClass}
use donnav.Adapter.Contracts.{HealthStatus, healthy}

pub record RegisteredCapability : Type 0 where
  pub id : String
  pub execution_class : ExecutionClass
  pub provides : List String
  pub health : HealthStatus

abbrev pub CapabilityRegistry : Type 0
CapabilityRegistry = List RegisteredCapability

unfoldable pub register : RegisteredCapability → CapabilityRegistry → CapabilityRegistry
register capability items = items ++ capability ∷ []

abbrev is_healthy : HealthStatus → Bool
is_healthy healthy = true
is_healthy _ = false

abbrev pub provides_all : List String → RegisteredCapability → Bool
provides_all required c = is_healthy c.health && every (includes c.provides) required

unfoldable pub healthy_providing : List String → CapabilityRegistry → List RegisteredCapability
healthy_providing required items = filter (provides_all required) items

-- A capability that is up and provides every one of what is required.
pub record Serves (required : List String) (c : RegisteredCapability) : Type 0 where
  pub up : c.health ≡ healthy
  pub all : All (λ r. In r c.provides) required

pub provides_all_iff :
    (required : List String) (c : RegisteredCapability)
    → (provides_all required c ≡ true) ↔ Serves required c
provides_all_iff required c = (
  λ h. record {
    up = ground arith;
    all = (every-includes_iff required c.provides).0 (ground arith);
  },
  λ s. rw (s.up, (every-includes_iff required c.provides).1 s.all) refl,
)

-- The query returns exactly the registered capabilities that serve the requirements.
pub healthy_providing_iff :
    (required : List String) (items : CapabilityRegistry) (c : RegisteredCapability)
    → In c (healthy_providing required items) ↔ (In c items × Serves required c)
unfolding healthy_providing
healthy_providing_iff required items c =
    ground (arith, In-filter (provides_all required) c items, provides_all_iff required c)
