-- ===== src/Orchestrator/Catalog.antt =====
-- packages/orchestrator/src/capability-catalog.ts: `CapabilityCatalog`. The state of the class is
-- its map of entries.
use donnav.Common.{String, List, [], ◌∷◌, Option, none, some, get_or, string_eq}
use donnav.Common.Dict.{Dict, get, put}
use donnav.Domain.Tasks.{ExecutionClass}
use donnav.Adapter.Contracts.{CapabilityAdapter, HealthStatus, healthy}
use donnav.Routing.Registry.{RegisteredCapability, CapabilityRegistry, Serves}
use donnav.Routing.Registry as Registry

pub record CatalogEntry (W X I O : Type 0) : Type 0 where
  pub adapter : CapabilityAdapter W X I O
  pub execution_class : ExecutionClass
  pub provides : List String
  pub health : HealthStatus

pub record RegisterOptions : Type 0 where
  pub provides : Option (List String)
  pub health : Option HealthStatus

abbrev pub CapabilityCatalog : Type 0 → Type 0 → Type 0 → Type 0 → Type 0
CapabilityCatalog W X I O = Dict String (CatalogEntry W X I O)

module _ {W X I O : Type 0} where
  unfoldable pub register :
      CapabilityAdapter W X I O
      → ExecutionClass
      → RegisterOptions
      → CapabilityCatalog W X I O
      → CapabilityCatalog W X I O
  register adapter execution_class options entries =
      put adapter.id
        (record {
          adapter = adapter;
          execution_class = execution_class;
          provides = get_or options.provides adapter.spec.capabilities;
          health = get_or options.health healthy;
        })
        entries

  -- `this.entries.get(id)?.adapter`
  abbrev adapter_of : Option (CatalogEntry W X I O) → Option (CapabilityAdapter W X I O)
  adapter_of none = none
  adapter_of (some entry) = some entry.adapter

  unfoldable pub resolve : CapabilityCatalog W X I O → String → Option (CapabilityAdapter W X I O)
  resolve entries id = adapter_of (get id entries)

  abbrev pub capability_of : String → CatalogEntry W X I O → RegisteredCapability
  capability_of id entry = record {
    id = id;
    execution_class = entry.execution_class;
    provides = entry.provides;
    health = entry.health;
  }

  -- The loop of `toWorkRegistry`.
  unfoldable pub register_all : CapabilityRegistry → CapabilityCatalog W X I O → CapabilityRegistry
  register_all registry [] = registry
  register_all registry ((id, entry) ∷ entries) =
      register_all (Registry.register (capability_of id entry) registry) entries

  unfoldable pub to_work_registry : CapabilityCatalog W X I O → CapabilityRegistry
  unfolding register_all
  to_work_registry entries = register_all [] entries
