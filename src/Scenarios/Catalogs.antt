-- ===== src/Scenarios/Catalogs.antt =====
-- A catalog of one function (packages/orchestrator/src/capability-catalog.ts).
use donnav.Common.{ℕ, String, [], ◌∷◌, ◌≡◌, refl, inl, none, some, ok, arith, string_eq}
use donnav.Common.Sort.{sort_by}
use donnav.Domain.Tasks.{deterministic}
use donnav.Adapter.Contracts.{CapabilityAdapter, ErrorClass, healthy}
use donnav.Routing.Registry.{RegisteredCapability, register, healthy_providing}
use donnav.Routing.Work.{WorkRoutingInput, by_preference, candidate_capabilities}
use donnav.Orchestrator.Catalog.{
  CatalogEntry, RegisterOptions, CapabilityCatalog, capability_of, resolve, to_work_registry,
}
use donnav.Orchestrator.Catalog as Catalog
use donnav.Orchestrator.CatalogLaws.{IsCatalog, register-IsCatalog, candidates-resolve}

abbrev adapter : CapabilityAdapter ℕ String String String
adapter = record {
  id = "mailer";
  spec = record { id = "mailer"; name = "mailer"; version = "1"; capabilities = "send_mail" ∷ [] };
  estimate = λ i c w. (ok (record { cost_usd = 0; latency_ms = 1 }), w);
  execute = λ i c w. (ok i, w);
  report_usage = λ w. none;
  classify_error = λ x. ErrorClass.unknown;
}

abbrev defaults : RegisterOptions
defaults = record { provides = none; health = none }

abbrev catalog : CapabilityCatalog ℕ String String String
catalog = Catalog.register adapter deterministic defaults []

catalog-IsCatalog : IsCatalog catalog
catalog-IsCatalog =
    register-IsCatalog adapter deterministic defaults []
      (record { distinct = tt; keyed = λ id e h. ground arith })

abbrev mailer : RegisteredCapability
mailer = record {
  id = "mailer";
  execution_class = deterministic;
  provides = "send_mail" ∷ [];
  health = healthy;
}

abbrev work : WorkRoutingInput
work = record {
  required_capabilities = "send_mail" ∷ [];
  prefers_human = none;
  needs_reasoning = none;
}

candidates-resolve_example :
    (a : CapabilityAdapter ℕ String String String) × (resolve catalog mailer.id ≡ some a)
    × (a.id ≡ mailer.id)
unfolding candidate_capabilities sort_by healthy_providing to_work_registry Catalog.register
    register by_preference
candidates-resolve_example = candidates-resolve work catalog mailer catalog-IsCatalog (inl refl)
