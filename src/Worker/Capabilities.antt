-- ===== src/Worker/Capabilities.antt =====
-- apps/worker/src/capabilities.ts: the capabilities that the environment of the worker configures.
-- The adapter is made of the origin of GoHighLevel's base URL.
use donnav.Common.{String, [], ◌∷◌, Option, none, some}
use donnav.Domain.Tasks.{automation}
use donnav.Adapter.Function.{Metered}
use donnav.Adapter.Http.{HttpPlatform, Fetch}
use donnav.Adapter.Ghl.{GhlRequest, GhlResult, GhlOptions, GhlError, ghl_adapter}
use donnav.Orchestrator.Catalog.{CapabilityCatalog, register}
use donnav.Worker.Models.{non_empty}

abbrev pub ghl_options : String → Option String → GhlOptions
ghl_options token location_id = record {
  token = token;
  location_id = location_id;
  id = none;
  provides = none;
  base_url = none;
  api_version = none;
}

module _ {W X U : Type 0} (platform : HttpPlatform W X U) (encode : String → String)
    (origin : String) (fetch : Fetch W X) where
  abbrev pub Catalog : Type 0
  Catalog = CapabilityCatalog (Metered W) (GhlError X) GhlRequest GhlResult

  abbrev pub with_crm : Option String → Option String → Option Catalog
  with_crm none location_id = none
  with_crm (some token) location_id = some (
      register (ghl_adapter platform encode (ghl_options token location_id) origin fetch) automation
        (record { provides = some ("crm" ∷ []); health = none }) [])

  unfoldable pub build_capability_catalog : (String → Option String) → Option Catalog
  build_capability_catalog env =
      with_crm (non_empty (env "GHL_TOKEN")) (non_empty (env "GHL_LOCATION_ID"))
