-- ===== src/Scenarios/Requests.antt =====
-- Requests of the HTTP adapter on a platform whose URLs are written by their origin
-- (packages/adapters/http), and operations
-- of the CRM adapter on it (packages/adapters/ghl).
use donnav.Common.{
  if◌then◌else◌, ◌==◌, string_eq, arith, eq_iff, ℕ, String, [], ◌∷◌, ◌≡◌, refl, some, none, ok, err,
}
use donnav.Adapter.Contracts.{ExecutionContext}
use donnav.Adapter.Function.{Metered}
use donnav.Adapter.Http.{
  HttpRequest, HttpPlatform, Fetch, FetchInit, HttpCapabilityAdapter, execute_http,
}
use donnav.Adapter.Ghl.{GhlRequest, contact_get, GhlOptions, execute_ghl}
use donnav.Adapter.GhlLaws.{Intended, execute_ghl-Intended}
use donnav.Adapter.HttpLaws.{Permitted, execute_http-confined}

abbrev Url : Type 0
Url = String × String

abbrev platform : HttpPlatform ℕ String Url
platform = record {
  new_url = λ path base. ok (base, path);
  origin = λ u. u.0;
  set_param = λ k v u. u;
  href = λ u. u.0;
  stringify = λ v. "{}";
  parse_json = λ s. none;
  now = λ w. w;
}

origin_kept :
    (k v : String) (u : Url) → platform.origin (platform.set_param k v u) ≡ platform.origin u
origin_kept k v u = refl

abbrev adapter : HttpCapabilityAdapter
adapter = record {
  id = "crm";
  name = "crm";
  version = "1";
  provides = "crm.sync" ∷ [];
  base_url = "https://crm.test";
  base_origin = "https://crm.test";
  default_headers = [];
  estimate_usd = 0;
}

abbrev request : HttpRequest
request = record { path = "/contacts"; method = none; query = none; headers = none; body = none }

abbrev context : ExecutionContext
context = record { idempotency_key = some "t1"; correlation_id = none }

abbrev quiet : Metered ℕ
quiet = record { world = 0; last_usage = none }

-- A network that is down.
abbrev fetch : Fetch ℕ String
fetch url init w = (err "down", w)

-- A network that answers elsewhere only.
abbrev elsewhere : Fetch ℕ String
elsewhere url init w = if url == "https://crm.test" then (err "down", w) else (err "leaked", w)

alike :
    (url : String) (init : FetchInit) (w : ℕ)
    → Permitted platform adapter origin_kept context url init
    → fetch url init w ≡ elsewhere url init w
alike url init w ((u, written, own), keyed) = ground (arith, eq_iff url "https://crm.test")

execute_http-confined_example :
    execute_http platform adapter fetch request context quiet
    ≡ execute_http platform adapter elsewhere request context quiet
execute_http-confined_example =
    execute_http-confined platform adapter origin_kept fetch elsewhere request context quiet alike

abbrev encode : String → String
encode s = s

abbrev ghl_account : GhlOptions
ghl_account = record {
  token = "pit-1";
  location_id = some "loc-1";
  id = none;
  provides = none;
  base_url = some "https://crm.test";
  api_version = none;
}

-- The contact of an attacker's choice.
abbrev get_contact : GhlRequest
get_contact = contact_get "../../elsewhere"

ghl_alike :
    (url : String) (init : FetchInit) (w : ℕ)
    → Intended platform encode ghl_account "https://crm.test" get_contact url init
    → fetch url init w ≡ elsewhere url init w
ghl_alike url init w (path, method, u, at, placed, own, written, by, bears) =
    ground (arith, own, written, eq_iff url "https://crm.test")

execute_ghl-Intended_example :
    execute_ghl platform encode ghl_account "https://crm.test" fetch get_contact context quiet
    ≡ execute_ghl platform encode ghl_account "https://crm.test" elsewhere get_contact context quiet
execute_ghl-Intended_example =
    execute_ghl-Intended platform encode ghl_account "https://crm.test" fetch elsewhere get_contact
      context quiet ghl_alike
