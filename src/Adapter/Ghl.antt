-- ===== src/Adapter/Ghl.antt =====
-- packages/adapters/ghl/src/ghl-adapter.ts: the operations of a CRM as requests of the HTTP
-- adapter. `encodeURIComponent` is the platform's.
use Prim.Native.String.{◌++◌ as concat}
use donnav.Common.{ℕ, String, List, [], ◌∷◌, Option, none, some, get_or, Result, ok, err}
use mathlib.Core.Option
use donnav.Common.Json.{Value, text, array, object, Values, no_items, item}
use donnav.Common.Objects.{Property, object_of}
use donnav.Orchestrator.Json.{number_value, text_items}
use donnav.Adapter.Contracts.{ErrorClass, deterministic, ExecutionContext, CapabilityAdapter}
use donnav.Adapter.Function.{Metered}
use donnav.Adapter.Http.{
  get_method, post_method, HttpRequest, HttpResponse, HttpError, HttpPlatform, Fetch,
  HttpCapabilityAdapter, classify_http_error, execute_http,
}

pub record CustomField : Type 0 where
  pub id : String
  pub value : String

pub record GhlContactInput : Type 0 where
  pub email : Option String
  pub phone : Option String
  pub first_name : Option String
  pub last_name : Option String
  pub name : Option String
  pub tags : Option (List String)
  pub source : Option String
  pub location_id : Option String
  pub custom_fields : Option (List CustomField)

pub data MessageType : Type 0 where
  sms email : MessageType

pub data GhlRequest : Type 0 where
  contact_upsert : GhlContactInput → GhlRequest
  contact_get : String → GhlRequest
  contact_search : Option String → Option ℕ → Option String → GhlRequest
  message_send : String → MessageType → Option String → Option String → Option String → GhlRequest

abbrev pub op_of : GhlRequest → String
op_of (contact_upsert contact) = "contact.upsert"
op_of (contact_get contact_id) = "contact.get"
op_of (contact_search query limit location_id) = "contact.search"
op_of (message_send contact_id type message subject html) = "message.send"

pub record GhlResult : Type 0 where
  pub op : String
  pub status : ℕ
  pub payload : Value

pub record GhlOptions : Type 0 where
  pub token : String
  pub location_id : Option String
  pub id : Option String
  pub provides : Option (List String)
  pub base_url : Option String
  pub api_version : Option String

-- `GhlConfigError`, and what the HTTP adapter throws.
pub data GhlError (X : Type 0) : Type 0 where
  config_error : String → GhlError X
  http_failed : HttpError X → GhlError X

abbrev field_value : CustomField → Value
field_value f = object (object_of (("id", some (text f.id)) ∷ ("value", some (text f.value)) ∷ []))

abbrev field_values : List CustomField → Values
field_values [] = no_items
field_values (f ∷ fs) = item (field_value f) (field_values fs)

-- `compact`: what is undefined is left out. The properties stand in the order of the interface.
abbrev contact_properties : GhlContactInput → List Property
contact_properties c =
    ("email", Option.map text c.email)
    ∷ ("phone", Option.map text c.phone)
    ∷ ("firstName", Option.map text c.first_name)
    ∷ ("lastName", Option.map text c.last_name)
    ∷ ("name", Option.map text c.name)
    ∷ ("tags", Option.map (λ tags. array (text_items tags)) c.tags)
    ∷ ("source", Option.map text c.source)
    ∷ ("customFields", Option.map (λ fields. array (field_values fields)) c.custom_fields)
    ∷ []

-- `given ?? default`
abbrev pub location_of : Option String → Option String → Option String
location_of (some given) default = some given
location_of none default = default

abbrev post : String → List Property → HttpRequest
post path properties = record {
  path = path;
  method = some post_method;
  query = none;
  headers = none;
  body = some (object (object_of properties));
}

abbrev pub upsert_at : Option String → GhlContactInput → Result String HttpRequest
upsert_at none contact = err "contact.upsert requires a locationId"
upsert_at (some location_id) contact =
    ok (
      post "/contacts/upsert"
        (("locationId", some (text location_id)) ∷ contact_properties contact))

abbrev pub search_at : Option String → Option String → Option ℕ → Result String HttpRequest
search_at none query limit = err "contact.search requires a locationId"
search_at (some location_id) query limit = ok (
    post "/contacts/search" (
      ("locationId", some (text location_id))
      ∷ ("query", Option.map text query)
      ∷ ("pageLimit", Option.map number_value limit)
      ∷ []))

abbrev message_type_name : MessageType → String
message_type_name sms = "SMS"
message_type_name email = "Email"

unfoldable pub to_http_request :
    (String → String) → GhlRequest → Option String → Result String HttpRequest
to_http_request encode (contact_upsert contact) default =
    upsert_at (location_of contact.location_id default) contact
to_http_request encode (contact_get contact_id) default = ok (record {
  path = concat "/contacts/" (encode contact_id);
  method = some get_method;
  query = none;
  headers = none;
  body = none;
})
to_http_request encode (contact_search query limit location_id) default =
    search_at (location_of location_id default) query limit
to_http_request encode (message_send contact_id type message subject html) default = ok (
    post "/conversations/messages" (
      ("type", some (text (message_type_name type)))
      ∷ ("contactId", some (text contact_id))
      ∷ ("message", Option.map text message)
      ∷ ("subject", Option.map text subject)
      ∷ ("html", Option.map text html)
      ∷ []))

-- The HTTP adapter that the constructor makes, of the origin of the base URL.
abbrev pub ghl_http : GhlOptions → String → HttpCapabilityAdapter
ghl_http options origin = record {
  id = get_or options.id "ghl.crm";
  name = get_or options.id "ghl.crm";
  version = "1";
  provides = get_or options.provides ("crm" ∷ "ghl" ∷ []);
  base_url = get_or options.base_url "https://services.leadconnectorhq.com";
  base_origin = origin;
  default_headers =
      ("authorization", concat "Bearer " options.token)
      ∷ ("version", get_or options.api_version "2021-07-28")
      ∷ ("accept", "application/json")
      ∷ [];
  estimate_usd = 0;
}

unfoldable pub classify_ghl_error : {X : Type 0} → GhlError X → ErrorClass
classify_ghl_error (config_error message) = deterministic
classify_ghl_error (http_failed e) = classify_http_error e

abbrev pub GhlCall : Type 0 → Type 0 → Type 0
GhlCall W X = Result (GhlError X) GhlResult × Metered W

abbrev pub replied :
    {W X : Type 0} → GhlRequest → Result (HttpError X) HttpResponse × Metered W → GhlCall W X
replied input (ok response, s) =
    (ok (record { op = op_of input; status = response.status; payload = response.body }), s)
replied input (err e, s) = (err (http_failed e), s)

module _ {W X U : Type 0} (platform : HttpPlatform W X U) (encode : String → String)
    (options : GhlOptions) (origin : String) (fetch : Fetch W X) where
  abbrev pub sent :
      GhlRequest → Result String HttpRequest → ExecutionContext → Metered W → GhlCall W X
  sent input (err message) context s = (err (config_error message), s)
  sent input (ok request) context s =
      replied input (execute_http platform (ghl_http options origin) fetch request context s)

  unfoldable pub execute_ghl : GhlRequest → ExecutionContext → Metered W → GhlCall W X
  execute_ghl input context s =
      sent input (to_http_request encode input options.location_id) context s

  -- `GhlCapabilityAdapter`
  abbrev pub ghl_adapter : CapabilityAdapter (Metered W) (GhlError X) GhlRequest GhlResult
  ghl_adapter = record {
    id = (ghl_http options origin).id;
    spec = record {
      id = (ghl_http options origin).id;
      name = "GoHighLevel CRM";
      version = "1";
      capabilities = (ghl_http options origin).provides;
    };
    estimate = λ input context s. (ok (record { cost_usd = 0; latency_ms = 0 }), s);
    execute = execute_ghl;
    report_usage = λ s. s.last_usage;
    classify_error = classify_ghl_error;
  }
