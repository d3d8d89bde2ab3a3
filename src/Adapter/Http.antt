-- ===== src/Adapter/Http.antt =====
-- packages/adapters/http/src/http-adapter.ts. The class `URL`, `fetch`, JSON and the clock are taken
-- from the platform. The abort signal is not modelled: a timeout and a cancellation are throws of
-- `fetch`.
use Prim.Native.String.{◌++◌}
use donnav.Common.{
  ℕ, String, Bool, true, false, List, [], ◌∷◌, ◌-◌, ◌&&◌, ◌||◌, not, ◌==◌, string_eq, nat_eq, leb,
  Option, none, some, get_or, Result, ok, err, ◌>>=◌, if◌then◌else◌,
}
use donnav.Common.Dict.{Dict, get, put}
use donnav.Common.Json.{Value, text}
use donnav.Common.Trim.{contains}
use donnav.Adapter.Contracts.{
  AdapterUsage, ExecutionContext, ErrorClass, transient, rate_limit, unavailable, auth,
  deterministic, CapabilityAdapter,
}
use donnav.Adapter.Function.{Metered}

pub data HttpMethod : Type 0 where
  get_method post_method put_method patch_method delete_method : HttpMethod

pub record HttpRequest : Type 0 where
  pub path : String
  pub method : Option HttpMethod
  pub query : Option (Dict String String)
  pub headers : Option (Dict String String)
  pub body : Option Value

pub record HttpResponse : Type 0 where
  pub status : ℕ
  pub is_ok : Bool
  pub headers : Dict String String
  pub body : Value

pub record FetchInit : Type 0 where
  pub method : HttpMethod
  pub headers : Dict String String
  pub body : Option String

-- The text of a response may throw while it is read. The headers have their names in lower case.
pub record HttpFetchResponse (X : Type 0) : Type 0 where
  pub status : ℕ
  pub is_ok : Bool
  pub headers : Dict String String
  pub read_text : Result X String

-- `HttpInvalidTargetError`, `HttpRequestError`, and what the platform throws.
pub data HttpError (X : Type 0) : Type 0 where
  invalid_target : String → HttpError X
  request_failed : HttpResponse → HttpError X
  transport : X → HttpError X

-- The platform: `new URL(path, base)`, which may throw, the origin and the text of a URL, and
-- `searchParams.set`, which keeps the origin; JSON; and the clock.
pub record HttpPlatform (W X U : Type 0) : Type 0 where
  pub new_url : String → String → Result X U
  pub origin : U → String
  pub set_param : String → String → U → U
  pub href : U → String
  pub stringify : Value → String
  pub parse_json : String → Option Value
  pub now : W → ℕ

abbrev pub Fetch : Type 0 → Type 0 → Type 0
Fetch W X = String → FetchInit → W → Result X (HttpFetchResponse X) × W

-- The adapter as its constructor leaves it.
pub record HttpCapabilityAdapter : Type 0 where
  pub id : String
  pub name : String
  pub version : String
  pub provides : List String
  pub base_url : String
  pub base_origin : String
  pub default_headers : Dict String String
  pub estimate_usd : ℕ

abbrev is_get : HttpMethod → Bool
is_get get_method = true
is_get _ = false

-- `{ ...defaults, ...given }`
unfoldable pub merge : Dict String String → Dict String String → Dict String String
merge defaults [] = defaults
merge defaults ((k, v) ∷ given) = merge (put k v defaults) given

-- `headers['content-type'] ??= 'application/json'`
abbrev pub default_type : Option String → Dict String String → Dict String String
default_type none headers = put "content-type" "application/json" headers
default_type (some given) headers = headers

abbrev pub keyed : Option String → Dict String String → Dict String String
keyed none headers = headers
keyed (some key) headers = put "idempotency-key" key headers

unfoldable pub classify_http_error : {X : Type 0} → HttpError X → ErrorClass
classify_http_error (invalid_target message) = deterministic
classify_http_error (request_failed response) =
    if response.status == 429
    then rate_limit
    else if (response.status == 401) || (response.status == 403)
    then auth
    else if leb 500 response.status
    then unavailable
    else if response.status == 408
    then transient
    else deterministic
classify_http_error (transport x) = transient

module _ {W X U : Type 0} (platform : HttpPlatform W X U) (adapter : HttpCapabilityAdapter) where
  -- The body and the headers after it was chosen: a text is sent as it is, other values as JSON.
  abbrev pub body_of : Bool → Option Value → Dict String String → Option String × Dict String String
  body_of true body headers = (none, headers)
  body_of false none headers = (none, headers)
  body_of false (some (text s)) headers = (some s, headers)
  body_of false (some value) headers =
      (some (platform.stringify value), default_type (get "content-type" headers) headers)

  abbrev pub init_of : HttpRequest → ExecutionContext → FetchInit
  init_of input context =
      let method = get_or input.method get_method in
      let merged = merge adapter.default_headers (get_or input.headers []) in
      let (body, headers) = body_of (is_get method) input.body merged in
      record { method = method; headers = keyed context.idempotency_key headers; body = body }

  unfoldable pub set_params : Dict String String → U → U
  set_params [] url = url
  set_params ((k, v) ∷ query) url = set_params query (platform.set_param k v url)

  abbrev pub checked_url : HttpRequest → Result X U → Result (HttpError X) String
  checked_url input (err x) = err (transport x)
  checked_url input (ok target) =
      if not (platform.origin target == adapter.base_origin)
      then err (
          invalid_target
            ("request path \"" ++ input.path ++ "\" escapes the adapter's base origin"))
      else ok (platform.href (set_params (get_or input.query []) target))

  -- `resolveUrl`
  unfoldable pub resolve_url : HttpRequest → Result (HttpError X) String
  resolve_url input = checked_url input (platform.new_url input.path adapter.base_url)

  abbrev is_json : Dict String String → Bool
  is_json headers =
      let content_type = get_or (get "content-type" headers) "" in
      contains content_type "application/json" || contains content_type "+json"

  abbrev pub parsed_body : Dict String String → String → Value
  parsed_body headers s =
      if is_json headers && not (s == "") then get_or (platform.parse_json s) (text s) else text s

  -- `toResponse`
  abbrev pub to_response : HttpFetchResponse X → Result X HttpResponse
  to_response raw = raw.read_text >>= λ s. ok (record {
    status = raw.status;
    is_ok = raw.is_ok;
    headers = raw.headers;
    body = parsed_body raw.headers s;
  })

  abbrev pub HttpCall : Type 0
  HttpCall = Result (HttpError X) HttpResponse × Metered W

  abbrev with_response : ℕ → Result X HttpResponse → W → Option AdapterUsage → HttpCall
  with_response started_at (err x) w last =
      (err (transport x), record { world = w; last_usage = last })
  with_response started_at (ok response) w last = (
    if not response.is_ok then err (request_failed response) else ok response,
    record {
      world = w;
      last_usage =
          some
            (record { cost_usd = adapter.estimate_usd; latency_ms = platform.now w - started_at });
    },
  )

  abbrev pub fetched : ℕ → Result X (HttpFetchResponse X) × W → Option AdapterUsage → HttpCall
  fetched started_at (err x, w) last = (err (transport x), record { world = w; last_usage = last })
  fetched started_at (ok raw, w) last = with_response started_at (to_response raw) w last

  abbrev pub execute_at :
      Fetch W X
      → Result (HttpError X) String
      → HttpRequest
      → ExecutionContext
      → Metered W
      → HttpCall
  execute_at fetch (err e) input context s = (err e, s)
  execute_at fetch (ok url) input context s =
      fetched (platform.now s.world) (fetch url (init_of input context) s.world) s.last_usage

  unfoldable pub execute_http : Fetch W X → HttpRequest → ExecutionContext → Metered W → HttpCall
  execute_http fetch input context s = execute_at fetch (resolve_url input) input context s

  -- As the orchestrator sees it.
  abbrev pub http_adapter :
      Fetch W X → CapabilityAdapter (Metered W) (HttpError X) HttpRequest HttpResponse
  http_adapter fetch = record {
    id = adapter.id;
    spec = record {
      id = adapter.id;
      name = adapter.name;
      version = adapter.version;
      capabilities = adapter.provides;
    };
    estimate =
        λ input context s. (ok (record { cost_usd = adapter.estimate_usd; latency_ms = 0 }), s);
    execute = execute_http fetch;
    report_usage = λ s. s.last_usage;
    classify_error = classify_http_error;
  }
