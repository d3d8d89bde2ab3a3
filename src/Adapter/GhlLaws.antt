-- ===== src/Adapter/GhlLaws.antt =====
-- The requests that the operations of packages/adapters/ghl/src/ghl-adapter.ts come to.
use Prim.Native.String.{◌++◌ as concat}
use donnav.Common.{
  Bool, true, false, ◌==◌, ℕ, String, [], ◌≡◌, refl, sym, ap, subst, ◌∙◌, arith, eq_iff, string_eq,
  Option, none, some, get_or, Result, ok, err,
}
use donnav.Common.Dict.{get, put, get-put, Dict}
use donnav.Common.Json.{Value, text}
use donnav.Adapter.Contracts.{ExecutionContext}
use donnav.Adapter.Function.{Metered}
use donnav.Adapter.Http.{
  HttpCapabilityAdapter, HttpMethod, get_method, post_method, HttpRequest, HttpError, HttpPlatform,
  Fetch, FetchInit, keyed, default_type, body_of, init_of, merge, set_params, checked_url,
  resolve_url, fetched, execute_at, execute_http,
}
use donnav.Adapter.Ghl.{
  GhlRequest, contact_upsert, contact_get, contact_search, message_send, GhlOptions,
  GhlContactInput, upsert_at, search_at, location_of, to_http_request, ghl_http, replied, sent,
  execute_ghl,
}

-- Where the API has an operation: a contact by its encoded identifier, and a location for what
-- stands at one, given with the operation or with the adapter.
abbrev pub Endpoint : (String → String) → GhlRequest → Option String → String → HttpMethod → Type 0
Endpoint encode (contact_upsert contact) default path method =
    (path ≡ "/contacts/upsert")
    × (method ≡ post_method)
    × (l : String) × (location_of contact.location_id default ≡ some l)
Endpoint encode (contact_get contact_id) default path method =
    (path ≡ concat "/contacts/" (encode contact_id)) × (method ≡ get_method)
Endpoint encode (contact_search query limit location_id) default path method =
    (path ≡ "/contacts/search")
    × (method ≡ post_method)
    × (l : String) × (location_of location_id default ≡ some l)
Endpoint encode (message_send contact_id type message subject html) default path method =
    (path ≡ "/conversations/messages") × (method ≡ post_method)

-- A request of a method, without a query and headers of its own.
abbrev Plain : HttpMethod → HttpRequest → Type 0
Plain method request =
    (request.method ≡ some method) × (request.query ≡ none) × (request.headers ≡ none)

abbrev Placed : (String → String) → GhlRequest → Option String → HttpRequest → Type 0
Placed encode input default request =
    (method : HttpMethod) × Endpoint encode input default request.path method × Plain method request

upsert_at-ok :
    (contact : GhlContactInput) (l : Option String) (request : HttpRequest)
    → upsert_at l contact ≡ ok request
    → (request.path ≡ "/contacts/upsert") × Plain post_method request × (k : String) × (l ≡ some k)
upsert_at-ok contact none request h = cc
upsert_at-ok contact (some l) request h = (cc, (cc, cc, cc), l, refl)

search_at-ok :
    (query : Option String) (limit : Option ℕ) (l : Option String) (request : HttpRequest)
    → search_at l query limit ≡ ok request
    → (request.path ≡ "/contacts/search") × Plain post_method request × (k : String) × (l ≡ some k)
search_at-ok query limit none request h = cc
search_at-ok query limit (some l) request h = (cc, (cc, cc, cc), l, refl)

to_http_request-Placed :
    (encode : String → String) (input : GhlRequest) (default : Option String)
    (request : HttpRequest)
    → to_http_request encode input default ≡ ok request
    → Placed encode input default request
unfolding to_http_request
to_http_request-Placed encode (contact_upsert contact) default request h =
    let (p, plain, k, l) =
      upsert_at-ok contact (location_of contact.location_id default) request h in
    (post_method, (p, refl, k, l), plain)
to_http_request-Placed encode (contact_get contact_id) default request h =
    (get_method, (cc, refl), (cc, cc, cc))
to_http_request-Placed encode (contact_search query limit location_id) default request h =
    let (p, plain, k, l) = search_at-ok query limit (location_of location_id default) request h in
    (post_method, (p, refl, k, l), plain)
to_http_request-Placed encode (message_send contact_id type message subject html) default request
      h =
    (post_method, (cc, refl), (cc, cc, cc))

put-other :
    (j k v : String) (d : Dict String String) (t : String)
    → (k == j) ≡ false
    → get j d ≡ some t
    → get j (put k v d) ≡ some t
put-other j k v d t n h = get-put k j v d ∙ rw (n) h

keyed-authorization :
    (key : Option String) (d : Dict String String) (t : String)
    → get "authorization" d ≡ some t
    → get "authorization" (keyed key d) ≡ some t
keyed-authorization none d t h = h
keyed-authorization (some key) d t h = put-other "authorization" "idempotency-key" key d t refl h

typed-authorization :
    (given : Option String) (d : Dict String String) (t : String)
    → get "authorization" d ≡ some t
    → get "authorization" (default_type given d) ≡ some t
typed-authorization none d t h =
    put-other "authorization" "content-type" "application/json" d t refl h
typed-authorization (some given) d t h = h

module _ {W X U : Type 0} (platform : HttpPlatform W X U) (encode : String → String)
    (options : GhlOptions) (origin : String) where
  body_of-authorization :
      (is_get : Bool) (body : Option Value) (d : Dict String String) (t : String)
      → get "authorization" d ≡ some t
      → get "authorization" (body_of platform (ghl_http options origin) is_get body d).1 ≡ some t
  body_of-authorization true body d t h = h
  body_of-authorization false none d t h = h
  body_of-authorization false (some (text s)) d t h = h
  body_of-authorization false (some value) d t h = typed-authorization (get "content-type" d) d t h

  -- A request for the operation: at its endpoint under the base URL, which lies at the origin of the
  -- adapter, by its method, with the token of the adapter.
  abbrev pub Intended : GhlRequest → String → FetchInit → Type 0
  Intended input url init =
      (path : String) × (method : HttpMethod) × (u : U) × Endpoint encode input options.location_id
        path method
      × (platform.new_url path (ghl_http options origin).base_url ≡ ok u)
      × (platform.origin u ≡ origin)
      × (url ≡ platform.href u)
      × (init.method ≡ method)
      × (get "authorization" init.headers ≡ some (concat "Bearer " options.token))

  abbrev http : HttpCapabilityAdapter
  http = ghl_http options origin

  -- Without a query the URL is that of the path, and it lies at the origin of the adapter.
  checked_url-bare :
      (request : HttpRequest) (r : Result X U) (url : String)
      → request.query ≡ none
      → checked_url platform http request r ≡ ok url
      → (u : U) × (r ≡ ok u) × (platform.origin u ≡ origin) × (url ≡ platform.href u)
  unfolding set_params
  checked_url-bare request (err x) url q h = ground arith
  checked_url-bare request (ok u) url q h =
      let bare : checked_url platform http (record request { query = none }) (ok u) ≡ ok url =
        subst (λ o. checked_url platform http (record request { query = o }) (ok u) ≡ ok url) q h in
      let same = eq_iff (platform.origin u) origin in (u, refl, same.0 (ground arith), ground arith)

  init_of-authorization :
      (request : HttpRequest) (context : ExecutionContext)
      → request.headers ≡ none
      → get "authorization" (init_of platform http request context).headers
        ≡ some (concat "Bearer " options.token)
  unfolding merge
  init_of-authorization request context h =
      let merged = merge http.default_headers (get_or request.headers []) in
      let own : get "authorization" merged ≡ some (concat "Bearer " options.token) =
        subst
          (λ o.
            get "authorization" (merge http.default_headers (get_or o []))
            ≡ some (concat "Bearer " options.token))
          (sym h) refl in
      keyed-authorization context.idempotency_key _ _
        (body_of-authorization _ request.body merged _ own)

  execute_at-Intended :
      (f g : Fetch W X) (input : GhlRequest) (request : HttpRequest) (context : ExecutionContext)
      (s : Metered W) (r : Result (HttpError X) String)
      → Placed encode input options.location_id request
      → checked_url platform http request (platform.new_url request.path http.base_url) ≡ r
      → ((url : String) (init : FetchInit) (w : W)
          → Intended input url init
          → f url init w ≡ g url init w)
      → execute_at platform http f r request context s
        ≡ execute_at platform http g r request context s
  execute_at-Intended f g input request context s (err e) p q h = refl
  execute_at-Intended f g input request context s (ok url) (method, at, (m, n, none_own)) q h =
      let (u, placed, own, written) =
        checked_url-bare request (platform.new_url request.path http.base_url) url n q in
      let init = init_of platform http request context in
      let by : init.method ≡ method = ap (λ o. get_or o get_method) m in
      let bears = init_of-authorization request context none_own in
      ap (λ r. fetched platform http (platform.now s.world) r s.last_usage)
        (h url init s.world (request.path, method, u, at, placed, own, written, by, bears))

  execute_http-Intended :
      (f g : Fetch W X) (input : GhlRequest) (request : HttpRequest) (context : ExecutionContext)
      (s : Metered W)
      → Placed encode input options.location_id request
      → ((url : String) (init : FetchInit) (w : W)
          → Intended input url init
          → f url init w ≡ g url init w)
      → execute_http platform http f request context s
        ≡ execute_http platform http g request context s
  unfolding execute_http resolve_url
  execute_http-Intended f g input request context s p h =
      execute_at-Intended f g input request context s _ p refl h

  sent-Intended :
      (f g : Fetch W X) (input : GhlRequest) (r : Result String HttpRequest)
      (context : ExecutionContext) (s : Metered W)
      → to_http_request encode input options.location_id ≡ r
      → ((url : String) (init : FetchInit) (w : W)
          → Intended input url init
          → f url init w ≡ g url init w)
      → sent platform encode options origin f input r context s
        ≡ sent platform encode options origin g input r context s
  sent-Intended f g input (err message) context s q h = refl
  sent-Intended f g input (ok request) context s q h = ap (replied input) (
      execute_http-Intended f g input request context s
        (to_http_request-Placed encode input options.location_id request q) h)

  -- An operation sends nothing but the request that it stands for: at its own endpoint of the API,
  -- with the identifier of a contact encoded, under the base URL and at its origin, by the method of
  -- the endpoint and with the token of the adapter, and none where it stands at a location and
  -- none is given. Two networks that answer all such requests alike cannot be told apart by it.
  pub execute_ghl-Intended :
      (f g : Fetch W X) (input : GhlRequest) (context : ExecutionContext) (s : Metered W)
      → ((url : String) (init : FetchInit) (w : W)
          → Intended input url init
          → f url init w ≡ g url init w)
      → execute_ghl platform encode options origin f input context s
        ≡ execute_ghl platform encode options origin g input context s
  unfolding execute_ghl
  execute_ghl-Intended f g input context s h =
      sent-Intended f g input (to_http_request encode input options.location_id) context s refl h
