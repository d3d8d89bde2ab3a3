-- ===== src/Adapter/HttpLaws.antt =====
-- Where packages/adapters/http/src/http-adapter.ts sends requests, and which failures are retried.
use donnav.Common.{
  String, true, [], ◌∷◌, ◌≡◌, ◌↔◌, ◌⊎◌, ◌≤◌, refl, sym, ap, ◌∙◌, subst, arith, eq_iff, string_eq,
  none, some, get_or, Result, ok, err,
}
use donnav.Common.Dict.{Dict, get, get-put}
use donnav.Adapter.Contracts.{ExecutionContext}
use donnav.Adapter.Health.{is_retryable}
use donnav.Adapter.Function.{Metered}
use donnav.Adapter.Http.{
  HttpRequest, HttpError, invalid_target, request_failed, transport, HttpPlatform, Fetch, FetchInit,
  HttpCapabilityAdapter, keyed, init_of, set_params, checked_url, resolve_url, execute_at,
  execute_http, fetched, classify_http_error,
}

-- The failures that come from the transport, or whose response says that the server is at its
-- limit, timed out, or failed.
abbrev pub Passing : {X : Type 0} → HttpError X → Type 0
Passing (invalid_target message) = ⊥
Passing (request_failed r) = (r.status ≡ 429) ⊎ ((r.status ≡ 408) ⊎ (500 ≤ r.status))
Passing (transport x) = Unit

-- A failure of the HTTP adapter is one to retry exactly when it comes from the transport, or the
-- response says that the server is at its limit (429), timed out (408) or failed (500 and above).
pub classify_http_error-is_retryable_iff :
    {X : Type 0} (e : HttpError X) → (is_retryable (classify_http_error e) ≡ true) ↔ Passing e
unfolding classify_http_error is_retryable
classify_http_error-is_retryable_iff (invalid_target message) = ground arith
classify_http_error-is_retryable_iff (request_failed r) = ground arith
classify_http_error-is_retryable_iff (transport x) = ground arith

module _ {W X U : Type 0} (platform : HttpPlatform W X U) (adapter : HttpCapabilityAdapter)
    (set_param-origin : (k v : String) (u : U)
      → platform.origin (platform.set_param k v u) ≡ platform.origin u) where
  set_params-origin :
      (query : Dict String String) (u : U)
      → platform.origin (set_params platform adapter query u) ≡ platform.origin u
  unfolding set_params
  set_params-origin [] u = refl
  set_params-origin ((k, v) ∷ query) u =
      set_params-origin query (platform.set_param k v u) ∙ set_param-origin k v u

  -- A request that the adapter may send: to its own origin, and with the key of the execution, if
  -- there is one.
  abbrev pub Permitted : ExecutionContext → String → FetchInit → Type 0
  Permitted context url init =
      ((u : U) × (url ≡ platform.href u) × (platform.origin u ≡ adapter.base_origin))
      × ((key : String)
          → context.idempotency_key ≡ some key
          → get "idempotency-key" init.headers ≡ some key)

  checked_url-origin :
      (input : HttpRequest) (r : Result X U) (url : String)
      → checked_url platform adapter input r ≡ ok url
      → (u : U) × (url ≡ platform.href u) × (platform.origin u ≡ adapter.base_origin)
  checked_url-origin input (ok t) url h =
      let query = get_or input.query [] in
      let same = eq_iff (platform.origin t) adapter.base_origin in
      (
        set_params platform adapter query t,
        ground arith,
        set_params-origin query t ∙ same.0 (ground arith),
      )
  checked_url-origin input (err x) url h = ground arith

  init_of-keyed :
      (input : HttpRequest) (context : ExecutionContext) (key : String)
      → context.idempotency_key ≡ some key
      → get "idempotency-key" (init_of platform adapter input context).headers ≡ some key
  init_of-keyed input context key h =
      let chosen =
        (init_of platform adapter input (record context { idempotency_key = none })).headers in
      subst (λ o. get "idempotency-key" (keyed o chosen) ≡ some key) (sym h)
        (ground (
          arith,
          get-put "idempotency-key" "idempotency-key" key chosen,
          eq_iff "idempotency-key" "idempotency-key",
        ))

  resolve_url-checked :
      (input : HttpRequest) (url : String)
      → resolve_url platform adapter input ≡ ok url
      → checked_url platform adapter input (platform.new_url input.path adapter.base_url) ≡ ok url
  unfolding resolve_url
  resolve_url-checked input url q = q

  execute_at-confined :
      (f g : Fetch W X) (input : HttpRequest) (context : ExecutionContext) (s : Metered W)
      (r : Result (HttpError X) String)
      → resolve_url platform adapter input ≡ r
      → ((url : String) (init : FetchInit) (w : W)
          → Permitted context url init
          → f url init w ≡ g url init w)
      → execute_at platform adapter f r input context s
        ≡ execute_at platform adapter g r input context s
  execute_at-confined f g input context s (err e) q h = refl
  execute_at-confined f g input context s (ok url) q h =
      let init = init_of platform adapter input context in
      let own =
        checked_url-origin input (platform.new_url input.path adapter.base_url) url
          (resolve_url-checked input url q) in
      ap (λ r. fetched platform adapter (platform.now s.world) r s.last_usage)
        (h url init s.world (own, init_of-keyed input context))

  -- Nothing leaves the adapter but a request to its own origin that bears the key of the
  -- execution: two networks that answer all such requests alike cannot be told apart by an
  -- execution, whatever path, query and headers an order asks for; where setting a parameter of
  -- a URL keeps its origin.
  pub execute_http-confined :
      (f g : Fetch W X) (input : HttpRequest) (context : ExecutionContext) (s : Metered W)
      → ((url : String) (init : FetchInit) (w : W)
          → Permitted context url init
          → f url init w ≡ g url init w)
      → execute_http platform adapter f input context s
        ≡ execute_http platform adapter g input context s
  unfolding execute_http
  execute_http-confined f g input context s h =
      execute_at-confined f g input context s (resolve_url platform adapter input) refl h
