-- ===== src/Adapter/VendorLaws.antt =====
-- The classes of errors of the adapters of packages/adapters/model-openai and model-anthropic.
use donnav.Common.{
  ℕ, ◌≡◌, ◌≢◌, ◌↔◌, ◌≤◌, ◌⊎◌, inl, inr, refl, ap, sym, subst, arith, some_injective, Option, none,
  some,
}
use donnav.Adapter.OpenAi.{classify_openai_error}
use donnav.Adapter.Anthropic.{
  SdkError, rate_limit_error, authentication_error, permission_denied_error, bad_request_error,
  not_found_error, unprocessable_entity_error, internal_server_error, api_connection_error,
  api_error, classify_anthropic_error,
}

-- The error of the one library for a failure that is an `APIError` of this status with the other:
-- a status that has a class of its own has that class, a failure of the connection has no status,
-- and any other is an `APIError` of the same status, or without one.
abbrev pub StandsFor : SdkError → Option ℕ → Type 0
StandsFor bad_request_error status = status ≡ some 400
StandsFor authentication_error status = status ≡ some 401
StandsFor permission_denied_error status = status ≡ some 403
StandsFor not_found_error status = status ≡ some 404
StandsFor unprocessable_entity_error status = status ≡ some 422
StandsFor rate_limit_error status = status ≡ some 429
StandsFor internal_server_error status = (s : ℕ) × (status ≡ some s) × (500 ≤ s)
StandsFor api_connection_error status = status ≡ none
StandsFor (api_error given) status = (given ≡ status) × (given ≢ some 401) × (given ≢ some 403)
StandsFor SdkError.other_error status = ⊥

-- A failure of the connection, or a response that says so: a status of 400 or above.
abbrev pub Explained : SdkError → Option ℕ → Type 0
Explained e status = (e ≡ api_connection_error) ⊎ ((s : ℕ) × (status ≡ some s) × (400 ≤ s))

status-classes :
    (s : ℕ)
    → s ≢ 401
    → s ≢ 403
    → (classify_anthropic_error (api_error (some s)) ≡ classify_openai_error (some (some s)))
      ↔ (400 ≤ s)
unfolding classify_anthropic_error classify_openai_error
status-classes s n m = ground arith

api_error-classes :
    (given : Option ℕ)
    → given ≢ some 401
    → given ≢ some 403
    → (classify_anthropic_error (api_error given) ≡ classify_openai_error (some given))
      ↔ Explained (api_error given) given
unfolding classify_anthropic_error classify_openai_error
api_error-classes none n m = (λ e. cc, λ t. elim t [ inl a ↦ cc | inr (s, e, b) ↦ cc ])
api_error-classes (some s) n m =
    let same = status-classes s (λ e. n (ap some e)) (λ e. m (ap some e)) in
    (
      λ e. inr (s, refl, same.0 e),
      λ t. elim t [
        | inl a ↦ cc
        | inr (k, e, b) ↦ same.1 (subst (λ x. 400 ≤ x) (sym (some_injective s k e)) b)
      ],
    )

-- A failure that is an `APIError` of both libraries has the same class with both vendors exactly
-- when it is one of the connection or its response has a status of 400 or above: the classes differ
-- for one without a status that is not of the connection, or with a status below 400.
pub classify_anthropic_error-classify_openai_error_iff :
    (e : SdkError) (status : Option ℕ)
    → StandsFor e status
    → (classify_anthropic_error e ≡ classify_openai_error (some status)) ↔ Explained e status
unfolding classify_anthropic_error classify_openai_error
classify_anthropic_error-classify_openai_error_iff bad_request_error status h =
    rw (h) (λ e. inr (400, refl, omega arith), λ t. refl)
classify_anthropic_error-classify_openai_error_iff authentication_error status h =
    rw (h) (λ e. inr (401, refl, omega arith), λ t. refl)
classify_anthropic_error-classify_openai_error_iff permission_denied_error status h =
    rw (h) (λ e. inr (403, refl, omega arith), λ t. refl)
classify_anthropic_error-classify_openai_error_iff not_found_error status h =
    rw (h) (λ e. inr (404, refl, omega arith), λ t. refl)
classify_anthropic_error-classify_openai_error_iff unprocessable_entity_error status h =
    rw (h) (λ e. inr (422, refl, omega arith), λ t. refl)
classify_anthropic_error-classify_openai_error_iff rate_limit_error status h =
    rw (h) (λ e. inr (429, refl, omega arith), λ t. refl)
classify_anthropic_error-classify_openai_error_iff internal_server_error status (s, e, b) =
    rw (e) (λ k. inr (s, refl, omega (arith, b)), λ t. ground arith)
classify_anthropic_error-classify_openai_error_iff api_connection_error status h =
    rw (h) (λ e. inl refl, λ t. refl)
classify_anthropic_error-classify_openai_error_iff (api_error given) status (g, n, m) =
    subst
      (λ o.
        (classify_anthropic_error (api_error given) ≡ classify_openai_error (some o))
        ↔ Explained (api_error given) o)
      g (api_error-classes given n m)
classify_anthropic_error-classify_openai_error_iff SdkError.other_error status h = elim h [ ]
