-- ===== src/Worker/ModelLaws.antt =====
-- What the resolver of apps/worker/src/model-adapters.ts gives: the cache changes no answer, and a
-- local model is at the local endpoint.
use donnav.Common.{
  String, true, List, [], ◌∷◌, ◌≡◌, ◌≢◌, ◌⊎◌, inl, inr, refl, sym, subst, arith, ◌∙◌, eq_iff,
  string_eq, Option, none, some, In, map,
}
use donnav.Common.Dict.{Dict, get, put, get-put}
use donnav.Config.Models.{ModelEntry, local, local_privacy}
use donnav.Routing.Models.{ModelRoutingInput, ModelRoutingDecision, route_model}
use donnav.Routing.ModelLaws.{Able, route_model-chain}
use donnav.Worker.Models.{
  Vendor, local_vendor, non_empty, by_id, bind_local, bind_provider, bind_found, resolve_uncached,
  resolve_model_adapter,
}

module _ {W X : Type 0} (registry : List ModelEntry) (env : String → Option String) where
  -- What a model is bound to, without a cache.
  abbrev pub bound : String → Option (Vendor W X)
  bound id = bind_found env (get id (by_id registry []))

  -- Resolving one model after another.
  abbrev pub resolve_each : List String → Dict String (Vendor W X) → List (Option (Vendor W X))
  resolve_each [] cache = []
  resolve_each (id ∷ ids) cache =
      let (vendor, cache') = resolve_model_adapter registry env id cache in
      vendor ∷ resolve_each ids cache'

  abbrev pub IsCache : Dict String (Vendor W X) → Type 0
  IsCache cache = (id : String) (v : Vendor W X) → get id cache ≡ some v → bound id ≡ some v

  resolve_uncached-IsCache :
      (id : String) (cache : Dict String (Vendor W X)) (found b : Option (Vendor W X))
      → get id cache ≡ found
      → bound id ≡ b
      → IsCache cache
      → ((resolve_uncached found b id cache).0 ≡ b) × IsCache (resolve_uncached found b id cache).1
  resolve_uncached-IsCache id cache (some v) b f e c = (sym (c id v f) ∙ e, c)
  resolve_uncached-IsCache id cache none none f e c = (refl, c)
  resolve_uncached-IsCache id cache none (some v) f e c =
      (refl, λ j u g. ground (arith, get-put id j v cache, eq_iff id j, e, c j u))

  resolve_each_from :
      (ids : List String) (cache : Dict String (Vendor W X))
      → IsCache cache
      → resolve_each ids cache ≡ map bound ids
  unfolding resolve_model_adapter
  resolve_each_from [] cache c = refl
  resolve_each_from (id ∷ ids) cache c =
      let step = resolve_uncached-IsCache id cache (get id cache) (bound id) refl refl c in
      let others = resolve_each_from ids (resolve_model_adapter registry env id cache).1 step.1 in
      rw (step.0, others) refl

  -- From an empty cache on, models resolve one after another to what each would resolve to alone,
  -- whatever was resolved before; so a model has the same adapter each time.
  pub resolve_each-bound : (ids : List String) → resolve_each ids [] ≡ map bound ids
  resolve_each-bound ids = resolve_each_from ids [] (λ id v e. cc)

get-by_id :
    (m : ModelEntry) (registry : List ModelEntry) (models : Dict String ModelEntry)
    → ((k : ModelEntry) → In k registry → k.id ≡ m.id → k ≡ m)
    → In m registry ⊎ (get m.id models ≡ some m)
    → get m.id (by_id registry models) ≡ some m
unfolding by_id
get-by_id m [] models unique (inl i) = elim i [ ]
get-by_id m [] models unique (inr e) = e
get-by_id m (k ∷ registry) models unique h =
    get-by_id m registry (put k.id k models) (λ j i. unique j (inr i))
      (ground (arith, h, get-put k.id m.id k models, eq_iff k.id m.id, unique k (inl refl)))

-- A registry: an identifier names one model, and the models that are private are those of the
-- local provider.
pub record IsRegistry (registry : List ModelEntry) : Type 0 where
  pub named_once : (m k : ModelEntry) → In m registry → In k registry → k.id ≡ m.id → k ≡ m
  pub local_provider :
      (m : ModelEntry) → In m registry → m.privacy ≡ local_privacy → m.provider ≡ local

-- An adapter at the endpoint that the environment names for local models.
abbrev pub AtLocalEndpoint : {W X : Type 0} → (String → Option String) → Vendor W X → Type 0
AtLocalEndpoint env (local_vendor options) =
    (env "LOCAL_MODEL_BASE_URL" ≡ some options.base_url) × (options.base_url ≢ "")
AtLocalEndpoint env _ = ⊥

non_empty-some :
    (value : Option String) (s : String) → non_empty value ≡ some s → (value ≡ some s) × (s ≢ "")
non_empty-some none s h = cc
non_empty-some (some v) s h = ground (arith, eq_iff v "")

abbrev AllAtLocalEndpoint : {W X : Type 0} → (String → Option String) → Option (Vendor W X) → Type 0
AllAtLocalEndpoint env none = Unit
AllAtLocalEndpoint env (some v) = AtLocalEndpoint env v

bind_local-AllAtLocalEndpoint :
    (W X : Type 0) (env : String → Option String) (m : ModelEntry) (url key : Option String)
    → non_empty (env "LOCAL_MODEL_BASE_URL") ≡ url
    → AllAtLocalEndpoint {W = W} {X = X} env (bind_local m url key)
bind_local-AllAtLocalEndpoint W X env m none key e = tt
bind_local-AllAtLocalEndpoint W X env m (some url) key e =
    non_empty-some (env "LOCAL_MODEL_BASE_URL") url e

chain-Able :
    (registry : List ModelEntry) (input : ModelRoutingInput) (d : ModelRoutingDecision)
    → route_model input registry ≡ some d
    → (m : ModelEntry) → In m (d.model ∷ d.fallbacks)
    → Able input registry m
chain-Able registry input d h m i = elim (((route_model-chain input registry d h).1 m).0 i) [
  | inl c ↦ c.0
  | inr a ↦ a.1
]

module _ {W X : Type 0} (registry : List ModelEntry) (env : String → Option String)
    (input : ModelRoutingInput) where
  -- Where a request demands a local model, every model that is tried for it, the fallbacks too,
  -- has no adapter or one at the endpoint that the environment names for local models, so no
  -- text of the request goes to a cloud vendor; in a registry where an identifier names one
  -- model and the models that are private are those of the local provider.
  pub route_model-AtLocalEndpoint :
      (d : ModelRoutingDecision) (m : ModelEntry) (v : Vendor W X)
      → IsRegistry registry
      → input.require_local ≡ some true
      → route_model input registry ≡ some d
      → In m (d.model ∷ d.fallbacks)
      → bound registry env m.id ≡ some v
      → AtLocalEndpoint env v
  unfolding bind_provider
  route_model-AtLocalEndpoint d m v r l h i b =
      let (registered, eligible, _) = chain-Able registry input d h m i in
      let provider = r.local_provider m registered (eligible.local (rw (l) refl)) in
      let found = get-by_id m registry [] (λ k j. r.named_once m k registered j) (inl registered) in
      let binding : bind_local m (non_empty (env "LOCAL_MODEL_BASE_URL"))
            (non_empty (env "LOCAL_MODEL_API_KEY"))
          ≡ some v =
        subst (λ p. bind_provider env p m ≡ some v) provider
          (subst (λ o. bind_found env o ≡ some v) found b) in
      subst (AllAtLocalEndpoint env) binding (
        bind_local-AllAtLocalEndpoint W X env m (non_empty (env "LOCAL_MODEL_BASE_URL"))
          (non_empty (env "LOCAL_MODEL_API_KEY")) refl)
