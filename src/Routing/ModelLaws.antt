-- ===== src/Routing/ModelLaws.antt =====
-- What `routeModel` of packages/model-router/src/router.ts decides.
use donnav.Common.{
  ℕ, true, List, [], ◌∷◌, ◌≡◌, ◌≢◌, ◌↔◌, ◌⊎◌, inl, inr, ◌≤◌, ◌<◌, refl, arith, Option, none, some,
  is_true, includes_iff, In, In-filter, List-cases, nil_of_none, get_or, filter, false_iff, sym,
  subst, ◌∙◌,
}
use donnav.Common.Sort.{
  sort_by, IsOrder, IsSorted, before, sort_by-IsSorted, In-sort_by, sort_by-ne_nil,
}
use mathlib.Core.Logic.Iff
use donnav.Config.Models.{ModelProvider, provider_eq, local_privacy, ModelEntry}
use donnav.Routing.Models.{
  ModelRoutingInput, ModelRoutingDecision, is_excluded, is_eligible, by_cost, covers, capable,
  pool_of, ranked_decision, route_pool, route_eligible, route_model,
}

-- Cheaper output first, and at equal output cost cheaper input.
abbrev pub Cheaper : ModelEntry → ModelEntry → Type 0
Cheaper a b =
    (a.output_cost_per_1m < b.output_cost_per_1m)
    ⊎ ((a.output_cost_per_1m ≡ b.output_cost_per_1m) × (a.input_cost_per_1m ≤ b.input_cost_per_1m))

pub by_cost_iff : (a b : ModelEntry) → (before by_cost a b ≡ true) ↔ Cheaper a b
unfolding by_cost
by_cost_iff a b = ground arith

pub by_cost-IsOrder : IsOrder by_cost
by_cost-IsOrder = record {
  total = λ a b h. (by_cost_iff b a).1 (ground (arith, false_iff _ (by_cost_iff a b)));
  trans = λ a b c h k. ground (arith, by_cost_iff a b, by_cost_iff b c, by_cost_iff a c);
}

abbrev Excluded : Option (List ModelProvider) → ModelProvider → Type 0
Excluded none p = ⊥
Excluded (some ps) p = In p ps

Excluded-iff :
    (o : Option (List ModelProvider)) (p : ModelProvider) → (is_excluded o p ≡ true) ↔ Excluded o p
Excluded-iff none p = ground arith
Excluded-iff (some ps) p = includes_iff ps p

-- What a request demands of a model.
pub record Eligible (input : ModelRoutingInput) (m : ModelEntry) : Type 0 where
  pub up : m.available ≡ true
  pub tools : is_true input.needs_tools ≡ true → m.capabilities.tools ≡ true
  pub vision : is_true input.needs_vision ≡ true → m.capabilities.vision ≡ true
  pub local : is_true input.require_local ≡ true → m.privacy ≡ local_privacy
  pub context : get_or input.min_context_tokens 0 ≤ m.context_tokens
  pub included : ¬ Excluded input.exclude_providers m.provider

pub is_eligible_iff :
    (m : ModelEntry) (input : ModelRoutingInput) → (is_eligible m input ≡ true) ↔ Eligible input m
unfolding is_eligible
is_eligible_iff m input = ground (
  arith,
  Excluded-iff input.exclude_providers m.provider,
  false_iff _ (Excluded-iff input.exclude_providers m.provider),
)

route_pool-sort :
    (cs : List ModelEntry) (tier : ℕ) (pool : List ModelEntry)
    → route_pool cs tier pool ≡ ranked_decision cs tier (sort_by by_cost pool)
unfolding sort_by
route_pool-sort cs tier [] = refl
route_pool-sort cs tier (m ∷ ms) = refl

-- The early returns of `routeModel` return what an empty pool would.
route_eligible-sort :
    (tier : ℕ) (es : List ModelEntry)
    → route_eligible tier es
      ≡ ranked_decision
          (filter (covers tier) es)
          tier
          (sort_by by_cost (pool_of (filter (covers tier) es) (filter (capable tier) es)))
unfolding sort_by
route_eligible-sort tier [] = refl
route_eligible-sort tier (m ∷ ms) =
    let cs = filter (covers tier) (m ∷ ms) in
    route_pool-sort cs tier (pool_of cs (filter (capable tier) (m ∷ ms)))

ranked_decision-chain :
    (cs : List ModelEntry) (tier : ℕ) (ranked : List ModelEntry) (d : ModelRoutingDecision)
    → ranked_decision cs tier ranked ≡ some d
    → ranked ≡ d.model ∷ d.fallbacks
ranked_decision-chain cs tier [] d h = cc
ranked_decision-chain cs tier (m ∷ ms) d h = ground arith

ranked_decision-none :
    (cs : List ModelEntry) (tier : ℕ) (ranked : List ModelEntry)
    → (ranked_decision cs tier ranked ≡ none) ↔ (ranked ≡ [])
ranked_decision-none cs tier [] = ground arith
ranked_decision-none cs tier (m ∷ ms) = ground arith

sort_by-nil : (ms : List ModelEntry) → ms ≡ [] → sort_by by_cost ms ≡ []
unfolding sort_by
sort_by-nil ms e = rw e refl

-- What a pool holds: the models that cover the tier if there are any, or else the capable ones.
pool_of-In :
    (cs ks : List ModelEntry) (m : ModelEntry)
    → (In m (pool_of cs ks) → In m cs ⊎ In m ks)
      × (cs ≡ [] → pool_of cs ks ≡ ks)
      × (cs ≢ [] → pool_of cs ks ≡ cs)
pool_of-In [] ks m = (λ i. inr i, λ e. refl, λ n. absurd (n refl))
pool_of-In (c ∷ cs) ks m = (λ i. inl i, λ e. cc, λ n. refl)

module _ (input : ModelRoutingInput) (registry : List ModelEntry) where
  abbrev tier : ℕ
  tier = input.reasoning_tier

  abbrev eligible : List ModelEntry
  eligible = filter (λ m. is_eligible m input) registry

  abbrev covering : List ModelEntry
  covering = filter (covers tier) eligible

  abbrev pool : List ModelEntry
  pool = pool_of covering (filter (capable tier) eligible)

  -- A registered model that is eligible and whose range reaches the tier.
  abbrev pub Able : ModelEntry → Type 0
  Able m = In m registry × Eligible input m × (tier ≤ m.tier_high)

  -- One whose range covers the tier.
  abbrev pub Covering : ModelEntry → Type 0
  Covering m = Able m × (m.tier_low ≤ tier)

  eligible_iff : (m : ModelEntry) → In m eligible ↔ (In m registry × Eligible input m)
  eligible_iff m =
      ground (arith, In-filter (λ k. is_eligible k input) m registry, is_eligible_iff m input)

  covering_iff : (m : ModelEntry) → In m covering ↔ Covering m
  covering_iff m = ground (arith, In-filter (covers tier) m eligible, eligible_iff m)

  Able-iff : (m : ModelEntry) → In m (filter (capable tier) eligible) ↔ Able m
  Able-iff m = ground (arith, In-filter (capable tier) m eligible, eligible_iff m)

  route_model-sort :
      route_model input registry ≡ ranked_decision covering tier (sort_by by_cost pool)
  unfolding route_model
  route_model-sort = route_eligible-sort tier eligible

  pool-Able : (m : ModelEntry) → In m pool → Able m
  pool-Able m i = elim ((pool_of-In covering (filter (capable tier) eligible) m).0 i) [
    | inl c ↦ ((covering_iff m).0 c).0
    | inr a ↦ (Able-iff m).0 a
  ]

  pool-Covering : (k : ModelEntry) → Covering k → (m : ModelEntry) → In m pool ↔ Covering m
  pool-Covering k c m =
      rw
        ((pool_of-In covering (filter (capable tier) eligible) m).2
          (λ e. subst (In k) e ((covering_iff k).1 c)))
        (covering_iff m)

  pool-Able' : ((k : ModelEntry) → ¬ Covering k) → (m : ModelEntry) → In m pool ↔ Able m
  pool-Able' n m =
      rw
        ((pool_of-In covering (filter (capable tier) eligible) m).1
          (nil_of_none covering (λ k i. n k ((covering_iff k).0 i))))
        (Able-iff m)

  pool-nil_iff : (pool ≡ []) ↔ ((m : ModelEntry) → ¬ Able m)
  pool-nil_iff = (
    λ e m a. elim (List-cases covering) [
      | inl p ↦ subst (In m) e ((pool-Able' (λ k c. subst (In k) p ((covering_iff k).1 c)) m).1 a)
      | inr (k, ks, p) ↦
          let i : In k covering = subst (In k) (sym p) (inl refl) in
          let c = (covering_iff k).0 i in subst (In k) e ((pool-Covering k c k).1 c)
    ],
    λ n. nil_of_none pool (λ m i. n m (pool-Able m i)),
  )

  -- Nothing is returned exactly when no registered model is eligible and reaches the tier.
  pub route_model-none_iff : (route_model input registry ≡ none) ↔ ((m : ModelEntry) → ¬ Able m)
  route_model-none_iff = rw route_model-sort (
      ground (
        arith,
        ranked_decision-none covering tier (sort_by by_cost pool),
        sort_by-ne_nil by_cost pool,
        sort_by-nil pool,
        pool-nil_iff,
      ))

  pool_iff :
      (m : ModelEntry) → In m pool ↔ (Covering m ⊎ (((k : ModelEntry) → ¬ Covering k) × Able m))
  pool_iff m = elim (List-cases covering) [
    | inl p ↦
        let n : (k : ModelEntry) → ¬ Covering k = λ k c. subst (In k) p ((covering_iff k).1 c) in
        (
          λ i. inr (n, (pool-Able' n m).0 i),
          λ s. elim s [ inl c ↦ absurd (n m c) | inr a ↦ (pool-Able' n m).1 a.1 ],
        )
    | inr (k, ks, p) ↦
        let c = (covering_iff k).0 (subst (In k) (sym p) (inl refl)) in
        (
          λ i. inl ((pool-Covering k c m).0 i),
          λ s. elim s [ inl d ↦ (pool-Covering k c m).1 d | inr a ↦ absurd (a.0 k c) ],
        )
  ]

  -- The chain of a decision is the model that is tried first with the fallbacks in their order. It
  -- is in order of cost, and it consists of the able models (registered, eligible, and reaching
  -- the tier) whose range covers the tier; only if there is none such, of all able models.
  pub route_model-chain :
      (d : ModelRoutingDecision)
      → route_model input registry ≡ some d
      → IsSorted by_cost (d.model ∷ d.fallbacks)
        × ((m : ModelEntry)
            → In m (d.model ∷ d.fallbacks)
              ↔ (Covering m ⊎ (((k : ModelEntry) → ¬ Covering k) × Able m)))
  route_model-chain d h = (
    subst (IsSorted by_cost) chain (sort_by-IsSorted by_cost-IsOrder pool),
    λ m.
        subst (λ xs. In m xs ↔ (Covering m ⊎ (((k : ModelEntry) → ¬ Covering k) × Able m))) chain
          (Iff.trans (In-sort_by by_cost m pool) (pool_iff m)),
  )
    where
      chain : sort_by by_cost pool ≡ d.model ∷ d.fallbacks
      chain =
          ranked_decision-chain covering tier (sort_by by_cost pool) d (sym route_model-sort ∙ h)
