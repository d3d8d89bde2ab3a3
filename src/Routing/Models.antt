-- ===== src/Routing/Models.antt =====
-- packages/model-router/src/router.ts: `routeModel`. A tier is a whole number.
use Prim.Native.String.{◌++◌ as text_append}
use donnav.Common.{
  ℕ, String, Bool, true, false, List, [], ◌∷◌, ◌&&◌, not, Option, none, some, is_true, includes,
  filter, leb, get_or, if◌then◌else◌,
}
use donnav.Common.Int.{ℤ, sub_ℕ, or_else}
use donnav.Common.Sort.{sort_by}
use donnav.Common.Text.{decimal}
use donnav.Config.Models.{
  ModelProvider, provider_eq, ModelPrivacy, cloud_privacy, local_privacy, ModelEntry,
}

pub record ModelRoutingInput : Type 0 where
  pub reasoning_tier : ℕ
  pub needs_tools : Option Bool
  pub needs_vision : Option Bool
  pub require_local : Option Bool
  pub min_context_tokens : Option ℕ
  pub exclude_providers : Option (List ModelProvider)

pub record ModelRoutingDecision : Type 0 where
  pub model : ModelEntry
  pub fallbacks : List ModelEntry
  pub reason : String

abbrev is_local : ModelPrivacy → Bool
is_local local_privacy = true
is_local cloud_privacy = false

-- `excludeProviders?.includes(provider) === true`
abbrev pub is_excluded : Option (List ModelProvider) → ModelProvider → Bool
is_excluded none provider = false
is_excluded (some providers) provider = includes providers provider

unfoldable pub is_eligible : ModelEntry → ModelRoutingInput → Bool
is_eligible m input =
    if not m.available
    then false
    else if is_true input.needs_tools && not m.capabilities.tools
    then false
    else if is_true input.needs_vision && not m.capabilities.vision
    then false
    else if is_true input.require_local && not (is_local m.privacy)
    then false
    else if not (leb (get_or input.min_context_tokens 0) m.context_tokens)
    then false
    else if is_excluded input.exclude_providers m.provider
    then false
    else true

unfoldable pub by_cost : ModelEntry → ModelEntry → ℤ
by_cost a b =
    or_else (sub_ℕ a.output_cost_per_1m b.output_cost_per_1m)
      (sub_ℕ a.input_cost_per_1m b.input_cost_per_1m)

abbrev pub covers : ℕ → ModelEntry → Bool
covers tier m = leb m.tier_low tier && leb tier m.tier_high

abbrev pub capable : ℕ → ModelEntry → Bool
capable tier m = leb tier m.tier_high

abbrev route_reason : List ModelEntry → ℕ → ModelEntry → String
route_reason [] tier primary = text_append "No model covers tier " (
    text_append (decimal tier)
      (text_append " exactly; escalated to cheapest capable model " (text_append primary.id ".")))
route_reason (_ ∷ _) tier primary =
    text_append "Cheapest model covering tier "
      (text_append (decimal tier) (text_append ": " (text_append primary.id ".")))

-- `coversTier.length > 0 ? coversTier : capableOfTier`
abbrev pub pool_of : List ModelEntry → List ModelEntry → List ModelEntry
pool_of [] capable_of_tier = capable_of_tier
pool_of (m ∷ ms) capable_of_tier = m ∷ ms

-- `ranked[0]!` and `ranked.slice(1)`; a list that is sorted here is never empty.
abbrev pub ranked_decision : List ModelEntry → ℕ → List ModelEntry → Option ModelRoutingDecision
ranked_decision covers_tier tier [] = none
ranked_decision covers_tier tier (primary ∷ rest) =
    some
      (record { model = primary; fallbacks = rest; reason = route_reason covers_tier tier primary })

-- `if (pool.length === 0) return null;` and what follows it.
abbrev pub route_pool : List ModelEntry → ℕ → List ModelEntry → Option ModelRoutingDecision
route_pool covers_tier tier [] = none
route_pool covers_tier tier (m ∷ ms) = ranked_decision covers_tier tier (sort_by by_cost (m ∷ ms))

-- `if (eligible.length === 0) return null;` and what follows it.
abbrev pub route_eligible : ℕ → List ModelEntry → Option ModelRoutingDecision
route_eligible tier [] = none
route_eligible tier (m ∷ ms) =
    let covers_tier = filter (covers tier) (m ∷ ms) in
    let capable_of_tier = filter (capable tier) (m ∷ ms) in
    route_pool covers_tier tier (pool_of covers_tier capable_of_tier)

unfoldable pub route_model : ModelRoutingInput → List ModelEntry → Option ModelRoutingDecision
route_model input registry =
    route_eligible input.reasoning_tier (filter (λ m. is_eligible m input) registry)
