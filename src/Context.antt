-- ===== src/Context.antt =====
-- packages/context/src/packet.ts: the context packet of a task under its token budget.
pub mod Laws
pub mod Greedy
use donnav.Common.{ℕ, String, Bool, List, [], ◌∷◌, ◌++◌, ◌+◌, leb, if◌then◌else◌}
use donnav.Common.Int.{ℤ, sub_ℕ, ◌-ℤ◌, or_else}
use donnav.Common.Sort.{sort_by}

pub data CacheTier : Type 0 where
  static semi_stable dynamic : CacheTier

-- `TIER_ORDER`
abbrev pub tier_order : CacheTier → ℕ
tier_order static = 0
tier_order semi_stable = 1
tier_order dynamic = 2

-- The content of an item is not modelled: no code reads it.
pub record ContextItem : Type 0 where
  pub id : String
  pub priority : ℤ
  pub tokens : ℕ
  pub cache_tier : CacheTier

pub record ContextPacket : Type 0 where
  pub items : List ContextItem
  pub total_tokens : ℕ
  pub budget_tokens : ℕ
  pub dropped : List ContextItem

-- `b.priority - a.priority`
unfoldable pub by_priority : ContextItem → ContextItem → ℤ
by_priority a b = b.priority -ℤ a.priority

-- The comparator of the second sort.
unfoldable pub by_tier : ContextItem → ContextItem → ℤ
by_tier a b =
    or_else (sub_ℕ (tier_order a.cache_tier) (tier_order b.cache_tier)) (b.priority -ℤ a.priority)

-- The variables of the loop.
pub record Selection : Type 0 where
  pub selected : List ContextItem
  pub dropped : List ContextItem
  pub used : ℕ

abbrev pub offer : ℕ → Selection → ContextItem → Selection
offer budget s item =
    if leb (s.used + item.tokens) budget
    then record s { selected = s.selected ++ item ∷ []; used = s.used + item.tokens }
    else record s { dropped = s.dropped ++ item ∷ [] }

unfoldable pub select : ℕ → Selection → List ContextItem → Selection
select budget s [] = s
select budget s (item ∷ rest) = select budget (offer budget s item) rest

abbrev pub no_selection : Selection
no_selection = record { selected = []; dropped = []; used = 0 }

unfoldable pub build_context_packet : List ContextItem → ℕ → ContextPacket
build_context_packet items budget_tokens =
    let s = select budget_tokens no_selection (sort_by by_priority items) in
    record {
      items = sort_by by_tier s.selected;
      total_tokens = s.used;
      budget_tokens = budget_tokens;
      dropped = s.dropped;
    }
