-- ===== src/Scenarios/Packets.antt =====
-- A context packet of three items (packages/context).
use donnav.Common.{ℕ, String, List, [], ◌∷◌, ◌≡◌, ◌+◌, ◌≤◌, ◌<◌, All}
use donnav.Common.Int.{pos}
use donnav.Context.{ContextItem, CacheTier, static, dynamic, build_context_packet}
use donnav.Context.Laws.{tokens_of, build_context_packet-budget}
use donnav.Context.Greedy.{tokens_above, build_context_packet-greedy}

abbrev item : String → ℕ → ℕ → CacheTier → ContextItem
item id priority tokens tier = record {
  id = id;
  priority = pos priority;
  tokens = tokens;
  cache_tier = tier;
}

abbrev items : List ContextItem
items = item "chat" 5 60 dynamic ∷ item "rules" 9 30 static ∷ item "notes" 1 40 static ∷ []

build_context_packet-budget_example :
    let packet = build_context_packet items 100 in
    (packet.total_tokens ≡ tokens_of packet.items)
    × (packet.total_tokens ≤ 100)
    × All (λ d. 100 < packet.total_tokens + d.tokens) packet.dropped
build_context_packet-budget_example = build_context_packet-budget items 100

build_context_packet-greedy_example :
    let packet = build_context_packet items 100 in
    All (λ d. 100 < tokens_above d packet.items + d.tokens) packet.dropped
build_context_packet-greedy_example = build_context_packet-greedy items 100
