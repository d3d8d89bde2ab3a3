-- ===== src/Context/Greedy.antt =====
-- The choice that `buildContextPacket` of packages/context/src/packet.ts makes by priority.
use donnav.Common.{
  ℕ, true, List, [], ◌∷◌, ◌++◌, ◌≡◌, ◌↔◌, inl, inr, ◌+◌, ◌<◌, refl, arith, leb, if◌then◌else◌,
  Bool-cases, All, All-append, sum_by, sum_by-append, false_iff,
}
use donnav.Common.Int.{◌≤ℤ◌, leb_ℤ}
use donnav.Common.Sort.{sort_by, IsOrder, IsSorted, before, sort_by-IsSorted, sum_by-sort_by}
use donnav.Context.{
  ContextItem, by_priority, by_tier, Selection, offer, select, no_selection, build_context_packet,
}
use donnav.Context.Laws.{tokens_of, Inv, offer-Inv}

pub by_priority_iff :
    (a b : ContextItem) → (before by_priority a b ≡ true) ↔ (b.priority ≤ℤ a.priority)
unfolding by_priority
by_priority_iff a b = ground arith

by_priority-IsOrder : IsOrder by_priority
by_priority-IsOrder = record {
  total = λ a b h. (by_priority_iff b a).1 (ground (arith, false_iff _ (by_priority_iff a b)));
  trans =
      λ a b c h k. ground (arith, by_priority_iff a b, by_priority_iff b c, by_priority_iff a c);
}

-- The tokens of the items whose priority is at least that of `d`.
abbrev weight : ContextItem → ContextItem → ℕ
weight d k = if leb_ℤ d.priority k.priority then k.tokens else 0

abbrev pub tokens_above : ContextItem → List ContextItem → ℕ
tokens_above d = sum_by (weight d)

-- All items of a list have at least the priority of `i`.
abbrev Above : ContextItem → List ContextItem → Type 0
Above i xs = All (λ k. i.priority ≤ℤ k.priority) xs

tokens_above_all :
    (i : ContextItem) (xs : List ContextItem) → Above i xs → tokens_above i xs ≡ tokens_of xs
tokens_above_all i [] h = refl
tokens_above_all i (k ∷ xs) h = ground (arith, tokens_above_all i xs h.1)

-- Between two rounds: what is selected stands above all items that are still to come, and each
-- dropped item does not fit beside the selected items of at least its priority.
record Greedy (budget : ℕ) (rest : List ContextItem) (s : Selection) : Type 0 where
  ahead : All (λ i. Above i s.selected) rest
  crowded : All (λ d. budget < tokens_above d s.selected + d.tokens) s.dropped

ahead-snoc :
    (i : ContextItem) (rest xs : List ContextItem)
    → All (λ j. before by_priority i j ≡ true) rest
    → All (λ j. Above j xs) rest
    → All (λ j. Above j (xs ++ i ∷ [])) rest
ahead-snoc i [] xs h a = tt
ahead-snoc i (j ∷ rest) xs h a =
    (All-append _ xs (i ∷ []) a.0 ((by_priority_iff i j).0 h.0, tt), ahead-snoc i rest xs h.1 a.1)

crowded-snoc :
    (budget : ℕ) (i : ContextItem) (xs ds : List ContextItem)
    → All (λ d. budget < tokens_above d xs + d.tokens) ds
    → All (λ d. budget < tokens_above d (xs ++ i ∷ []) + d.tokens) ds
crowded-snoc budget i xs [] h = tt
crowded-snoc budget i xs (d ∷ ds) h =
    (omega (arith, sum_by-append (weight d) xs (i ∷ []), h.0), crowded-snoc budget i xs ds h.1)

offer-Greedy :
    (budget : ℕ) (s : Selection) (i : ContextItem) (rest : List ContextItem)
    → Inv budget s
    → IsSorted by_priority (i ∷ rest)
    → Greedy budget (i ∷ rest) s
    → Greedy budget rest (offer budget s i)
offer-Greedy budget s i rest inv sorted g = elim (Bool-cases (leb (s.used + i.tokens) budget)) [
  | inl e ↦ rw e (record {
    ahead = ahead-snoc i rest s.selected sorted.0 g.ahead.1;
    crowded = crowded-snoc budget i s.selected s.dropped g.crowded;
  })
  | inr e ↦ rw e (record {
    ahead = g.ahead.1;
    crowded =
        All-append _ s.dropped (i ∷ []) g.crowded
          (ground (arith, tokens_above_all i s.selected g.ahead.0, inv.used_exact), tt);
  })
]

select-Greedy :
    (budget : ℕ) (items : List ContextItem) (s : Selection)
    → Inv budget s
    → IsSorted by_priority items
    → Greedy budget items s
    → Greedy budget [] (select budget s items)
unfolding select
select-Greedy budget [] s inv sorted g = g
select-Greedy budget (i ∷ rest) s inv sorted g =
    select-Greedy budget rest (offer budget s i) (offer-Inv budget s i inv) sorted.1
      (offer-Greedy budget s i rest inv sorted g)

nothing_ahead : (xs : List ContextItem) → All (λ i. Above i []) xs
nothing_ahead [] = tt
nothing_ahead (x ∷ xs) = (tt, nothing_ahead xs)

crowded-sort :
    (budget : ℕ) (xs ds : List ContextItem)
    → All (λ d. budget < tokens_above d xs + d.tokens) ds
    → All (λ d. budget < tokens_above d (sort_by by_tier xs) + d.tokens) ds
crowded-sort budget xs [] h = tt
crowded-sort budget xs (d ∷ ds) h =
    (rw (sum_by-sort_by (weight d) by_tier xs) h.0, crowded-sort budget xs ds h.1)

-- An item is dropped only where the items of the packet that have at least its priority leave no
-- room for it: no item gives way to items of lower priority.
pub build_context_packet-greedy :
    (items : List ContextItem) (budget : ℕ)
    → let packet = build_context_packet items budget in
      All (λ d. budget < tokens_above d packet.items + d.tokens) packet.dropped
unfolding build_context_packet
build_context_packet-greedy items budget =
    let sorted = sort_by by_priority items in
    let s = select budget no_selection sorted in
    crowded-sort budget s.selected s.dropped
      (select-Greedy budget sorted no_selection
        (record { used_exact = refl; used_fits = omega arith; dropped_large = tt })
        (sort_by-IsSorted by_priority-IsOrder items)
        (record { ahead = nothing_ahead sorted; crowded = tt })).crowded
