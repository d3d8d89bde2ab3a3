-- ===== src/Context/Laws.antt =====
-- What `buildContextPacket` of packages/context/src/packet.ts puts into a packet.
use donnav.Common.{
  ℕ, true, List, [], ◌∷◌, ◌++◌, ◌≡◌, ◌↔◌, ◌⊎◌, inl, inr, ◌+◌, ◌≤◌, ◌<◌, refl, sym, ◌∙◌, arith, leb,
  Bool-cases, All, All-append, sum_by, sum_by-append, false_iff,
}
use mathlib.Core.List.{Perm, perm_middle, append_assoc, append-nil}
use mathlib.Core.List.Perm
use donnav.Common.Int.{◌≤ℤ◌}
use donnav.Common.Sort.{
  sort_by, IsOrder, IsSorted, before, sort_by-IsSorted, sort_by-perm, sum_by-sort_by,
}
use donnav.Context.{
  ContextItem, ContextPacket, tier_order, by_priority, by_tier, Selection, offer, select,
  no_selection, build_context_packet,
}

-- One item stands before another in the packet: an earlier tier, or the same tier and no less a
-- priority.
abbrev pub Earlier : ContextItem → ContextItem → Type 0
Earlier a b =
    (tier_order a.cache_tier < tier_order b.cache_tier)
    ⊎ ((tier_order a.cache_tier ≡ tier_order b.cache_tier) × (b.priority ≤ℤ a.priority))

pub by_tier_iff : (a b : ContextItem) → (before by_tier a b ≡ true) ↔ Earlier a b
unfolding by_tier
by_tier_iff a b = ground arith

pub by_tier-IsOrder : IsOrder by_tier
by_tier-IsOrder = record {
  total = λ a b h. (by_tier_iff b a).1 (ground (arith, false_iff _ (by_tier_iff a b)));
  trans = λ a b c h k. ground (arith, by_tier_iff a b, by_tier_iff b c, by_tier_iff a c);
}

abbrev pub tokens_of : List ContextItem → ℕ
tokens_of = sum_by (λ i. i.tokens)

move_last :
    (i : ContextItem) (xs ys zs : List ContextItem)
    → Perm (((xs ++ i ∷ []) ++ ys) ++ zs) ((xs ++ ys) ++ i ∷ zs)
move_last i xs ys zs = simp append_assoc (
    Perm.trans (perm_middle xs (ys ++ zs))
      (Perm.symm (simp (← append_assoc) (perm_middle (xs ++ ys) zs))))

offer-perm :
    (budget : ℕ) (i : ContextItem) (rest : List ContextItem) (s : Selection)
    → let t = offer budget s i in
      Perm ((t.selected ++ t.dropped) ++ rest) ((s.selected ++ s.dropped) ++ i ∷ rest)
offer-perm budget i rest s = elim (Bool-cases (leb (s.used + i.tokens) budget)) [
  | inl e ↦ rw e (move_last i s.selected s.dropped rest)
  | inr e ↦ rw e (simp append_assoc (Perm.refl _))
]

select-perm :
    (budget : ℕ) (items : List ContextItem) (s : Selection)
    → let t = select budget s items in
      Perm (t.selected ++ t.dropped) ((s.selected ++ s.dropped) ++ items)
unfolding select
select-perm budget [] s = rw append-nil (Perm.refl _)
select-perm budget (i ∷ rest) s =
    Perm.trans (select-perm budget rest (offer budget s i)) (offer-perm budget i rest s)

-- The variables of the loop between two rounds: what is used is what is selected and fits the
-- budget, and nothing that was dropped would fit.
pub record Inv (budget : ℕ) (s : Selection) : Type 0 where
  pub used_exact : s.used ≡ tokens_of s.selected
  pub used_fits : s.used ≤ budget
  pub dropped_large : All (λ d. budget < s.used + d.tokens) s.dropped

still_large :
    (budget used more : ℕ) (ds : List ContextItem)
    → All (λ d. budget < used + d.tokens) ds
    → All (λ d. budget < used + more + d.tokens) ds
still_large budget used more [] h = tt
still_large budget used more (d ∷ ds) h = (omega arith, still_large budget used more ds h.1)

pub offer-Inv :
    (budget : ℕ) (s : Selection) (i : ContextItem) → Inv budget s → Inv budget (offer budget s i)
offer-Inv budget s i h = elim (Bool-cases (leb (s.used + i.tokens) budget)) [
  | inl e ↦ rw e (record {
    used_exact = omega (arith, sum_by-append (λ k. k.tokens) s.selected (i ∷ []), h.used_exact);
    used_fits = ground arith;
    dropped_large = still_large budget s.used i.tokens s.dropped h.dropped_large;
  })
  | inr e ↦ rw e (record {
    used_exact = h.used_exact;
    used_fits = h.used_fits;
    dropped_large = All-append _ s.dropped (i ∷ []) h.dropped_large (ground arith, tt);
  })
]

select-Inv :
    (budget : ℕ) (items : List ContextItem) (s : Selection)
    → Inv budget s
    → Inv budget (select budget s items)
unfolding select
select-Inv budget [] s h = h
select-Inv budget (i ∷ rest) s h =
    select-Inv budget rest (offer budget s i) (offer-Inv budget s i h)

module _ (items : List ContextItem) (budget : ℕ) where
  abbrev packet : ContextPacket
  packet = build_context_packet items budget

  abbrev chosen : Selection
  chosen = select budget no_selection (sort_by by_priority items)

  chosen-Inv : Inv budget chosen
  chosen-Inv =
      select-Inv budget (sort_by by_priority items) no_selection
        (record { used_exact = refl; used_fits = omega arith; dropped_large = tt })

  -- Every item goes into the packet or is dropped, none twice, and none is invented.
  pub build_context_packet-perm : Perm (packet.items ++ packet.dropped) items
  unfolding build_context_packet
  build_context_packet-perm =
      Perm.trans (Perm.append (sort_by-perm by_tier chosen.selected) (Perm.refl chosen.dropped)) (
        Perm.trans (select-perm budget (sort_by by_priority items) no_selection)
          (sort_by-perm by_priority items))

  -- The tokens of the packet are those of its items, they stay within the budget, and no item that
  -- was dropped would fit beside them.
  pub build_context_packet-budget :
      (packet.total_tokens ≡ tokens_of packet.items)
      × (packet.total_tokens ≤ budget)
      × All (λ d. budget < packet.total_tokens + d.tokens) packet.dropped
  unfolding build_context_packet
  build_context_packet-budget = (
    chosen-Inv.used_exact ∙ sym (sum_by-sort_by (λ i. i.tokens) by_tier chosen.selected),
    chosen-Inv.used_fits,
    chosen-Inv.dropped_large,
  )

  -- The items of the packet stand in the order of the cache tiers, and within a tier by falling
  -- priority.
  pub build_context_packet-IsSorted : IsSorted by_tier packet.items
  unfolding build_context_packet
  build_context_packet-IsSorted = sort_by-IsSorted by_tier-IsOrder chosen.selected
