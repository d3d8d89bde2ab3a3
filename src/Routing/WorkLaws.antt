-- ===== src/Routing/WorkLaws.antt =====
-- What packages/work-router/src/router.ts decides.
use donnav.Common.{
  true, false, List, [], ◌∷◌, ◌≡◌, ◌↔◌, inl, inr, ◌≤◌, refl, arith, some, is_true, index_of, In,
  leb, Bool-cases, List-cases, subst, sym,
}
use donnav.Common.Int.{pos}
use donnav.Common.Sort.{
  sort_by, IsOrder, IsSorted, before, sort_by-head, sort_by-IsSorted, In-sort_by,
}
use donnav.Domain.Tasks.{
  ExecutionClass, deterministic, class_eq, class_index, is_ai_execution_class,
}
use donnav.Routing.Registry.{
  RegisteredCapability, CapabilityRegistry, healthy_providing, Serves, healthy_providing_iff,
}
use donnav.Routing.Work.{
  class_preference, WorkRoutingInput, human_required, capability_matched, ai_reasoning_required,
  no_capability_fallback_human, by_preference, pick, route_work, candidate_capabilities,
}

preference_place : (c : ExecutionClass) → index_of class_preference c ≡ pos (class_index c)
preference_place deterministic = refl
preference_place _ = refl

-- The comparator orders capabilities by the place of their class in the preference order.
pub by_preference_lem :
    (a b : RegisteredCapability)
    → before by_preference a b ≡ leb (class_index a.execution_class) (class_index b.execution_class)
unfolding by_preference
by_preference_lem a b =
    rw (preference_place a.execution_class, preference_place b.execution_class) (ground arith)

pub by_preference-IsOrder : IsOrder by_preference
by_preference-IsOrder = record {
  total = λ a b h. ground (arith, by_preference_lem a b, by_preference_lem b a);
  trans = λ a b c h k.
      ground (arith, by_preference_lem a b, by_preference_lem b c, by_preference_lem a c);
}

module _ (input : WorkRoutingInput) (registry : CapabilityRegistry) where
  -- The capabilities that the work could go to.
  abbrev pub Fits : RegisteredCapability → Type 0
  Fits c = In c registry × Serves input.required_capabilities c

  -- The candidates are exactly the registered capabilities that serve the requirements, in the
  -- order of preference; there are none where a human is preferred.
  pub candidate_capabilities_complete :
      IsSorted by_preference (candidate_capabilities input registry)
      × ((c : RegisteredCapability)
          → In c (candidate_capabilities input registry)
            ↔ ((is_true input.prefers_human ≡ false) × Fits c))
  unfolding candidate_capabilities
  candidate_capabilities_complete = elim (Bool-cases (is_true input.prefers_human)) [
    | inl e ↦ rw e (tt, λ c. (λ h. absurd h, λ h. cc))
    | inr e ↦ rw e (
      sort_by-IsSorted by_preference-IsOrder _,
      λ c. ground (
        arith,
        In-sort_by by_preference c (healthy_providing input.required_capabilities registry),
        healthy_providing_iff input.required_capabilities registry c,
      ),
    )
  ]

  route_work-pick :
      is_true input.prefers_human ≡ false
      → route_work input registry ≡ pick input (candidate_capabilities input registry)
  unfolding route_work candidate_capabilities
  route_work-pick e = rw e refl

  abbrev candidates : List RegisteredCapability
  candidates = sort_by by_preference (healthy_providing input.required_capabilities registry)

  candidate_iff : (c : RegisteredCapability) → In c candidates ↔ Fits c
  candidate_iff c = ground (
    arith,
    In-sort_by by_preference c (healthy_providing input.required_capabilities registry),
    healthy_providing_iff input.required_capabilities registry c,
  )

  candidates-none : candidates ≡ [] → (c : RegisteredCapability) → ¬ Fits c
  candidates-none e c f = subst (In c) e ((candidate_iff c).1 f)

  candidates-first :
      {x : RegisteredCapability} {rest : List RegisteredCapability}
      → candidates ≡ x ∷ rest
      → Fits x
        × ((d : RegisteredCapability)
            → Fits d
            → class_index x.execution_class ≤ class_index d.execution_class)
  candidates-first {x} {rest} e = (
    (candidate_iff x).0 (subst (In x) (sym e) (inl refl)),
    λ d f.
        elim (sort_by-head by_preference-IsOrder
          (healthy_providing input.required_capabilities registry) x rest d e
          ((healthy_providing_iff input.required_capabilities registry d).1 f)) [
            | inl p ↦ rw p (omega arith)
            | inr b ↦ ground (arith, by_preference_lem x d)
          ],
  )

  -- Where a capability is matched, it is registered, healthy and provides all that is required,
  -- and no other such capability has a class that stands before its class in the order of
  -- preference.
  pub route_work-least :
      (route_work input registry).reason ≡ capability_matched
      → (c : RegisteredCapability) × Fits c
        × ((route_work input registry).execution_class ≡ c.execution_class)
        × ((route_work input registry).capability_id ≡ some c.id)
        × ((d : RegisteredCapability)
            → Fits d
            → class_index c.execution_class ≤ class_index d.execution_class)
  unfolding route_work
  route_work-least h = elim (Bool-cases (is_true input.prefers_human)) [
    | inl e ↦ absurd (ground arith)
    | inr e ↦ elim (List-cases candidates) [
      | inl none_fit ↦ absurd (ground arith)
      | inr (x, rest, p) ↦
          (x, (candidates-first p).0, ground arith, ground arith, (candidates-first p).1)
    ]
  ]

  abbrev pub NoneFits : Type 0
  NoneFits = (c : RegisteredCapability) → ¬ Fits c

  -- The reason tells which case the work is in: a human is preferred; or else some capability fits;
  -- or else none does, and the answer turns on whether reasoning is allowed.
  pub route_work-reason_iff :
      let r = (route_work input registry).reason in
      let preferred = is_true input.prefers_human in
      let reasons = is_true input.needs_reasoning in
      ((r ≡ human_required) ↔ (preferred ≡ true))
      × ((r ≡ capability_matched) ↔ ((preferred ≡ false) × ((c : RegisteredCapability) × Fits c)))
      × ((r ≡ ai_reasoning_required) ↔ ((preferred ≡ false) × NoneFits × (reasons ≡ true)))
      × ((r ≡ no_capability_fallback_human) ↔ ((preferred ≡ false) × NoneFits × (reasons ≡ false)))
  unfolding route_work
  route_work-reason_iff = elim (Bool-cases (is_true input.prefers_human)) [
    | inl e ↦ rw e (ground arith, ground arith, ground arith, ground arith)
    | inr e ↦ elim (List-cases candidates) [
      | inl p ↦
          let n = candidates-none p in
          rw (e, p)
            (
              ground arith,
              (λ h. absurd (ground arith), λ t. absurd (n t.1.0 t.1.1)),
              (λ h. (refl, n, ground arith), λ t. ground arith),
              (λ h. (refl, n, ground arith), λ t. ground arith),
            )
      | inr (x, rest, p) ↦
          let f = (candidates-first p).0 in
          rw (e, p)
            (
              ground arith,
              (λ h. (refl, (x, f)), λ t. refl),
              (λ h. absurd (ground arith), λ t. absurd (t.1 x f)),
              (λ h. absurd (ground arith), λ t. absurd (t.1 x f)),
            )
    ]
  ]

  -- Work is sent to a class of AI only if no capability of another class fits it.
  pub route_work-ai_last :
      is_ai_execution_class (route_work input registry).execution_class ≡ true
      → (d : RegisteredCapability) → Fits d
      → is_ai_execution_class d.execution_class ≡ true
  unfolding route_work is_ai_execution_class
  route_work-ai_last h d f = elim (Bool-cases (is_true input.prefers_human)) [
    | inl e ↦ absurd (ground arith)
    | inr e ↦ elim (List-cases candidates) [
      | inl p ↦ absurd (candidates-none p d f)
      | inr (x, rest, p) ↦ ground (arith, (candidates-first p).1 d f)
    ]
  ]
