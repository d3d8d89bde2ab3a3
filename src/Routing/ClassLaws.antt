-- ===== src/Routing/ClassLaws.antt =====
-- What `candidateClasses` of packages/work-router/src/router.ts returns.
use donnav.Common.{
  In-snoc, true, List, [], ◌∷◌, ◌++◌, ◌≡◌, ◌≢◌, ◌↔◌, ◌⊎◌, inl, inr, refl, arith, Option, none, some,
  is_true, includes, includes_iff, if◌then◌else◌, In, In-map, All, Bool-cases, List-cases,
  false_iff, map, sym, subst, ◌∙◌,
}
use donnav.Common.Sort.{sort_by, In-sort_by}
use donnav.Domain.Tasks.{ExecutionClass, human, cloud_ai, class_eq}
use donnav.Routing.Registry.{
  RegisteredCapability, CapabilityRegistry, healthy_providing, healthy_providing_iff,
}
use donnav.Routing.Work.{
  WorkRoutingInput, by_preference, route_work, push, push_all, candidate_classes,
}
use donnav.Routing.WorkLaws.{Fits}

abbrev pub Distinct : List ExecutionClass → Type 0
Distinct [] = Unit
Distinct (x ∷ xs) = All (λ y. x ≢ y) xs × Distinct xs

All-snoc :
    (a c : ExecutionClass) (xs : List ExecutionClass)
    → All (λ y. a ≢ y) xs
    → a ≢ c
    → All (λ y. a ≢ y) (xs ++ c ∷ [])
All-snoc a c [] h n = (n, tt)
All-snoc a c (x ∷ xs) h n = (h.0, All-snoc a c xs h.1 n)

Distinct-snoc :
    (c : ExecutionClass) (xs : List ExecutionClass)
    → ¬ In c xs
    → Distinct xs
    → Distinct (xs ++ c ∷ [])
Distinct-snoc c [] n h = (tt, tt)
Distinct-snoc c (x ∷ xs) n h =
    (All-snoc x c xs h.0 (λ e. n (inl (sym e))), Distinct-snoc c xs (λ i. n (inr i)) h.1)

In-push : (a c : ExecutionClass) (xs : List ExecutionClass) → In a (push xs c) ↔ (In a xs ⊎ (a ≡ c))
In-push a c xs = elim (Bool-cases (includes xs c)) [
  | inl e ↦ rw e (
    λ i. inl i,
    λ h. elim h [ inl i ↦ i | inr p ↦ subst (λ b. In b xs) (sym p) ((includes_iff xs c).0 e) ],
  )
  | inr e ↦ rw e (In-snoc a c xs)
]

push-Distinct : (c : ExecutionClass) (xs : List ExecutionClass) → Distinct xs → Distinct (push xs c)
push-Distinct c xs h = elim (Bool-cases (includes xs c)) [
  | inl e ↦ rw e h
  | inr e ↦ rw e (Distinct-snoc c xs ((false_iff _ (includes_iff xs c)).0 e) h)
]

In-push_all :
    (a : ExecutionClass) (xs : List ExecutionClass) (cs : List RegisteredCapability)
    → In a (push_all xs cs) ↔ (In a xs ⊎ In a (map (λ d. d.execution_class) cs))
unfolding push_all
In-push_all a xs [] = ground arith
In-push_all a xs (c ∷ cs) =
    ground (arith, In-push_all a (push xs c.execution_class) cs, In-push a c.execution_class xs)

push_all-Distinct :
    (xs : List ExecutionClass) (cs : List RegisteredCapability)
    → Distinct xs
    → Distinct (push_all xs cs)
unfolding push_all
push_all-Distinct xs [] h = h
push_all-Distinct xs (c ∷ cs) h =
    push_all-Distinct (push xs c.execution_class) cs (push-Distinct c.execution_class xs h)

-- The first class of a list, if there is one.
abbrev pub first : List ExecutionClass → Option ExecutionClass
first [] = none
first (x ∷ xs) = some x

first-push :
    (x : ExecutionClass) (xs : List ExecutionClass) (c : ExecutionClass)
    → first (push (x ∷ xs) c) ≡ some x
first-push x xs c = elim (Bool-cases (includes (x ∷ xs) c)) [
  | inl e ↦ rw e refl
  | inr e ↦ rw e refl
]

first_of_push :
    (xs : List ExecutionClass) (c x : ExecutionClass)
    → first xs ≡ some x
    → first (push xs c) ≡ some x
first_of_push [] c x h = cc
first_of_push (y ∷ xs) c x h = first-push y xs c ∙ h

first-push_all :
    (xs : List ExecutionClass) (cs : List RegisteredCapability) (x : ExecutionClass)
    → first xs ≡ some x
    → first (push_all xs cs) ≡ some x
unfolding push_all
first-push_all xs [] x h = h
first-push_all xs (c ∷ cs) x h =
    first-push_all (push xs c.execution_class) cs x (first_of_push xs c.execution_class x h)

module _ (input : WorkRoutingInput) (registry : CapabilityRegistry) where
  abbrev start : List ExecutionClass
  start = if is_true input.prefers_human then push [] human else []

  abbrev matched : List ExecutionClass
  matched =
      push_all start
        (sort_by by_preference (healthy_providing input.required_capabilities registry))

  abbrev reasoned : List ExecutionClass
  reasoned = if is_true input.needs_reasoning then push matched cloud_ai else matched

  start-Distinct : Distinct start
  start-Distinct = elim (Bool-cases (is_true input.prefers_human)) [
    | inl e ↦ rw e (tt, tt)
    | inr e ↦ rw e tt
  ]

  reasoned-Distinct : Distinct reasoned
  reasoned-Distinct = elim (Bool-cases (is_true input.needs_reasoning)) [
    | inl e ↦ rw e (push-Distinct cloud_ai matched (push_all-Distinct start _ start-Distinct))
    | inr e ↦ rw e (push_all-Distinct start _ start-Distinct)
  ]

  In-start : (a : ExecutionClass) → In a start → a ≡ human
  In-start a i = elim (Bool-cases (is_true input.prefers_human)) [
    | inl e ↦ ground arith
    | inr e ↦ ground arith
  ]

  In-reasoned :
      (a : ExecutionClass)
      → In a reasoned ↔ (In a matched ⊎ ((is_true input.needs_reasoning ≡ true) × (a ≡ cloud_ai)))
  In-reasoned a = elim (Bool-cases (is_true input.needs_reasoning)) [
    | inl e ↦ rw e (ground (arith, In-push a cloud_ai matched))
    | inr e ↦ rw e (ground arith)
  ]

  abbrev FitsAs : ExecutionClass → Type 0
  FitsAs a = (d : RegisteredCapability) × Fits input registry d × (a ≡ d.execution_class)

  abbrev sorted : List RegisteredCapability
  sorted = sort_by by_preference (healthy_providing input.required_capabilities registry)

  sorted_iff : (d : RegisteredCapability) → In d sorted ↔ Fits input registry d
  sorted_iff d = ground (
    arith,
    In-sort_by by_preference d (healthy_providing input.required_capabilities registry),
    healthy_providing_iff input.required_capabilities registry d,
  )

  In-classes : (a : ExecutionClass) → In a (map (λ d. d.execution_class) sorted) ↔ FitsAs a
  In-classes a = (
    λ i.
        let (d, j, e) = (In-map (λ d. d.execution_class) a sorted).0 i in
        (d, (sorted_iff d).0 j, e),
    λ t. (In-map (λ d. d.execution_class) a sorted).1 (t.0, (sorted_iff t.0).1 t.1, t.2),
  )

  -- The chain of classes holds no class twice, and a human is in it; a class is in it exactly when
  -- it is that of a human, that of cloud AI where reasoning is allowed, or that of a capability
  -- that fits.
  pub candidate_classes_complete :
      Distinct (candidate_classes input registry)
      × ((a : ExecutionClass)
          → In a (candidate_classes input registry) ↔ (
              (a ≡ human)
              ⊎ ((is_true input.needs_reasoning ≡ true) × (a ≡ cloud_ai))
              ⊎ ((d : RegisteredCapability) × Fits input registry d × (a ≡ d.execution_class))))
  unfolding candidate_classes
  candidate_classes_complete = (
    push-Distinct human reasoned reasoned-Distinct,
    λ a. ground (
      arith,
      In-push a human reasoned,
      In-reasoned a,
      In-push_all a start sorted,
      In-start a,
      In-classes a,
    ),
  )

  first-reasoned :
      (x : ExecutionClass) → first matched ≡ some x → first (push reasoned human) ≡ some x
  first-reasoned x h = elim (Bool-cases (is_true input.needs_reasoning)) [
    | inl e ↦
        rw e (first_of_push (push matched cloud_ai) human x (first_of_push matched cloud_ai x h))
    | inr e ↦ rw e (first_of_push matched human x h)
  ]

  -- The chain begins with the class that the Work Router picks.
  pub candidate_classes-first :
      first (candidate_classes input registry) ≡ some (route_work input registry).execution_class
  unfolding candidate_classes route_work
  candidate_classes-first = elim (Bool-cases (is_true input.prefers_human)) [
    | inl e ↦
        first-reasoned human (rw e (first-push_all (human ∷ []) sorted human refl)) ∙ rw e refl
    | inr e ↦ elim (List-cases sorted) [
      | inl p ↦ rw (e, p) (ground arith)
      | inr (x, rest, p) ↦
          first-reasoned x.execution_class
            (rw (e, p) (first-push_all (x.execution_class ∷ []) rest x.execution_class refl))
          ∙ rw (e, p) refl
    ]
  ]
