-- ===== src/Orchestrator/CatalogLaws.antt =====
-- The registry and the resolver of packages/orchestrator/src/capability-catalog.ts agree.
use donnav.Common.{
  String, Bool, [], ◌∷◌, ◌≡◌, ◌↔◌, ◌⊎◌, inl, inr, refl, sym, ap, subst, ◌∙◌, arith, Option, none,
  some, string_eq, eq_iff, ◌==◌, In, Bool-cases, true, false, if◌then◌else◌, ◌++◌, get_or, In-snoc,
  some_injective,
}
use mathlib.Core.Bool.{false≢true}
use donnav.Common.Dict.{get, put, get-put, IsMap, put-IsMap}
use donnav.Domain.Tasks.{ExecutionClass}
use donnav.Adapter.Contracts.{CapabilityAdapter, healthy}
use donnav.Routing.Registry.{RegisteredCapability, CapabilityRegistry}
use donnav.Routing.Registry as Registry
use donnav.Routing.Work.{WorkRoutingInput, candidate_capabilities}
use donnav.Routing.WorkLaws.{candidate_capabilities_complete}
use donnav.Orchestrator.Catalog.{
  CatalogEntry, RegisterOptions, CapabilityCatalog, register, resolve, capability_of, register_all,
  to_work_registry,
}

none≢some : {A : Type 0} (a : A) → ¬ (none ≡ some a)
none≢some a h = ground arith

module _ {W X I O : Type 0} where
  -- Each entry's adapter has the identifier that the entry is listed under.
  abbrev pub Keyed : CapabilityCatalog W X I O → Type 0
  Keyed entries =
      (id : String) (e : CatalogEntry W X I O) → get id entries ≡ some e → e.adapter.id ≡ id

  -- The catalogs that registrations make.
  pub record IsCatalog (entries : CapabilityCatalog W X I O) : Type 0 where
    pub distinct : IsMap entries
    pub keyed : Keyed entries

  keyed_if :
      (b : Bool) (id : String) (new e : CatalogEntry W X I O) (old : Option (CatalogEntry W X I O))
      → (b ≡ true → new.adapter.id ≡ id)
      → (old ≡ some e → e.adapter.id ≡ id)
      → (if b then some new else old) ≡ some e
      → e.adapter.id ≡ id
  keyed_if true id new e old n k h =
      subst (λ x. x.adapter.id ≡ id) (some_injective new e h) (n refl)
  keyed_if false id new e old n k h = k h

  put-Keyed :
      (new : CatalogEntry W X I O) (entries : CapabilityCatalog W X I O)
      → Keyed entries
      → Keyed (put new.adapter.id new entries)
  put-Keyed new entries k id e h =
      keyed_if (new.adapter.id == id) id new e (get id entries) (eq_iff new.adapter.id id).0
        (k id e) (sym (get-put new.adapter.id id new entries) ∙ h)

  -- Registering keeps a catalog well formed.
  pub register-IsCatalog :
      (adapter : CapabilityAdapter W X I O) (c : ExecutionClass) (options : RegisterOptions)
      (entries : CapabilityCatalog W X I O)
      → IsCatalog entries
      → IsCatalog (register adapter c options entries)
  unfolding register
  register-IsCatalog adapter c options entries h = record {
    distinct = put-IsMap adapter.id _ entries h.distinct;
    keyed = put-Keyed _ entries h.keyed;
  }

  -- The adapter that was registered is resolved by its identifier, in place of one that had it
  -- before, and every other identifier is resolved as before.
  pub resolve-register :
      (adapter : CapabilityAdapter W X I O) (c : ExecutionClass) (options : RegisterOptions)
      (entries : CapabilityCatalog W X I O) (id : String)
      → resolve (register adapter c options entries) id
        ≡ (if adapter.id == id then some adapter else resolve entries id)
  unfolding register resolve
  resolve-register adapter c options entries id =
      rw
        (get-put adapter.id id
          (record {
            adapter = adapter;
            execution_class = c;
            provides = get_or options.provides adapter.spec.capabilities;
            health = get_or options.health healthy;
          })
          entries)
        (elim (Bool-cases (adapter.id == id)) [ inl t ↦ rw t refl | inr f ↦ rw f refl ])

  abbrev Listed : RegisteredCapability → CapabilityCatalog W X I O → Type 0
  Listed c entries =
      (e : CatalogEntry W X I O) × (get c.id entries ≡ some e) × (c ≡ capability_of c.id e)

  Listed-cons :
      (c : RegisteredCapability) (id : String) (entry : CatalogEntry W X I O)
      (entries : CapabilityCatalog W X I O)
      → get id entries ≡ none
      → ((c ≡ capability_of id entry) ⊎ Listed c entries) ↔ Listed c ((id, entry) ∷ entries)
  Listed-cons c id entry entries h = elim (Bool-cases (id == c.id)) [
    | inl t ↦
        let p : id ≡ c.id = (eq_iff id c.id).0 t in
        (
          λ s. elim s [
            | inl q ↦ (entry, rw t refl, q ∙ ap (λ i. capability_of i entry) p)
            | inr (e, g, q) ↦ absurd (none≢some e (sym h ∙ ap (λ i. get i entries) p ∙ g))
          ],
          λ (e, g, q). inl (
              q
              ∙ ap (capability_of c.id) (some_injective e entry (sym g ∙ rw t refl))
              ∙ ap (λ i. capability_of i entry) (sym p)),
        )
    | inr f ↦ (
      λ s. elim s [
        | inl q ↦ absurd (false≢true (sym f ∙ (eq_iff id c.id).1 (sym (ap (λ x. x.id) q))))
        | inr (e, g, q) ↦ (e, rw f g, q)
      ],
      λ (e, g, q). inr (e, rw f at g, q),
    )
  ]

  In-register_all :
      (c : RegisteredCapability) (registry : CapabilityRegistry)
      (entries : CapabilityCatalog W X I O)
      → IsMap entries
      → In c (register_all registry entries) ↔ (In c registry ⊎ Listed c entries)
  unfolding register_all Registry.register
  In-register_all c registry [] h = ground arith
  In-register_all c registry ((id, entry) ∷ entries) h = ground (
    arith,
    In-register_all c (registry ++ capability_of id entry ∷ []) entries h.1,
    In-snoc c (capability_of id entry) registry,
    Listed-cons c id entry entries h.0,
  )

  -- The registry of a catalog that registrations make holds, for every entry and nothing else, a
  -- capability with the entry's identifier, class, abilities and health.
  pub In-to_work_registry :
      (c : RegisteredCapability) (entries : CapabilityCatalog W X I O)
      → IsCatalog entries
      → In c (to_work_registry entries)
        ↔ ((e : CatalogEntry W X I O) × (get c.id entries ≡ some e) × (c ≡ capability_of c.id e))
  unfolding to_work_registry
  In-to_work_registry c entries h = (
    λ i. elim ((In-register_all c [] entries h.distinct).0 i) [ inl n ↦ absurd n | inr l ↦ l ],
    λ l. (In-register_all c [] entries h.distinct).1 (inr l),
  )

  -- Where routing and execution use one catalog that registrations make, every candidate of the
  -- Work Router is resolved to an adapter, which has the candidate's identifier: none is registered
  -- without being wired.
  pub candidates-resolve :
      (input : WorkRoutingInput) (entries : CapabilityCatalog W X I O) (c : RegisteredCapability)
      → IsCatalog entries
      → In c (candidate_capabilities input (to_work_registry entries))
      → (adapter : CapabilityAdapter W X I O) × (resolve entries c.id ≡ some adapter)
        × (adapter.id ≡ c.id)
  unfolding resolve
  candidates-resolve input entries c h i =
      let (clean, (registered, serves)) =
        ((candidate_capabilities_complete input (to_work_registry entries)).1 c).0 i in
      let (e, found, same) = (In-to_work_registry c entries h).0 registered in
      (e.adapter, rw found refl, h.keyed c.id e found)
