-- ===== src/Events/BusLaws.antt =====
-- What the event bus of packages/events/src/bus.ts delivers, and to whom.
use donnav.Common.{
  ℕ, true, List, [], ◌∷◌, ◌++◌, ◌≡◌, inl, inr, ◌&&◌, ◌||◌, not, refl, sym, subst, ap, ◌∙◌, arith,
  none, ok, nat_eq, ◌==◌, nat_beq_iff, filter, All, Bool-cases, map, append_assoc_lem,
  append-nil_lem,
}
use donnav.Common.Dict.{get-put}
use donnav.Domain.Events.{EventEnvelope}
use donnav.Events.Bus.{
  EventSubscription, subscription_eq, subscription_beq_iff, EventHandler, InMemoryEventBus, has,
  add, set_of, subscribe, unsubscribe, matched, attempt, deliver, publish,
}

-- A handler that leaves a mark of its call in the world, a list of identities, and may then throw
-- or not.
abbrev pub Marks : {X : Type 0} → EventEnvelope → EventHandler (List ℕ) X → Type 0
Marks event h = (w : List ℕ) → (h.call event w).1 ≡ w ++ h.identity ∷ []

abbrev pub identities : {X : Type 0} → List (EventHandler (List ℕ) X) → List ℕ
identities = map (λ h. h.identity)

attempt-Marks :
    {X : Type 0} (event : EventEnvelope) (h : EventHandler (List ℕ) X) (w : List ℕ)
    → Marks event h
    → ((attempt none event h w).0 ≡ ok tt) × ((attempt none event h w).1 ≡ w ++ h.identity ∷ [])
unfolding attempt
attempt-Marks event h w m = ground (arith, m w)

deliver-Marks :
    {X : Type 0} (event : EventEnvelope) (hs : List (EventHandler (List ℕ) X)) (w : List ℕ)
    → All (Marks event) hs
    → deliver none event hs w ≡ (ok tt, w ++ identities hs)
unfolding deliver
deliver-Marks event [] w m = ap (λ xs. (ok tt, xs)) (sym (append-nil_lem w))
deliver-Marks event (h ∷ hs) w m =
    let (called, marked) = attempt-Marks event h w m.0 in
    rw (called, marked, deliver)
      (deliver-Marks event hs (w ++ h.identity ∷ []) m.1
        ∙ ap (λ xs. (ok tt, xs)) (append_assoc_lem w (h.identity ∷ []) (identities hs)))

-- In a world that is the list of the calls, which each handler extends by its identity before it
-- returns or throws, publishing on a bus without an error callback succeeds and calls each handler
-- of the event's type, and then each handler of all events, exactly once and in the order of their
-- subscription, whichever of them throw.
pub publish-isolates :
    {X : Type 0} (bus : InMemoryEventBus (List ℕ) X) (event : EventEnvelope) (w : List ℕ)
    → bus.on_error ≡ none
    → All (Marks event) (matched event bus)
    → publish bus event w ≡ (ok tt, w ++ identities (matched event bus))
unfolding publish
publish-isolates bus event w e m = rw e (deliver-Marks event (matched event bus) w m)

module _ {W X : Type 0} where
  has-snoc :
      (hs : List (EventHandler W X)) (h : EventHandler W X) (i : ℕ)
      → has (hs ++ h ∷ []) i ≡ (has hs i || (h.identity == i))
  has-snoc [] h i = ground arith
  has-snoc (x ∷ hs) h i = ground (arith, has-snoc hs h i)

  has-add :
      (hs : List (EventHandler W X)) (h : EventHandler W X) (i : ℕ)
      → has (add h hs) i ≡ (has hs i || (h.identity == i))
  has-add hs h i = elim (Bool-cases (has hs h.identity)) [
    | inl e ↦ rw e (elim (Bool-cases (h.identity == i)) [
      | inl p ↦
          rw p (
            subst (λ k. has hs k ≡ (has hs k || true)) ((nat_beq_iff h.identity i).0 p) (rw e refl))
      | inr n ↦ rw n (ground arith)
    ])
    | inr e ↦ rw e (has-snoc hs h i)
  ]

  has-delete :
      (hs : List (EventHandler W X)) (k i : ℕ)
      → has (filter (λ h. not (h.identity == k)) hs) i ≡ (has hs i && not (k == i))
  has-delete [] k i = refl
  has-delete (x ∷ hs) k i = ground (arith, has-delete hs k i)

  -- After a subscription the handler is in the set of its subscription; no other set and no other
  -- membership changes, also where it was subscribed before.
  pub subscribe-has :
      (on other : EventSubscription) (h : EventHandler W X) (bus : InMemoryEventBus W X) (i : ℕ)
      → has (set_of other (subscribe on h bus)) i
        ≡ (has (set_of other bus) i || ((on == other) && (h.identity == i)))
  unfolding subscribe
  subscribe-has on other h bus i =
      rw (get-put on other (add h (set_of on bus)) bus.handlers) (elim (Bool-cases (on == other)) [
        | inl e ↦ rw e (
            subst (λ o. has (add h (set_of on bus)) i ≡ (has (set_of o bus) i || (h.identity == i)))
              ((subscription_beq_iff on other).0 e) (has-add (set_of on bus) h i))
        | inr n ↦ rw n (ground arith)
      ])

  -- After it is unsubscribed the handler is not in the set of its subscription; no other set and
  -- no other membership changes.
  pub unsubscribe-has :
      (on other : EventSubscription) (k : ℕ) (bus : InMemoryEventBus W X) (i : ℕ)
      → has (set_of other (unsubscribe on k bus)) i
        ≡ (has (set_of other bus) i && not ((on == other) && (k == i)))
  unfolding unsubscribe
  unsubscribe-has on other k bus i =
      rw (get-put on other (filter (λ h. not (h.identity == k)) (set_of on bus)) bus.handlers)
        (elim (Bool-cases (on == other)) [
          | inl e ↦ rw e (
              subst
                (λ o.
                  has (filter (λ h. not (h.identity == k)) (set_of on bus)) i
                  ≡ (has (set_of o bus) i && not (k == i)))
                ((subscription_beq_iff on other).0 e) (has-delete (set_of on bus) k i))
          | inr n ↦ rw n (ground arith)
        ])
