-- ===== src/Events/Marking.antt =====
-- What publishing and marking a batch changes (packages/events/src/outbox.ts).
use donnav.Common.{
  ℕ, zero, suc, false, List, [], ◌∷◌, ◌++◌, ◌≡◌, inl, inr, ◌||◌, ◌≤◌, String, Result, ok, err,
  filter, not, includes, string_eq, eq_iff, length, take, map, refl, sym, ap, ◌∙◌, arith, All,
  Bool-cases, append_assoc_lem, append-nil_lem, ◌==◌,
}
use donnav.Domain.Events.{EventEnvelope}
use donnav.Events.Outbox.{
  InMemoryOutboxStore, unpublished, mark_published, publish_all, mark_delivered, finish_batch,
}

abbrev pub drop : ℕ → List EventEnvelope → List EventEnvelope
drop zero xs = xs
drop (suc n) [] = []
drop (suc n) (x ∷ xs) = drop n xs

-- No two events of the store share an identifier.
abbrev pub DistinctIds : List EventEnvelope → Type 0
DistinctIds [] = Unit
DistinctIds (x ∷ xs) = All (λ y. (y.id ≡ x.id) → ⊥) xs × DistinctIds xs

abbrev pub ids : List EventEnvelope → List String
ids = map (λ e. e.id)

module _ {W X : Type 0} (publish : EventEnvelope → W → Result X (Unit {0}) × W) where
  -- The bus accepts every event.
  abbrev pub Reliable : Type 0
  Reliable = (event : EventEnvelope) (w : W) → (publish event w).0 ≡ ok tt

  -- The world after the events have been published in order.
  abbrev pub after : List EventEnvelope → W → W
  after [] w = w
  after (e ∷ es) w = after es (publish e w).1

  pub publish_all-reliable :
      Reliable
      → (es : List EventEnvelope) (delivered : List String) (w : W)
      → publish_all publish es delivered w ≡ (ok (delivered ++ ids es), after es w)
  unfolding publish_all
  publish_all-reliable r [] delivered w = ap (λ xs. (ok xs, w)) (sym (append-nil_lem delivered))
  publish_all-reliable r (e ∷ es) delivered w =
      rw (r e w, publish_all)
        (publish_all-reliable r es (delivered ++ e.id ∷ []) (publish e w).1
          ∙ ap (λ xs. (ok xs, after es (publish e w).1))
              (append_assoc_lem delivered (e.id ∷ []) (ids es)))

false_test : (i j : String) → ((j ≡ i) → ⊥) → (j == i) ≡ false
false_test i j n = elim (Bool-cases (j == i)) [ inl t ↦ absurd (n ((eq_iff j i).0 t)) | inr f ↦ f ]

-- What is left unpublished of a list when the identifiers are marked.
abbrev left : List String → List EventEnvelope → List EventEnvelope
left marked = filter (λ e. not (includes marked e.id))

includes-append :
    (xs ys : List String) (a : String) → includes (xs ++ ys) a ≡ (includes xs a || includes ys a)
includes-append [] ys a = refl
includes-append (x ∷ xs) ys a = ground (arith, includes-append xs ys a)

left-append :
    (xs ys : List String) (es : List EventEnvelope) → left (xs ++ ys) es ≡ left ys (left xs es)
left-append xs ys [] = refl
left-append xs ys (e ∷ es) = ground (arith, includes-append xs ys e.id, left-append xs ys es)

left-All :
    (P : EventEnvelope → Type 0) (xs : List String) (es : List EventEnvelope)
    → All P es
    → All P (left xs es)
left-All P xs [] h = tt
left-All P xs (e ∷ es) h = elim (Bool-cases (includes xs e.id)) [
  | inl t ↦ rw t (left-All P xs es h.1)
  | inr f ↦ rw f (h.0, left-All P xs es h.1)
]

left-DistinctIds :
    (xs : List String) (es : List EventEnvelope) → DistinctIds es → DistinctIds (left xs es)
left-DistinctIds xs [] h = tt
left-DistinctIds xs (e ∷ es) h = elim (Bool-cases (includes xs e.id)) [
  | inl t ↦ rw t (left-DistinctIds xs es h.1)
  | inr f ↦ rw f (left-All _ xs es h.0, left-DistinctIds xs es h.1)
]

left-nil : (es : List EventEnvelope) → left [] es ≡ es
left-nil [] = refl
left-nil (e ∷ es) = ap (◌∷◌ e) (left-nil es)

-- An identifier that no event of the list has takes nothing away.
left-fresh :
    (i : String) (xs : List String) (es : List EventEnvelope)
    → All (λ y. (y.id ≡ i) → ⊥) es
    → left (i ∷ xs) es ≡ left xs es
left-fresh i xs [] h = refl
left-fresh i xs (e ∷ es) h = rw (false_test i e.id h.0) (elim (Bool-cases (includes xs e.id)) [
  | inl t ↦ rw t (left-fresh i xs es h.1)
  | inr f ↦ rw f (ap (◌∷◌ e) (left-fresh i xs es h.1))
])

-- Marking the first `n` of a list of distinct events leaves the others.
left-take :
    (n : ℕ) (es : List EventEnvelope) → DistinctIds es → left (ids (take n es)) es ≡ drop n es
left-take zero es h = left-nil es
left-take (suc n) [] h = refl
left-take (suc n) (e ∷ es) h =
    rw ((eq_iff e.id e.id).1 refl) (left-fresh e.id (ids (take n es)) es h.0 ∙ left-take n es h.1)

abbrev pub rest_of : ℕ → InMemoryOutboxStore → List EventEnvelope
rest_of limit s = drop limit (unpublished s)

pub unpublished-mark :
    (n : ℕ) (s : InMemoryOutboxStore)
    → DistinctIds s.pending
    → unpublished (mark_published (ids (take n (unpublished s))) s) ≡ rest_of n s
unfolding mark_published
unpublished-mark n s h =
    left-append s.published (ids (take n (unpublished s))) s.pending
    ∙ left-take n (unpublished s) (left-DistinctIds s.published s.pending h)

pub unpublished-mark_delivered :
    (xs : List String) (s : InMemoryOutboxStore)
    → unpublished (mark_delivered xs s) ≡ unpublished (mark_published xs s)
unfolding mark_published
unpublished-mark_delivered [] s = rw (append-nil_lem s.published) refl
unpublished-mark_delivered (x ∷ xs) s = refl

pub length-ids : (es : List EventEnvelope) → length (ids es) ≡ length es
length-ids [] = refl
length-ids (e ∷ es) = ap suc (length-ids es)

pub nil_of_length : (es : List EventEnvelope) → length es ≤ 0 → es ≡ []
nil_of_length [] h = refl
nil_of_length (e ∷ es) h = absurd (omega arith)

length-drop-le : (k : ℕ) (es : List EventEnvelope) → length (drop k es) ≤ length es
length-drop-le zero es = omega arith
length-drop-le (suc k) [] = omega arith
length-drop-le (suc k) (e ∷ es) = omega (arith, length-drop-le k es)

pub drop-length :
    (limit n : ℕ) (es : List EventEnvelope)
    → 1 ≤ limit
    → length es ≤ suc n
    → length (drop limit es) ≤ n
drop-length zero n es l b = absurd (omega arith)
drop-length (suc k) n [] l b = omega arith
drop-length (suc k) n (e ∷ es) l b = omega (arith, length-drop-le k es)

pub finish_batch-err :
    {W X : Type 0} (s : InMemoryOutboxStore) (p : Result X (List String) × W) (x : X)
    → (finish_batch s p).0 ≡ err x
    → (p.0 ≡ err x) × ((finish_batch s p).1 ≡ s)
finish_batch-err s (ok ids, w) x h = absurd (cc)
finish_batch-err s (err y, w) x h = (cc, refl)

mark_delivered-pending :
    (xs : List String) (s : InMemoryOutboxStore) → (mark_delivered xs s).pending ≡ s.pending
unfolding mark_published
mark_delivered-pending [] s = refl
mark_delivered-pending (x ∷ xs) s = refl

pub finish_batch-pending :
    {W X : Type 0} (s : InMemoryOutboxStore) (p : Result X (List String) × W)
    → (finish_batch s p).1.pending ≡ s.pending
finish_batch-pending s (ok xs, w) = mark_delivered-pending xs s
finish_batch-pending s (err y, w) = refl
