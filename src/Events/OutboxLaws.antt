-- ===== src/Events/OutboxLaws.antt =====
-- What the dispatcher of packages/events/src/outbox.ts delivers.
use donnav.Common.{
  ℕ, zero, suc, List, [], ◌∷◌, ◌++◌, ◌≡◌, inl, inr, ◌≤◌, String, Result, ok, err, string_eq, length,
  take, refl, sym, ap, subst, ◌∙◌, arith, Result-cases,
}
use donnav.Domain.Events.{EventEnvelope}
use donnav.Events.Outbox.{
  InMemoryOutboxStore, unpublished, fetch_unpublished, publish_all, dispatch_batch,
}
use donnav.Events.Marking.{
  drop, DistinctIds, ids, Reliable, after, publish_all-reliable, unpublished-mark,
  unpublished-mark_delivered, length-ids, nil_of_length, drop-length, finish_batch-err,
  finish_batch-pending,
}

module _ {W X : Type 0} (publish : EventEnvelope → W → Result X (Unit {0}) × W) where
  -- Over a bus that accepts every event, and where no two events of the store share an identifier,
  -- a batch publishes the oldest unpublished events up to the limit, in order, and returns their
  -- number; afterwards the others are unpublished, in order.
  pub dispatch_batch-delivers :
      (limit : ℕ) (s : InMemoryOutboxStore) (w : W)
      → Reliable publish
      → DistinctIds s.pending
      → let batch = take limit (unpublished s) in
        let (result, s', w') = dispatch_batch publish limit s w in
        (result ≡ ok (length batch))
        × (w' ≡ after publish batch w)
        × (unpublished s' ≡ drop limit (unpublished s))
  unfolding dispatch_batch fetch_unpublished
  dispatch_batch-delivers limit s w r h =
      rw (publish_all-reliable publish r (take limit (unpublished s)) [] w) (
        ap ok (length-ids (take limit (unpublished s))),
        refl,
        unpublished-mark_delivered (ids (take limit (unpublished s))) s
            ∙ unpublished-mark limit s h,
      )

  publish_all-fails :
      (es : List EventEnvelope) (delivered : List String) (w : W) (x : X)
      → (publish_all publish es delivered w).0 ≡ err x
      → (done : List EventEnvelope) × (e : EventEnvelope) × (rest : List EventEnvelope) × (es
          ≡ done ++ e ∷ rest)
        × ((publish e (after publish done w)).0 ≡ err x)
  unfolding publish_all
  publish_all-fails [] delivered w x h = absurd (ground arith)
  publish_all-fails (e ∷ es) delivered w x h = elim (Result-cases (publish e w).0) [
    | inl (u, p) ↦
        let next =
          publish_all-fails es (delivered ++ e.id ∷ []) (publish e w).1 x
            (rw (p, publish_all) at h) in
        (e ∷ next.0, next.1, next.2, ap (◌∷◌ e) next.3, next.4)
    | inr (y, p) ↦ let q = rw (p, publish_all) at h in ([], e, es, refl, cc)
  ]

  -- A batch ends with an error only because the bus refused some event that it fetched, after it
  -- had accepted those before. Then nothing is marked: every event that was unpublished still is,
  -- also those that the batch has delivered, so they are delivered again.
  pub dispatch_batch-fails :
      (limit : ℕ) (s : InMemoryOutboxStore) (w : W) (x : X)
      → (dispatch_batch publish limit s w).0 ≡ err x
      → ((dispatch_batch publish limit s w).1 ≡ s)
        × ((done : List EventEnvelope) × (e : EventEnvelope) × (rest : List EventEnvelope)
            × (fetch_unpublished limit s ≡ done ++ e ∷ rest)
            × ((publish e (after publish done w)).0 ≡ err x))
  unfolding dispatch_batch
  dispatch_batch-fails limit s w x h =
      let (failed, kept) =
        finish_batch-err s (publish_all publish (fetch_unpublished limit s) [] w) x h in
      (kept, publish_all-fails (fetch_unpublished limit s) [] w x failed)

  -- `n` batches, one after the other, whatever they return.
  abbrev pub batches : ℕ → ℕ → InMemoryOutboxStore → W → InMemoryOutboxStore × W
  batches zero limit s w = (s, w)
  batches (suc n) limit s w = let t = dispatch_batch publish limit s w in batches n limit t.1 t.2

  after-take-drop :
      (k : ℕ) (es : List EventEnvelope) (w : W)
      → after publish (drop k es) (after publish (take k es) w) ≡ after publish es w
  after-take-drop zero es w = refl
  after-take-drop (suc k) [] w = refl
  after-take-drop (suc k) (e ∷ es) w = after-take-drop k es (publish e w).1

  dispatch_batch-pending :
      (limit : ℕ) (s : InMemoryOutboxStore) (w : W)
      → (dispatch_batch publish limit s w).1.pending ≡ s.pending
  unfolding dispatch_batch
  dispatch_batch-pending limit s w =
      finish_batch-pending s (publish_all publish (fetch_unpublished limit s) [] w)

  -- Over a bus that accepts every event, and where no two events of the store share an identifier,
  -- as many batches of at least one event as there are unpublished events publish them all, each
  -- once and in order, and leave none.
  pub batches-drain :
      (n limit : ℕ) (s : InMemoryOutboxStore) (w : W)
      → Reliable publish
      → DistinctIds s.pending
      → 1 ≤ limit
      → length (unpublished s) ≤ n
      → (unpublished (batches n limit s w).0 ≡ [])
        × ((batches n limit s w).1 ≡ after publish (unpublished s) w)
  batches-drain zero limit s w r h l b =
      let e = nil_of_length (unpublished s) (omega arith) in (e, rw e refl)
  batches-drain (suc n) limit s w r h l b =
      let t = dispatch_batch publish limit s w in
      let (counted, moved, left_over) = dispatch_batch-delivers limit s w r h in
      let (none_left, all_done) =
        batches-drain n limit t.1 t.2 r
          (subst DistinctIds (sym (dispatch_batch-pending limit s w)) h) l
          (rw left_over (drop-length limit n (unpublished s) l b)) in
      (none_left, all_done ∙ rw (left_over, moved) (after-take-drop limit (unpublished s) w))
