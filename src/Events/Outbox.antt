-- ===== src/Events/Outbox.antt =====
-- packages/events/src/outbox.ts: the in-memory outbox store and the dispatcher. The bus is a
-- parameter of the dispatcher: publishing may throw and may change the world.
use donnav.Common.{
  ℕ, List, [], ◌∷◌, ◌++◌, String, Result, ok, err, filter, not, includes, string_eq, length, take,
}
use donnav.Domain.Events.{EventEnvelope}

-- `published` is a set: its order and repetitions are never read.
pub record InMemoryOutboxStore : Type 0 where
  pub pending : List EventEnvelope
  pub published : List String

unfoldable pub enqueue : EventEnvelope → InMemoryOutboxStore → InMemoryOutboxStore
enqueue event s = record s { pending = s.pending ++ event ∷ [] }

abbrev pub unpublished : InMemoryOutboxStore → List EventEnvelope
unpublished s = filter (λ e. not (includes s.published e.id)) s.pending

unfoldable pub fetch_unpublished : ℕ → InMemoryOutboxStore → List EventEnvelope
fetch_unpublished limit s = take limit (unpublished s)

-- `for (const id of ids) this.published.add(id)`
unfoldable pub mark_published : List String → InMemoryOutboxStore → InMemoryOutboxStore
mark_published ids s = record s { published = s.published ++ ids }

unfoldable pub unpublished_count : InMemoryOutboxStore → ℕ
unpublished_count s = length (unpublished s)

-- `if (delivered.length > 0) await this.store.markPublished(delivered)`
abbrev pub mark_delivered : List String → InMemoryOutboxStore → InMemoryOutboxStore
mark_delivered [] s = s
mark_delivered (id ∷ ids) s = mark_published (id ∷ ids) s

abbrev pub finish_batch :
    {W X : Type 0}
    → InMemoryOutboxStore
    → Result X (List String) × W
    → Result X ℕ × InMemoryOutboxStore × W
finish_batch s (ok delivered, w) = (ok (length delivered), mark_delivered delivered s, w)
finish_batch s (err x, w) = (err x, s, w)

module _ {W X : Type 0} (publish : EventEnvelope → W → Result X (Unit {0}) × W) where
  -- The loop of `dispatchBatch`; the result holds the identifiers that were delivered.
  unfoldable pub publish_all : List EventEnvelope → List String → W → Result X (List String) × W
  publish_all [] delivered w = (ok delivered, w)
  publish_all (event ∷ rest) delivered w =
      let (r, w') = publish event w in
      elim r [ ok _ ↦ publish_all rest (delivered ++ event.id ∷ []) w' | err x ↦ (err x, w') ]

  unfoldable pub dispatch_batch : ℕ → InMemoryOutboxStore → W → Result X ℕ × InMemoryOutboxStore × W
  unfolding publish_all
  dispatch_batch limit s w = finish_batch s (publish_all (fetch_unpublished limit s) [] w)
