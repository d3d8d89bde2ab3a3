-- ===== src/Worker/Rows.antt =====
-- apps/worker/src/outbox-store.ts: the outbox on the rows of the table `events`. The casts of the
-- source change no value.
use donnav.Common.{
  ℕ, String, Bool, true, false, List, [], ◌∷◌, ◌≡◌, Option, none, some, refl, map, take, filter,
  includes, string_eq, if◌then◌else◌,
}
use donnav.Common.Int.{ℤ, sub_ℕ}
use donnav.Common.Sort.{sort_by}
use donnav.Domain.Events.{EventEnvelope}
use donnav.Db.{EventRow, event_envelope_to_row}

unfoldable pub row_to_envelope : EventRow → EventEnvelope
row_to_envelope row = record {
  id = row.id;
  type = row.type;
  organization_id = row.organization_id;
  objective_id = row.objective_id;
  task_id = row.task_id;
  actor = record { type = row.actor_type; id = row.actor_id };
  correlation_id = row.correlation_id;
  causation_id = row.causation_id;
  payload_ref = row.payload_ref;
  created_at = row.created_at;
}

abbrev is_null : Option ℕ → Bool
is_null none = true
is_null (some _) = false

-- `orderBy(asc(createdAt))`; rows of the same time stand in the order of the table here.
abbrev by_created : EventRow → EventRow → ℤ
by_created a b = sub_ℕ a.created_at b.created_at

-- `DrizzleOutboxStore.fetchUnpublished`, on the rows of the table.
unfoldable pub fetch_unpublished : ℕ → List EventRow → List EventEnvelope
fetch_unpublished limit rows =
    map row_to_envelope
      (take limit (sort_by by_created (filter (λ r. is_null r.dispatched_at) rows)))

-- `set({ dispatchedAt })` where the identifier is among those given.
abbrev pub mark_row : List String → ℕ → EventRow → EventRow
mark_row ids now row = if includes ids row.id then record row { dispatched_at = some now } else row

-- `DrizzleOutboxStore.markPublished`, with the time of the update.
unfoldable pub mark_published : List String → ℕ → List EventRow → List EventRow
mark_published [] now rows = rows
mark_published (id ∷ ids) now rows = map (mark_row (id ∷ ids) now) rows

-- An event is read from the table as it was written, and as not yet dispatched.
pub row_to_envelope-event_envelope_to_row :
    (e : EventEnvelope)
    → (row_to_envelope (event_envelope_to_row e) ≡ e)
      × ((event_envelope_to_row e).dispatched_at ≡ none)
unfolding row_to_envelope event_envelope_to_row
row_to_envelope-event_envelope_to_row e = (refl, refl)
