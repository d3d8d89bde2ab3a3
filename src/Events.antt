-- ===== src/Events.antt =====
-- packages/events/src: building events, the event bus, and the transactional outbox.
pub mod Create
pub mod Bus
pub mod BusLaws
pub mod Outbox
pub mod OutboxLaws
pub mod Marking
