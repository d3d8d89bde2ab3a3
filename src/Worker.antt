-- ===== src/Worker.antt =====
-- apps/worker/src and packages/db/src: the durable side of an execution.
pub mod Rows
pub mod TaskState
pub mod TaskLaws
pub mod Deliveries
pub mod Payload
pub mod PayloadLaws
pub mod ParsedOrders
pub mod Casts
pub mod RoundTrip
pub mod Handler
pub mod HandlerLaws
pub mod Models
pub mod ModelLaws
pub mod Capabilities
