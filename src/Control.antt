-- ===== src/Control.antt =====
-- apps/control-plane: objectives and tasks from a request to the tables and the job queue.
pub mod Mappers
pub mod MapperLaws
pub mod Postgres
pub mod Queue
pub mod Dispatch
pub mod Objectives
pub mod ObjectiveLaws
pub mod Tasks
pub mod Requests
pub mod Server
pub mod ServerLaws
pub mod Startup
pub mod StartupLaws
