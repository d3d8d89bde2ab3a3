-- ===== src/Domain.antt =====
-- packages/core-domain/src: the domain types and the task state machine.
pub mod Values
pub mod Events
pub mod Tasks
pub mod Objectives
pub mod Machine
pub mod Runs
