-- ===== src/Orchestrator.antt =====
-- packages/orchestrator/src: the execution of one work order, and the capability catalog.
pub mod Order
pub mod Json
pub mod Steps
pub mod Execute
pub mod Traces
pub mod Attempts
pub mod Story
pub mod Catalog
pub mod CatalogLaws
pub mod Budgets
pub mod Unaffordable
pub mod Told
