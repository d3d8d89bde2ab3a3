-- ===== src/Scenarios.antt =====
-- Concrete inputs, and each result at one of them.
pub mod Domain
pub mod Policy
pub mod Routing
pub mod Packets
pub mod Events
pub mod Orders
pub mod Commits
pub mod Payloads
pub mod Catalogs
pub mod Budgets
pub mod Nested
pub mod Journeys
pub mod Services
pub mod Accounts
pub mod Models
pub mod Requests
