-- ===== src/Cost.antt =====
-- packages/cost-governor/src: budgets, cost estimates, the usage ledger and its summaries.
pub mod Budget
pub mod Ledger
pub mod Summary
