-- ===== src/Budget.antt =====
-- The work budgets of impact_context/budget.rs and impact_context/index/budget.rs. The two trackers
-- have the same code over two enumerations of resources: `Tracker` is that code, and `Impact` and
-- `Index` give it the limits and the codes of each file.
pub mod Tracker
pub mod Impact
pub mod Index
pub mod Bounds
pub mod Ledger
mod Examples
