-- ===== src/ReviewScope.antt =====
-- The review scope: review_scope.rs. Running git is outside; the parsers take what git printed.
pub mod Hunks
pub mod WorkOrder
pub mod Source
mod Examples
