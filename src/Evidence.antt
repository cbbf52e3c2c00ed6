-- ===== src/Evidence.antt =====
-- The union of static analysis evidence: static_analysis/contracts.rs and
-- static_analysis/evidence_union.rs.
pub mod Contracts
pub mod Rename
pub mod Union
pub mod Validate
mod Examples
