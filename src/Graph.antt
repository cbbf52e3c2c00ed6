-- ===== src/Graph.antt =====
-- The repository graph of impact_context: its model, the traversal and the overlay.
pub mod Model
pub mod Limitations
pub mod Traversal
pub mod Overlay
