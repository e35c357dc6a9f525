-- ===== src/Workflows.antt =====
-- src/phera/modules/workflows: workflows that outbox events start.
pub mod Matching
pub mod Nodes
pub mod Engine
