-- ===== src/Controller.antt =====
-- The operator's reconciliation loop (internal/controller).
pub mod Workload
pub mod Idleness
pub mod Failures
pub mod Culling
pub mod Events
pub mod Updates
pub mod Conditions
pub mod Status
pub mod Children
pub mod Reconciler
pub mod Metrics
