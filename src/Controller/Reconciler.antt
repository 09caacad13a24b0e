-- ===== src/Controller/Reconciler.antt =====
-- The reconciliation of a session (internal/controller/amaltheasession_controller.go): Reconcile's
-- inner function with all its calls of the API server. `World` answers them; each answer may depend
-- on all the calls that were made before, so other writers are allowed for.
pub mod Calls
pub mod Session
pub mod Steps
