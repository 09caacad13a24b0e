-- ===== src/Controller/Reconciler/Steps/Changes.antt =====
-- When the status of a session counts as changed (reconcileInner in
-- internal/controller/amaltheasession_controller.go, and Conditions in internal/controller/children.go).
use amalthea.Prelude.{ℕ_eq, String_eq}
use amalthea.Api.{State_eq}
