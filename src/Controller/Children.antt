-- ===== src/Controller/Children.antt =====
-- How a child resource is brought to its desired form (ChildResource.Reconcile and
-- ChildResources.Reconcile in internal/controller/children.go). controller-runtime's CreateOrPatch
-- and SetControllerReference, and the deletion by the API server, are parameters.
pub mod Labels
pub mod Mutations
pub mod Reconciliation
