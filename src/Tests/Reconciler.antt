-- ===== src/Tests/Reconciler.antt =====
-- What the theorems on the passes of the reconciler say of a concrete world.
use amalthea.Prelude.{String, ◌≡◌, refl, ◌⊎◌, true, none, [], ◌∷◌, ℕ_eq, String_eq, if◌then◌else◌}
use amalthea.Kube.{ok, err, ClientError}
use amalthea.Api.{not_ready}
use amalthea.Api.Secrets.{adopted_secrets}
use amalthea.Controller.Reconciler.Calls.{update_status, update, World}
use amalthea.Controller.Reconciler.Session.{
  requeue_now, with_state, contains_finalizer, remove_finalizer,
}
use amalthea.Controller.Reconciler.Steps.{reconcile_deleted, reconcile_inner}
use amalthea.Controller.Reconciler.Steps.Finalizer.{
  tried, all_gone, is_ok, reconcile_deleted-removes_secrets,
}
use amalthea.Controller.Reconciler.Steps.Requeue.{IsScheduled, reconcile_inner-IsScheduled}
use amalthea.Api.{Status}
use amalthea.Tests.Fixtures.{
  a_deleted_session, a_status, a_condition, keep_order, quoted, some_readings, some_observations,
}
use amalthea.Tests.Objects.{a_client, some_children}

-- The session is being deleted, and the server does all it is asked to.
abbrev a_world : World String
a_world = record {
  get_session = λ h. ok a_deleted_session;
  update_session_status = λ h cr. ok cr;
  update_session = λ h cr. ok cr;
  delete_session = λ h cr. none;
  remove_secret = λ h s. none;
  new_children = λ cr. ok some_children;
  child_client = λ h. a_client;
  new_run_id = λ h. "01J0000001";
  clock = λ h. 9_000;
  readings = λ h. some_readings;
  observations = λ h cr. some_observations;
  session_url = λ cr. "https://example.org/session/";
  quote = quoted;
  sort_events = keep_order;
}

reconcile_deleted-removes_secrets_example :
    let cr' = with_state not_ready a_deleted_session in
    let items = adopted_secrets cr' in
    let before = update_status cr' ∷ [] in
    let (answer, after) = reconcile_deleted a_world a_deleted_session [] in
    (after ≡ (
      if all_gone a_world items before
      then update (remove_finalizer cr') ∷ tried items before
      else tried items before))
    × (is_ok answer ≡ true → all_gone a_world items before ≡ true)
unfolding contains_finalizer with_state
reconcile_deleted-removes_secrets_example =
    reconcile_deleted-removes_secrets a_world a_deleted_session
      (with_state not_ready a_deleted_session) [] refl refl

reconcile_inner-IsScheduled_example :
    let (answer, h') = reconcile_inner a_world [] in
    ((e : ClientError) × (a_world.get_session [] ≡ err e) × (e.not_found ≡ true))
    ⊎ IsScheduled requeue_now h'
unfolding reconcile_inner reconcile_deleted contains_finalizer with_state adopted_secrets
reconcile_inner-IsScheduled_example =
    reconcile_inner-IsScheduled a_world [] (reconcile_inner a_world []).1 requeue_now refl

abbrev a_new_status : Status
a_new_status = record a_status { conditions = record a_condition { status = "True" } ∷ [] }
