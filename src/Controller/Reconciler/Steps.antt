-- ===== src/Controller/Reconciler/Steps.antt =====
-- reconcileInner and deleteSecrets, step by step.
pub mod Requeue
pub mod Finalizer
pub mod Runs
pub mod Changes
use amalthea.Prelude.{
  String, Bool, false, ◌&&◌, not, Option, none, some, List, [], ◌∷◌, ltb, if◌then◌else◌, is_some,
  length,
}
use amalthea.Time.{Time, is_zero, second}
use amalthea.Kube.{Answer, ok, err, ClientError}
use amalthea.Api.{
  AmaltheaSession, Status, SessionCondition, ConditionType, ready_condition,
  routing_ready_condition, State, State_eq, not_ready, ContainerCounts,
}
use amalthea.Api.Deletion.{needs_deletion}
use amalthea.Api.Secrets.{SecretName, adopted_secrets}
use amalthea.Controller.Culling.{update_hibernation_state}
use amalthea.Controller.Updates.{ChildResourceUpdates}
use amalthea.Controller.Status.{Readings, Observations, status}
use amalthea.Controller.Children.Reconciliation.{ChildResources, ChildClient}
use amalthea.Controller.Children.Reconciliation
use amalthea.Controller.Reconciler.Session.{
  ReconcileResult, finish, requeue_now, requeue_later, secret_cleanup_finalizer_name,
  contains_finalizer, add_finalizer, others, remove_finalizer, counts_eq, condition_type_eq,
  conditions_eq, bool_eq, status_eq, initial_status, with_state, with_run_id, with_status,
  next_run_id, keep_run_id, overwritten, joined,
}
use amalthea.Controller.Reconciler.Calls.{
  Call, delete_secret, reconcile_children, record_metrics, remove_metrics, Log, World, Exec, pure,
  raise, ◌>>=◌, ◌>>◌, or_else_do, call_get, call_update_status, call_update, call_delete, log_call,
}

module _ {V : Type 0} (w : World V) where
  -- All the secrets are tried; the errors are joined, but for those of secrets that are gone.
  unfoldable pub delete_all : List SecretName → Exec (Unit {0})
  unfolding joined
  delete_all [] h = (ok tt, h)
  delete_all (s ∷ rest) h = joined (w.remove_secret h s) (delete_all rest (delete_secret s ∷ h))

  unfoldable pub delete_secrets : AmaltheaSession → Exec (Unit {0})
  unfolding delete_all
  delete_secrets cr = delete_all (adopted_secrets cr)

  -- The first update of the status of a new session.
  first_status : AmaltheaSession → Exec AmaltheaSession
  first_status cr =
      if status_eq cr.status initial_status
      then (do
        cr' ←
            or_else_do
              (call_update_status w (with_status (record cr.status { url = w.session_url cr }) cr))
              (do again ← call_get w; call_update_status w again)
        log_call (record_metrics cr')
        pure cr')
      else pure cr

  ensure_finalizer : AmaltheaSession → Exec AmaltheaSession
  ensure_finalizer cr =
      if ltb 0 (length (adopted_secrets cr)) && not (contains_finalizer cr)
      then call_update w (add_finalizer cr)
      else pure cr

  remove_with_secrets : AmaltheaSession → Exec (Unit {0})
  unfolding delete_secrets
  remove_with_secrets cr =
      if contains_finalizer cr
      then (do delete_secrets cr; call_update w (remove_finalizer cr); pure tt)
      else pure tt

  -- A session that is being deleted.
  unfoldable pub reconcile_deleted : AmaltheaSession → Exec ReconcileResult
  unfolding remove_with_secrets
  reconcile_deleted cr = do
    cr' ←
        or_else_do (call_update_status w (with_state not_ready cr))
          (do again ← call_get w; call_update_status w (with_state not_ready again))
    remove_with_secrets cr'
    pure requeue_now

  reconcile_updates : AmaltheaSession → Exec (ChildResourceUpdates V)
  reconcile_updates cr h =
      let children = w.new_children cr in
      let make : Exec (ChildResources V) = λ h'. (children, h') in
      (do c ← make; log_call (reconcile_children cr); check c) h
    where
      outcome : ChildResourceUpdates V × Option String → Exec (ChildResourceUpdates V)
      outcome (u, none) = pure u
      outcome (u, some e) = raise (record { message = e; not_found = false })

      check : ChildResources V → Exec (ChildResourceUpdates V)
      check c h' =
          outcome (Reconciliation.reconcile_children (w.child_client h') (w.clock h') cr c) h'

  -- The status is sent; if that fails, it is sent for the session as it is by then.
  send_status : Status → AmaltheaSession → Exec AmaltheaSession
  send_status new cr =
      or_else_do (call_update_status w (with_status new cr))
        (do again ← call_get w; call_update_status w (with_status (keep_run_id new again) again))

  hibernate : AmaltheaSession → Exec (Unit {0})
  hibernate cr h =
      let (cr', sent) = update_hibernation_state (w.clock h) cr in
      if sent then (call_update w cr' >> pure tt) h else (ok tt, h)

  -- What follows the update of the status.
  conclude : Bool → AmaltheaSession → Exec ReconcileResult
  unfolding hibernate
  conclude changed cr h =
      if needs_deletion (w.clock h) cr
      then (do log_call (remove_metrics cr); call_delete w cr; pure finish) h
      else (do hibernate cr; pure (if changed then requeue_now else requeue_later)) h

  new_status : AmaltheaSession → ChildResourceUpdates V → Exec Status
  new_status cr updates h =
      (ok (status w.quote w.sort_events (w.readings h) (w.observations h cr) cr updates), h)

  unfoldable pub reconcile_live : AmaltheaSession → Exec ReconcileResult
  unfolding reconcile_updates send_status conclude new_status
  reconcile_live cr = do
    cr' ← run
    updates ← reconcile_updates cr'
    new ← new_status cr' updates
    let changed = not (status_eq (overwritten cr'.status new) new)
    sent ← send_status new cr'
    log_call (record_metrics sent)
    conclude changed sent
    where
      run : Exec AmaltheaSession
      run h = (ok (with_run_id (next_run_id (w.new_run_id h) cr) cr), h)

  reconcile_found : AmaltheaSession → Exec ReconcileResult
  unfolding first_status ensure_finalizer reconcile_deleted reconcile_live
  reconcile_found cr =
      if is_some cr.deletion_timestamp
      then reconcile_deleted cr
      else (do started ← first_status cr; kept ← ensure_finalizer started; reconcile_live kept)

  got : Answer AmaltheaSession → Exec ReconcileResult
  unfolding reconcile_found
  got (ok cr) = reconcile_found cr
  got (err e) = if e.not_found then pure finish else raise e

  unfoldable pub reconcile_inner : Exec ReconcileResult
  unfolding got
  reconcile_inner h = let (answer, h') = call_get w h in got answer h'
