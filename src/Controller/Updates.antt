-- ===== src/Controller/Updates.antt =====
-- What became of the child resources of a session, and the state that follows from it
-- (ChildResourceUpdates in internal/controller/children.go).
pub mod Laws
use amalthea.Prelude.{
  String, ◌<>◌, Bool, ◌&&◌, ◌||◌, not, Option, none, some, List, [], ◌∷◌, ◌++◌, ◌==◌, ℕ_eq,
  String_eq, if◌then◌else◌, is_some, holds, is_empty, all, StringMap, insert,
}
use amalthea.Kube.{Pod, JobStatus, StatefulSet, Job, Pvc, Service, Ingress, Secret, Condition}
use amalthea.Api.{
  State_eq, running_degraded, AmaltheaSession, Status, State, running, failed, hibernated,
  not_ready, succeeded,
}
use amalthea.Controller.Workload.{pod_is_ready, pod_is_completed, job_is_success}
use amalthea.Controller.Failures.{
  first_message, pod_failure_reason, pvc_failure_reason, service_failure_reason,
  ingress_failure_reason, job_failure_reason,
}

pub record ChildResourceUpdate (T : Type 0) : Type 0 where
  pub manifest : Option T
  pub update_result : String
  pub error : Option String
  pub status_callback : Option (Status → Status)

-- `ChildResourceUpdate[T]{}`
abbrev pub no_update : {T : Type 0} → ChildResourceUpdate T
no_update = record { manifest = none; update_result = ""; error = none; status_callback = none }

pub record ChildResourceUpdates (V : Type 0) : Type 0 where
  pub ingress : ChildResourceUpdate (Ingress V)
  pub service : ChildResourceUpdate (Service V)
  pub stateful_set : ChildResourceUpdate (StatefulSet V)
  pub pvc : ChildResourceUpdate (Pvc V)
  pub data_sources_pvcs : List (ChildResourceUpdate (Pvc V))
  pub secret : ChildResourceUpdate Secret
  pub job : ChildResourceUpdate (Job V)

unfoldable pub warning_message : Option Pod → String
warning_message none = ""
warning_message (some pod) = unschedulable pod.conditions
  where
    unschedulable : List Condition → String
    unschedulable [] = ""
    unschedulable (c ∷ cs) =
        if c.reason == "Unschedulable"
        then "the session cannot be scheduled due to: "
          <> (c.message <> ". Please contact an administrator.")
        else unschedulable cs

unfoldable pub apply_callback : Option (Status → Status) → Status → Status
apply_callback none s = s
apply_callback (some f) s = f s

named_error : String → Option String → StringMap String
named_error name none = []
named_error name (some e) = (name, e) ∷ []

join_errors : StringMap String → String
join_errors [] = ""
join_errors ((name, e) ∷ []) = name <> (": " <> e)
join_errors ((name, e) ∷ x ∷ rest) = (name <> (": " <> e)) <> (", " <> join_errors (x ∷ rest))

-- The cases of the `switch` of `State`, in their order.
state_switch : Bool → Bool → Bool → Bool → Bool → String → State × String
state_switch deleting asleep healthy running_now done msg =
    if deleting
    then (not_ready, "")
    else if asleep
    then (hibernated, "")
    else if not healthy
    then (failed, msg)
    else if running_now
    then (running, "")
    else if done
    then (succeeded, "")
    else (not_ready, "")

module _ {V : Type 0} where
  unfoldable pub all_equal : ChildResourceUpdates V → String → Bool
  all_equal c op =
      (not (is_some c.ingress.manifest) || c.ingress.update_result == op)
      && c.service.update_result == op
      && c.pvc.update_result == op
      && c.stateful_set.update_result == op
      && all (λ ds. ds.update_result == op) c.data_sources_pvcs
      && c.secret.update_result == op

  unfoldable pub stateful_set_ready : Option (StatefulSet V) → Bool
  stateful_set_ready m = holds m (λ s. s.ready_replicas == 1 && s.status_replicas == 1)

  unfoldable pub job_ready : Option (Job V) → Bool
  job_ready m = holds m (λ j. holds j.status.ready (λ n. n == 1) || j.status.active == 1)

  unfoldable pub is_running : ChildResourceUpdates V → Option Pod → Bool
  unfolding stateful_set_ready job_ready
  is_running c pod =
      (stateful_set_ready c.stateful_set.manifest || job_ready c.job.manifest)
      && is_some pod
      && pod_is_ready pod

  -- The stateful set is scaled to zero, or the job is suspended.
  unfoldable pub is_scaled_down : ChildResourceUpdates V → Bool
  is_scaled_down c =
      holds c.stateful_set.manifest (λ s. holds s.spec.replicas (λ n. n == 0))
      || holds c.job.manifest (λ j. holds j.spec.suspend (λ b. b))

  pvc_reasons : (String → String) → List (ChildResourceUpdate (Pvc V)) → List String
  pvc_reasons quote [] = []
  pvc_reasons quote (u ∷ us) = pvc_failure_reason quote u.manifest ∷ pvc_reasons quote us

  unfoldable pub failure_message :
      (String → String) → ChildResourceUpdates V → Option Pod → Option JobStatus → String
  unfolding first_message pvc_reasons
  failure_message quote c pod job = first_message (
      pod_failure_reason quote pod
      ∷ pvc_failure_reason quote c.pvc.manifest
      ∷ (pvc_reasons quote c.data_sources_pvcs
          ++ (service_failure_reason c.service.manifest
              ∷ ingress_failure_reason c.ingress.manifest
              ∷ job_failure_reason job
              ∷ [])))

  unfoldable pub state :
      (String → String)
      → ChildResourceUpdates V
      → AmaltheaSession
      → Option Pod
      → Option JobStatus
      → State × String
  unfolding state_switch
  state quote c cr pod job =
      let msg = failure_message quote c pod job in
      state_switch (is_some cr.deletion_timestamp) (cr.spec.hibernated && is_scaled_down c)
        (is_empty msg) (is_running c pod) (pod_is_completed pod || job_is_success job) msg

  apply_callbacks : List (ChildResourceUpdate (Pvc V)) → Status → Status
  unfolding apply_callback
  apply_callbacks [] s = s
  apply_callbacks (u ∷ us) s = apply_callbacks us (apply_callback u.status_callback s)

  -- The callbacks in their order. The job's is not among them.
  unfoldable pub status_callback : ChildResourceUpdates V → Status → Status
  unfolding apply_callback apply_callbacks
  status_callback c s =
      let s₁ = apply_callback c.ingress.status_callback s in
      let s₂ = apply_callback c.service.status_callback s₁ in
      let s₃ = apply_callback c.secret.status_callback s₂ in
      let s₄ = apply_callback c.pvc.status_callback s₃ in
      let s₅ = apply_callbacks c.data_sources_pvcs s₄ in
      apply_callback c.stateful_set.status_callback s₅

  -- The errors by the names of the resources, in a fixed order, where Go's map has none. The job's
  -- is not among them. An update with an error has a manifest: only a child that the session does
  -- not have gives none, and then no error.
  pvc_errors : List (ChildResourceUpdate (Pvc V)) → StringMap String → StringMap String
  pvc_errors [] errors = errors
  pvc_errors (u ∷ us) errors = pvc_errors us (add_error u.manifest u.error errors)
    where
      add_error : Option (Pvc V) → Option String → StringMap String → StringMap String
      add_error m none es = es
      add_error none (some e) es = insert "DataSourcesPVCs/" e es
      add_error (some pvc) (some e) es = insert ("DataSourcesPVCs/" <> pvc.metadata.name) e es

  unfoldable pub child_errors : ChildResourceUpdates V → StringMap String
  unfolding named_error pvc_errors
  child_errors c = pvc_errors c.data_sources_pvcs (
      named_error "Ingress" c.ingress.error
      ++ (named_error "Service" c.service.error
          ++ (named_error "PVC" c.pvc.error
              ++ (named_error "StatefulSet" c.stateful_set.error
                  ++ named_error "Secret" c.secret.error))))

  unfoldable pub combine_errors : ChildResourceUpdates V → Option String
  unfolding child_errors join_errors
  combine_errors c = elim (child_errors c) [
    | [] ↦ none
    | x ∷ rest ↦ some ("error in reconciling children " <> join_errors (x ∷ rest))
  ]
