-- ===== src/Controller/Failures.antt =====
-- Why a child resource fails (internal/controller/children_conditions.go). A failure is a message,
-- and the empty text is no failure. The quoting of Go's verb %q is a parameter.
pub mod Laws
use amalthea.Prelude.{
  String, ◌<>◌, ◌&&◌, ◌||◌, not, Option, none, some, List, [], ◌∷◌, ◌++◌, ltb, ◌==◌, ℕ_eq,
  String_eq, if◌then◌else◌, is_some, holds, is_empty, any, StringMap,
}
use amalthea.Kube.{
  Pod, ContainerStatus, Condition, Terminated, Waiting, JobStatus, Ingress, Service, Pvc,
}

-- The first message of a list that is not empty; the empty text if there is none.
unfoldable pub first_message : List String → String
first_message [] = ""
first_message (m ∷ ms) = if is_empty m then first_message ms else m

-- The error of the first port, in order, that has one.
port_error : List (Option String) → Option String
port_error [] = none
port_error (none ∷ ports) = port_error ports
port_error (some e ∷ ports) = some e

load_balancer_error : List (List (Option String)) → String
unfolding port_error
load_balancer_error [] = ""
load_balancer_error (ports ∷ rest) = error_or (port_error ports) (load_balancer_error rest)
  where
    error_or : Option String → String → String
    error_or none later = later
    error_or (some e) later = e

unfoldable pub ingress_failure_reason : {V : Type 0} → Option (Ingress V) → String
unfolding load_balancer_error
ingress_failure_reason none = ""
ingress_failure_reason (some ing) =
    if is_some ing.metadata.deletion_timestamp then "" else load_balancer_error ing.load_balancer

unfoldable pub service_failure_reason : {V : Type 0} → Option (Service V) → String
unfolding load_balancer_error
service_failure_reason none = ""
service_failure_reason (some svc) =
    if is_some svc.metadata.deletion_timestamp then "" else load_balancer_error svc.load_balancer

job_condition_reason : List Condition → String
job_condition_reason [] = "The job failed."
job_condition_reason (c ∷ cs) =
    if (c.type == "Failed" || c.type == "FailureTarget") && c.status == "True"
    then c.reason <> (": " <> c.message)
    else job_condition_reason cs

unfoldable pub job_failure_reason : Option JobStatus → String
unfolding job_condition_reason
job_failure_reason none = ""
job_failure_reason (some job) = if ltb 0 job.failed then job_condition_reason job.conditions else ""

-- The conditions of a pod: only a disruption is a failure.
pub pod_condition_reason : List Condition → String
pod_condition_reason [] = ""
pod_condition_reason (c ∷ cs) =
    if c.type == "DisruptionTarget" && c.status == "True"
    then if is_empty c.message then c.reason else c.message
    else pod_condition_reason cs

-- A container that waits for its image or for its first start has not failed.
abbrev valid_waiting_reasons : List String
valid_waiting_reasons = "ContainerCreating" ∷ "PodInitializing" ∷ []

module _ (quote : String → String) where
  unfoldable pub handle_bad_waiting_state : String → Waiting → String
  handle_bad_waiting_state name w =
      if w.reason == "ErrImagePull" || w.reason == "ImagePullBackOff"
      then "failure to retrieve image for container " <> (name <> (": " <> w.message))
      else if w.reason == "CrashLoopBackOff"
      then "the command in container "
        <> (name
            <> (" is crashing, this can occur when you run out of disk space, this is the best reason for the crash we could extract: "
                <> quote w.message))
      else if not (is_empty w.message)
      then "the container " <> (name <> (" is failing because " <> w.message))
      else "the container " <> (name <> (" is failing because " <> w.reason))

  terminated_reason : String → Terminated → String
  terminated_reason name t =
      if is_empty t.message
      then "the command in container "
        <> (name
            <> " terminated with an error exit code, this could be because you are running out of disk space")
      else "the container " <> (name <> (" terminated with an error " <> t.message))

  waiting_failure : String → Option Waiting → Option String
  unfolding handle_bad_waiting_state
  waiting_failure name none = none
  waiting_failure name (some w) =
      if any (λ r. r == w.reason) valid_waiting_reasons
      then none
      else some (handle_bad_waiting_state name w)

  terminated_failure : String → Option Terminated → Option String
  unfolding terminated_reason
  terminated_failure name none = none
  terminated_failure name (some t) =
      if t.exit_code == 0 then none else some (terminated_reason name t)

  -- The failure of one container, if it is one. A container that waits is not looked at further.
  unfoldable pub container_failure : ContainerStatus → Option String
  unfolding waiting_failure terminated_failure
  container_failure c =
      if holds c.started (λ b. b) && c.ready
      then none
      else if is_some c.state.waiting
      then waiting_failure c.name c.state.waiting
      else terminated_failure c.name c.state.terminated

  containers_reason : List ContainerStatus → String → String
  unfolding container_failure
  containers_reason [] otherwise = otherwise
  containers_reason (c ∷ cs) otherwise =
      or_next (container_failure c) (containers_reason cs otherwise)
    where
      or_next : Option String → String → String
      or_next none next = next
      or_next (some m) next = m

  unfoldable pub pod_failure_reason : Option Pod → String
  unfolding containers_reason pod_condition_reason
  pod_failure_reason none = ""
  pod_failure_reason (some pod) =
      if is_some pod.deletion_timestamp
      then ""
      else containers_reason (pod.init_container_statuses ++ pod.container_statuses)
          (pod_condition_reason pod.conditions)

  resize_failure : String → StringMap String → Option String
  resize_failure name [] = none
  resize_failure name ((resource, status) ∷ rest) =
      if status == "NodeResizeInfeasible" || status == "ControllerResizeInfeasible"
      then some (
          "the PVC "
          <> (quote name
              <> (" failed with status " <> (quote status <> (" for resource " <> resource)))))
      else resize_failure name rest

  pvc_condition_reason : List Condition → String
  pvc_condition_reason [] = ""
  pvc_condition_reason (c ∷ cs) =
      if (c.type == "Resizing" || c.type == "FileSystemResizePending") && c.status == "False"
      then c.message
      else pvc_condition_reason cs

  unfoldable pub pvc_failure_reason : {V : Type 0} → Option (Pvc V) → String
  unfolding resize_failure pvc_condition_reason
  pvc_failure_reason none = ""
  pvc_failure_reason (some pvc) =
      if is_some pvc.metadata.deletion_timestamp
      then ""
      else if pvc.phase == "Bound"
      then ""
      else elim (resize_failure pvc.metadata.name pvc.allocated_resource_statuses) [
        | some m ↦ m
        | none ↦ pvc_condition_reason pvc.conditions
      ]
