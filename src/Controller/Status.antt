-- ===== src/Controller/Status.antt =====
-- The new status of a session (Status in internal/controller/children.go, with GetPod of
-- api/v1alpha1/amaltheasession_children.go). Every reading of the clock is a field of `Readings`,
-- every answer of the API and metrics servers one of `Observations`.
pub mod Laws
pub mod Hibernation
pub mod Reconciled
use amalthea.Prelude.{
  ℕ, String, Bool, false, ◌&&◌, ◌||◌, not, Option, none, some, List, [], ◌∷◌, ◌==◌, ℕ_eq, String_eq,
  if◌then◌else◌, is_some, holds, is_empty, any,
}
use text.Mathlib.Text.{find?}
use amalthea.Time.{Time, ℤ, pos, is_zero, since, less}
use amalthea.Kube.{
  Pod, JobStatus, ContainerStatus, ContainerMetrics, Event, Answer, ok, err, ClientError,
}
use amalthea.Api.{
  AmaltheaSession, Status, State, State_eq, running, failed, hibernated, succeeded, SessionType,
  interactive, non_interactive, is_non_interactive, session_container_name, no_containers,
  ContainerCounts,
}
use amalthea.Controller.Workload.{container_counts}
use amalthea.Controller.Idleness.{get_idle_state}
use amalthea.Controller.Culling.{calculate_hibernation_date}
use amalthea.Controller.Events.{check_events_infered_state}
use amalthea.Controller.Updates.{ChildResourceUpdates, state, warning_message, status_callback}
use amalthea.Controller.Conditions.{conditions}

pub record Readings : Type 0 where
  pub scheduling_wait : Time
  pub scheduling_start : Time
  pub container_age : Time
  pub idle_start : Time
  pub job_done : Time
  pub hibernation_start : Time
  pub failure_start : Time
  pub condition_change : Time

pub record Observations : Type 0 where
  pub pods_of_job : Answer (List Pod)
  pub pod : Answer Pod
  pub job : Answer JobStatus
  pub pod_events : Answer (List Event)
  pub stateful_set_events : Answer (List Event)
  pub metrics : Option (List (List ContainerMetrics))
  pub ingress_found : Bool
  pub url : String  -- `cr.GetURLString()`

-- The pod of a job is found by a label, that of a stateful set by its name.
get_pod_as : SessionType → Answer (List Pod) → Answer Pod → Answer (Option Pod)
get_pod_as non_interactive (err e) pod = err e
get_pod_as non_interactive (ok []) pod = ok none
get_pod_as non_interactive (ok (p ∷ [])) pod = ok (some p)
get_pod_as non_interactive (ok (p ∷ q ∷ rest)) pod =
    err (record { message = "more than one pod found for job"; not_found = false })
get_pod_as interactive pods (err e) = err e
get_pod_as interactive pods (ok p) = ok (some p)

unfoldable pub get_pod : AmaltheaSession → Observations → Answer (Option Pod)
unfolding get_pod_as
get_pod cr o = get_pod_as cr.spec.session_type o.pods_of_job o.pod

-- An object that could not be read is taken not to be there.
or_nothing : {A : Type 0} → Answer (Option A) → Option A
or_nothing (err e) = none
or_nothing (ok o) = o

found : {A : Type 0} → Answer A → Option A
found (err e) = none
found (ok a) = some a

abbrev pub fresh_container_minimal_age : ℕ
fresh_container_minimal_age = 15_000_000_000

-- The session's container has been running for a while.
old_enough : Time → List ContainerStatus → Bool
old_enough now [] = false
old_enough now (c ∷ cs) =
    if c.name == session_container_name
    then holds c.state.running
        (λ start. not (less (since now start) (pos fresh_container_minimal_age)))
    else old_enough now cs

quota_exceeded : Answer (List Event) → Bool
quota_exceeded (err e) = false
quota_exceeded (ok events) =
    any (λ e. e.reason == "FailedCreate" && is_some (find? e.message "exceeded quota")) events

abbrev quota_message : String
quota_message =
    "Quota exceeded: Your resource pool does not contain enough free resources (CPU / Memory / GPU / Storage) to schedule the session"

-- What is found out of the state: the state itself, its message, and the idleness.
pub record Findings : Type 0 where
  pub state : State
  pub message : String
  pub idle : Bool
  pub idle_since : Time

idle_state : Readings → Observations → AmaltheaSession → State → Pod → Time × Bool
unfolding old_enough
idle_state r o cr s pod =
    if s == running && old_enough r.container_age pod.container_statuses
    then get_idle_state r.idle_start o.metrics (some cr)
    else (cr.status.idle_since, false)

is_done : State → Bool
is_done s = s == succeeded || s == failed

-- Which of its states leave a job idle, and since when.
job_idle_state : Time → SessionType → State → Time × Bool → Time × Bool
unfolding is_done
job_idle_state now interactive s i = i
job_idle_state now non_interactive s (since, idle) =
    (if is_done s && is_zero since then now else since, idle || is_done s)

findings : Readings → Observations → AmaltheaSession → State → String → Option Pod → Findings
unfolding idle_state job_idle_state quota_exceeded
findings r o cr s msg (some pod) =
    let (since, idle) =
      job_idle_state r.job_done cr.spec.session_type s (idle_state r o cr s pod) in
    record { state = s; message = msg; idle = idle; idle_since = since }
findings r o cr s msg none =
    let exceeded = quota_exceeded o.stateful_set_events in
    record {
      state = if exceeded then failed else s;
      message = if exceeded then quota_message else msg;
      idle = false;
      idle_since = cr.status.idle_since;
    }

-- Since when something holds that holds now or does not.
unfoldable pub since_when : Time → Bool → Time → Time
since_when now holds_now before = if holds_now then if is_zero before then now else before else 0

counts_of : Bool → Option Pod → ContainerCounts × ContainerCounts
counts_of emptied pod =
    let (inits, counts) = container_counts pod in
    if emptied then (record inits { ready = 0 }, record counts { ready = 0 }) else (inits, counts)

error_of : String → String → String
error_of message warning = if is_empty message then warning else message

or_message : Option String → String → String
or_message none msg = msg
or_message (some e) msg = e

module _ {V : Type 0} (quote : String → String)
    (sort_events : (Event → Event → Bool) → List Event → List Event) where
  -- The status before the callbacks of the child resources.
  unfoldable pub derived_status :
      Readings → Observations → AmaltheaSession → ChildResourceUpdates V → Status
  unfolding findings since_when counts_of error_of or_nothing found or_message
  derived_status r o cr c =
      let pod = or_nothing (get_pod cr o) in
      let (s, msg) = state quote c cr pod (found o.job) in
      let (failing_scheduling, s', e) =
        check_events_infered_state sort_events r.scheduling_wait r.scheduling_start cr s
          o.pod_events in
      let f = findings r o cr s' (or_message e msg) pod in
      let (inits, counts) =
        counts_of (f.state == hibernated || is_some cr.deletion_timestamp) pod in
      record {
        conditions = conditions r.condition_change f.state cr o.ingress_found;
        state = f.state;
        url = o.url;
        container_counts = counts;
        init_container_counts = inits;
        idle = f.idle;
        idle_since = f.idle_since;
        failing_since = since_when r.failure_start (f.state == failed) cr.status.failing_since;
        failed_scheduling_since =
            if f.state == hibernated || f.state == running || f.state == succeeded
            then 0
            else failing_scheduling;
        hibernated_since =
            since_when r.hibernation_start cr.spec.hibernated cr.status.hibernated_since;
        will_hibernate_at =
            calculate_hibernation_date cr.creation_timestamp cr.status cr.spec.culling;
        run_id = cr.status.run_id;
        error = error_of f.message (warning_message pod);
      }

  unfoldable pub status :
      Readings → Observations → AmaltheaSession → ChildResourceUpdates V → Status
  unfolding derived_status
  status r o cr c = status_callback c (derived_status r o cr c)
