-- ===== src/Tests/Controller.antt =====
-- What the theorems on the status of a session say of concrete sessions.
use amalthea.Prelude.{
  ◌+◌, map, ◌≤◌, ◌<◌, String, ◌≡◌, refl, inr, true, false, ◌&&◌, ◌||◌, not, Option, none, some,
  List, [], ◌∷◌, arith, ltb, ◌==◌, ℕ_eq, String_eq, is_some, holds, is_empty, all, All,
}
use amalthea.Time.{Time, is_zero, less, pos}
use amalthea.Kube.{Job, ContainerMetrics, ContainerStatus}
use amalthea.Api.{
  AmaltheaSession, is_non_interactive, State_eq, running, failed, hibernated, not_ready,
  running_degraded, succeeded,
}
use amalthea.Controller.Workload.{pod_is_completed, job_is_success}
use amalthea.Controller.Idleness.{get_idle_state, cpu_usage, get_idle_state_lem}
use amalthea.Controller.Failures.{pod_failure_reason}
use amalthea.Controller.Culling.{
  calculate_hibernation_date, update_hibernation_state, update_hibernation_state_lem,
}
use amalthea.Controller.Culling.Dates.{IsDue, calculate_hibernation_date_lem}
use amalthea.Controller.Events.{max_wait_for_clear_failed_scheduling}
use amalthea.Controller.Updates.{
  ChildResourceUpdate, state, failure_message, is_scaled_down, is_running, status_callback,
  combine_errors,
}
use amalthea.Controller.Updates.Laws.{state_lem, IsFirst, reasons, job_update_ignored}
use amalthea.Controller.Conditions.{
  conditions, IsCurrent, IsDecided, types_after, conditions-IsSettled,
}
use amalthea.Controller.Children.Mutations.{hibernating}
use amalthea.Tests.Fixtures.{a_session, a_status, a_culling, a_pod, quoted, no_updates, day}
use amalthea.Tests.Objects.{a_job}

-- A proxy that runs beside the session's container.
abbrev a_sidecar : ContainerStatus
a_sidecar = record {
  name = "proxy";
  ready = true;
  started = some true;
  state = record { waiting = none; running = some 400; terminated = none };
}

abbrev low_usage : Option (List (List ContainerMetrics))
low_usage = some ((record { name = "amalthea-session"; cpu = pos 1_000 } ∷ []) ∷ [])

get_idle_state_lem_example :
    let (since, is) = get_idle_state 9_000 low_usage (some a_session) in
    (is ≡ holds (cpu_usage low_usage) (λ cpu. less cpu a_culling.cpu_idle_threshold))
    × (is_zero since ≡ not is)
    × (is ≡ true → 0 < 500 → since ≡ 500)
get_idle_state_lem_example = get_idle_state_lem 9_000 low_usage a_session (omega arith)

calculate_hibernation_date_lem_example :
    let r = calculate_hibernation_date 100 a_status a_culling in
    (0 < r → IsDue 100 a_status a_culling r)
    × ((d : Time) → IsDue 100 a_status a_culling d → (0 < r) × (r ≤ d))
calculate_hibernation_date_lem_example = calculate_hibernation_date_lem 100 a_status a_culling

update_hibernation_state_lem_example :
    let (cr', sent) = update_hibernation_state 3_000 a_session in
    (sent ≡ (
      not (is_non_interactive a_session.spec.session_type)
      && not a_session.spec.hibernated
      && not (a_session.status.state == hibernated)
      && ltb 0 a_session.status.will_hibernate_at
      && ltb a_session.status.will_hibernate_at 3_000))
    × (cr' ≡ record a_session {
      spec = record a_session.spec { hibernated = a_session.spec.hibernated || sent };
    })
update_hibernation_state_lem_example = update_hibernation_state_lem 3_000 a_session

-- A session that has failed to be scheduled since the time 1200.
abbrev an_unscheduled_session : AmaltheaSession
an_unscheduled_session = record a_session {
  status = record a_status { state = not_ready; failed_scheduling_since = 1_200 };
}

abbrev much_later : Time
much_later = 1_200 + max_wait_for_clear_failed_scheduling

state_lem_example :
    let (s, msg) = state quoted no_updates a_session (some a_pod) none in
    let deleting = is_some a_session.deletion_timestamp in
    let asleep = a_session.spec.hibernated && is_scaled_down no_updates in
    let healthy = all is_empty (reasons quoted no_updates (some a_pod) none) in
    let done = pod_is_completed (some a_pod) || job_is_success none in
    ((s == hibernated) ≡ (not deleting && asleep))
    × ((s == failed) ≡ (not deleting && not asleep && not healthy))
    × ((s == running)
        ≡ (not deleting && not asleep && healthy && is_running no_updates (some a_pod)))
    × ((s == succeeded) ≡ (
        not deleting && not asleep && healthy && not (is_running no_updates (some a_pod)) && done))
    × (is_empty msg ≡ not (s == failed))
    × ((s == running_degraded) ≡ false)
    × ((s == failed) ≡ true → IsFirst msg (reasons quoted no_updates (some a_pod) none))
    × ((s == failed) ≡ false → msg ≡ "")
state_lem_example = state_lem quoted no_updates a_session (some a_pod) none

-- The update of a job that was suspended, with an error besides.
abbrev a_job_update : ChildResourceUpdate (Job String)
a_job_update = record {
  manifest = some a_job;
  update_result = "updated";
  error = some "conflict";
  status_callback = some (hibernating 9_000);
}

job_update_ignored_example :
    (status_callback (record no_updates { job = a_job_update }) a_status
      ≡ status_callback no_updates a_status)
    × (combine_errors (record no_updates { job = a_job_update }) ≡ combine_errors no_updates)
job_update_ignored_example = job_update_ignored no_updates a_job_update a_status

conditions-IsSettled_example :
    All
      (λ c. IsCurrent running a_session true c × IsDecided c)
      (conditions 9_000 running a_session true)
    × (map (λ c. c.type) (conditions 9_000 running a_session true)
        ≡ types_after a_session.status.conditions)
conditions-IsSettled_example = conditions-IsSettled 9_000 running a_session true (inr refl, tt)

-- Tests on concrete inputs.
state_test : (state quoted no_updates a_session (some a_pod) none).0 ≡ failed
unfolding state failure_message pod_failure_reason
state_test = refl

hibernation_date_test : calculate_hibernation_date 100 a_status a_culling ≡ 700 + day
unfolding calculate_hibernation_date
hibernation_date_test = refl
