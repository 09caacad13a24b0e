-- ===== src/Controller/Workload.antt =====
-- What the pod and the job of a session say (internal/controller/status.go).
use amalthea.Prelude.{
  ◌+◌, ◌≤◌, String, ◌≡◌, refl, Bool, false, ◌&&◌, ◌||◌, not, Option, none, some, List, [], ◌∷◌,
  arith, ◌==◌, ℕ_eq, String_eq, if◌then◌else◌, is_some, holds, length, any, all, count_if,
  count_if-le, All,
}
use amalthea.Kube.{Pod, Container, ContainerStatus, JobStatus}
use amalthea.Api.{ContainerCounts, no_containers}

-- `terminated != nil && terminated.ExitCode == 0 && terminated.Reason == "Completed"`
unfoldable pub is_completed : ContainerStatus → Bool
is_completed c = holds c.state.terminated (λ t. t.exit_code == 0 && t.reason == "Completed")

-- `container.Ready && container.State.Running != nil`
unfoldable pub is_running : ContainerStatus → Bool
is_running c = c.ready && is_some c.state.running

-- The restart policy of the first container of the pod's specification with the status's name.
restart_policy_in : String → List Container → Option String
restart_policy_in name [] = none
restart_policy_in name (c ∷ cs) =
    if c.name == name then c.restart_policy else restart_policy_in name cs

unfoldable pub container_restart_policy : ContainerStatus → Pod → Option String
unfolding restart_policy_in
container_restart_policy status pod = restart_policy_in status.name pod.containers

unfoldable pub is_container_sidecar : ContainerStatus → Pod → Bool
unfolding container_restart_policy
is_container_sidecar status pod = holds (container_restart_policy status pod) (λ p. p == "Always")

unfoldable pub is_init_container_ok : Pod → ContainerStatus → Bool
unfolding is_completed is_running is_container_sidecar
is_init_container_ok pod c = if is_container_sidecar c pod then is_running c else is_completed c

unfoldable pub is_container_ok : ContainerStatus → Bool
unfolding is_completed is_running
is_container_ok c = is_running c || is_completed c

-- The loops of `containerCounts`, with the counts so far.
count_containers :
    (ContainerStatus → Bool) → ContainerCounts → List ContainerStatus → ContainerCounts
count_containers ok counts [] = counts
count_containers ok counts (c ∷ cs) =
    count_containers ok
      (record { ready = if ok c then counts.ready + 1 else counts.ready; total = counts.total + 1 })
      cs

-- The counts of the init containers, and of the others.
unfoldable pub container_counts : Option Pod → ContainerCounts × ContainerCounts
unfolding count_containers is_init_container_ok is_container_ok
container_counts none = (no_containers, no_containers)
container_counts (some pod) = (
  count_containers (is_init_container_ok pod) no_containers pod.init_container_statuses,
  count_containers is_container_ok no_containers pod.container_statuses,
)

unfoldable pub pod_is_ready : Option Pod → Bool
pod_is_ready none = false
pod_is_ready (some pod) =
    not (is_some pod.deletion_timestamp)
    && (pod.phase == "Succeeded" || pod.phase == "Running")
    && any (λ c. c.type == "Ready" && c.status == "True") pod.conditions

unfoldable pub job_is_success : Option JobStatus → Bool
job_is_success none = false
job_is_success (some job) = any (λ c. c.type == "Complete" && c.status == "True") job.conditions

-- The two counters of `podIsCompleted`.
abbrev is_terminated : ContainerStatus → Bool
is_terminated c = is_some c.state.terminated

count_terminated : ContainerCounts → List ContainerStatus → ContainerCounts
count_terminated counts [] = counts
count_terminated counts (c ∷ cs) =
    count_terminated
      (record {
        ready = if is_terminated c then counts.ready + 1 else counts.ready;
        total = counts.total + 1;
      })
      cs

unfoldable pub pod_is_completed : Option Pod → Bool
unfolding count_terminated
pod_is_completed none = false
pod_is_completed (some pod) =
    let counts = count_terminated no_containers pod.container_statuses in
    not (is_some pod.deletion_timestamp)
    && (pod.phase == "Succeeded" || pod.phase == "Failed")
    && counts.total == counts.ready

unfoldable pub job_is_finished : JobStatus → Bool
job_is_finished job =
    any (λ c. (c.type == "Complete" || c.type == "Failed") && c.status == "True") job.conditions

count_containers-count_if :
    (ok : ContainerStatus → Bool) (counts : ContainerCounts) (cs : List ContainerStatus)
    → ((count_containers ok counts cs).ready ≡ counts.ready + count_if ok cs)
      × ((count_containers ok counts cs).total ≡ counts.total + length cs)
unfolding count_containers
count_containers-count_if ok counts [] = omega arith
count_containers-count_if ok counts (c ∷ cs) = ground (
  arith,
  count_containers-count_if ok
      (record { ready = if ok c then counts.ready + 1 else counts.ready; total = counts.total + 1 })
      cs,
)

-- The ready counts are the numbers of containers that pass their test and the totals are the
-- numbers of containers, so no count of ready containers exceeds its total.
pub container_counts_lem :
    (pod : Pod)
    → let (inits, counts) = container_counts (some pod) in
      (inits.ready ≡ count_if (is_init_container_ok pod) pod.init_container_statuses)
      × (inits.total ≡ length pod.init_container_statuses)
      × (counts.ready ≡ count_if is_container_ok pod.container_statuses)
      × (counts.total ≡ length pod.container_statuses)
      × (inits.ready ≤ inits.total)
      × (counts.ready ≤ counts.total)
unfolding container_counts
container_counts_lem pod = ground (
  arith,
  count_containers-count_if (is_init_container_ok pod) no_containers pod.init_container_statuses,
  count_containers-count_if is_container_ok no_containers pod.container_statuses,
  count_if-le (is_init_container_ok pod) pod.init_container_statuses,
  count_if-le is_container_ok pod.container_statuses,
)

count_terminated-all :
    (counts : ContainerCounts) (cs : List ContainerStatus)
    → counts.ready ≤ counts.total
    → let after = count_terminated counts cs in
      (after.ready ≤ after.total)
      × ((after.total == after.ready) ≡ ((counts.total == counts.ready) && all is_terminated cs))
unfolding count_terminated
count_terminated-all counts [] h = ground arith
count_terminated-all counts (c ∷ cs) h = ground (
  arith,
  count_terminated-all
      (record {
        ready = if is_terminated c then counts.ready + 1 else counts.ready;
        total = counts.total + 1;
      })
      cs,
)

-- A pod is completed exactly when it is not being deleted, its phase is final, and every one of its
-- containers has terminated.
pub pod_is_completed_lem :
    (pod : Pod)
    → pod_is_completed (some pod) ≡ (
        not (is_some pod.deletion_timestamp)
        && (pod.phase == "Succeeded" || pod.phase == "Failed")
        && all (λ c. is_some c.state.terminated) pod.container_statuses)
unfolding pod_is_completed
pod_is_completed_lem pod = ground (arith, count_terminated-all no_containers pod.container_statuses)

restart_policy_in-none :
    (name : String) (cs : List Container)
    → All (λ c. (c.name == name) ≡ false) cs
    → restart_policy_in name cs ≡ none
unfolding restart_policy_in
restart_policy_in-none name [] h = refl
restart_policy_in-none name (c ∷ cs) h = rw h.0 (restart_policy_in-none name cs h.1)

-- A restart policy is looked for among the main containers of the pod only. So an init container,
-- whose name no main container has, is never taken for a sidecar, and counts as ready only when it
-- has completed, also if it is to run beside the main containers.
pub init_container_never_sidecar :
    (pod : Pod) (status : ContainerStatus)
    → All (λ c. (c.name == status.name) ≡ false) pod.containers
    → is_init_container_ok pod status ≡ is_completed status
unfolding is_init_container_ok is_container_sidecar container_restart_policy
init_container_never_sidecar pod status h = rw (restart_policy_in-none status.name pod.containers h)
