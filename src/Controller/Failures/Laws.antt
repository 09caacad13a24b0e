-- ===== src/Controller/Failures/Laws.antt =====
-- When a child resource gives a reason for a failure.
use amalthea.Prelude.{
  String, ◌<>◌, ◌≡◌, refl, inl, inr, Bool, false, ◌&&◌, ◌||◌, not, Option, none, some, List, [],
  ◌∷◌, ◌++◌, arith, ltb, ◌==◌, ℕ_eq, String_eq, Bool-cases, is_some, holds, is_empty, any, all,
  is_empty-append,
}
use amalthea.Kube.{Pod, ContainerStatus, Condition, Terminated, Waiting, JobStatus}
use amalthea.Controller.Failures.{
  pod_condition_reason, valid_waiting_reasons, handle_bad_waiting_state, terminated_reason,
  waiting_failure, terminated_failure, container_failure, containers_reason, pod_failure_reason,
  job_condition_reason, job_failure_reason,
}

-- A container that gives no reason to call the session failed.
abbrev pub is_container_healthy : ContainerStatus → Bool
is_container_healthy c =
    (holds c.started (λ b. b) && c.ready)
    || (is_some c.state.waiting
        && holds c.state.waiting (λ w. any (λ r. r == w.reason) valid_waiting_reasons))
    || (not (is_some c.state.waiting)
        && not (holds c.state.terminated (λ t. not (t.exit_code == 0))))

module _ (quote : String → String) where
  handle_bad_waiting_state-ne_empty :
      (name : String) (w : Waiting) → is_empty (handle_bad_waiting_state quote name w) ≡ false
  unfolding handle_bad_waiting_state
  handle_bad_waiting_state-ne_empty name w = ground (
    arith,
    is_empty-append "failure to retrieve image for container " (name <> (": " <> w.message)),
    is_empty-append "the command in container " (
        name
        <> (" is crashing, this can occur when you run out of disk space, this is the best reason for the crash we could extract: "
            <> quote w.message)),
    is_empty-append "the container " (name <> (" is failing because " <> w.message)),
    is_empty-append "the container " (name <> (" is failing because " <> w.reason)),
  )

  terminated_reason-ne_empty :
      (name : String) (t : Terminated) → is_empty (terminated_reason quote name t) ≡ false
  unfolding terminated_reason
  terminated_reason-ne_empty name t = ground (
    arith,
    is_empty-append "the command in container " (
        name
        <> " terminated with an error exit code, this could be because you are running out of disk space"),
    is_empty-append "the container " (name <> (" terminated with an error " <> t.message)),
  )

  -- A failure has a text.
  abbrev is_failure_text : Option String → Bool
  is_failure_text o = holds o (λ m. is_empty m)

  waiting_failure-is_some :
      (name : String) (w : Option Waiting)
      → (is_some (waiting_failure quote name w)
          ≡ (is_some w && not (holds w (λ x. any (λ r. r == x.reason) valid_waiting_reasons))))
        × (is_failure_text (waiting_failure quote name w) ≡ false)
  unfolding waiting_failure
  waiting_failure-is_some name none = (refl, refl)
  waiting_failure-is_some name (some w) = ground (arith, handle_bad_waiting_state-ne_empty name w)

  terminated_failure-is_some :
      (name : String) (t : Option Terminated)
      → (is_some (terminated_failure quote name t) ≡ holds t (λ x. not (x.exit_code == 0)))
        × (is_failure_text (terminated_failure quote name t) ≡ false)
  unfolding terminated_failure
  terminated_failure-is_some name none = (refl, refl)
  terminated_failure-is_some name (some t) = ground (arith, terminated_reason-ne_empty name t)

  container_failure-is_some :
      (c : ContainerStatus)
      → (is_some (container_failure quote c) ≡ not (is_container_healthy c))
        × (is_failure_text (container_failure quote c) ≡ false)
  unfolding container_failure
  container_failure-is_some c = ground (
    arith,
    waiting_failure-is_some c.name c.state.waiting,
    terminated_failure-is_some c.name c.state.terminated,
  )

  containers_reason-is_empty :
      (cs : List ContainerStatus) (otherwise : String)
      → is_empty (containers_reason quote cs otherwise)
        ≡ (all is_container_healthy cs && is_empty otherwise)
  unfolding containers_reason
  containers_reason-is_empty [] otherwise = refl
  containers_reason-is_empty (c ∷ cs) otherwise =
      ground (arith, container_failure-is_some c, containers_reason-is_empty cs otherwise)

  -- A pod that is not being deleted gives no reason for a failure exactly when all its containers,
  -- init containers included, are healthy and its conditions give none.
  pub pod_failure_reason_lem :
      (pod : Pod)
      → pod.deletion_timestamp ≡ none
      → is_empty (pod_failure_reason quote (some pod)) ≡ (
          all is_container_healthy (pod.init_container_statuses ++ pod.container_statuses)
          && is_empty (pod_condition_reason pod.conditions))
  unfolding pod_failure_reason
  pod_failure_reason_lem pod h = rw h (
      containers_reason-is_empty (pod.init_container_statuses ++ pod.container_statuses)
        (pod_condition_reason pod.conditions))

job_condition_reason-ne_empty : (cs : List Condition) → is_empty (job_condition_reason cs) ≡ false
unfolding job_condition_reason
job_condition_reason-ne_empty [] = refl
job_condition_reason-ne_empty (c ∷ cs) = ground (
  arith,
  is_empty-append c.reason (": " <> c.message),
  is_empty-append ": " c.message,
  job_condition_reason-ne_empty cs,
)

-- A job gives a reason for a failure exactly when it counts a failed pod.
pub job_failure_reason_lem :
    (job : JobStatus) → is_empty (job_failure_reason (some job)) ≡ not (ltb 0 job.failed)
unfolding job_failure_reason
job_failure_reason_lem job = elim (Bool-cases (ltb 0 job.failed)) [
  | inl e ↦ rw e (job_condition_reason-ne_empty job.conditions)
  | inr e ↦ rw e
]
