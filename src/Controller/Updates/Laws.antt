-- ===== src/Controller/Updates/Laws.antt =====
-- The state that follows from the updates, and what the callbacks and the errors come to.
use amalthea.Prelude.{
  String, ◌≡◌, refl, sym, ap, ◌∙◌, inl, inr, Bool, true, false, ◌&&◌, ◌||◌, not, Option, none, List,
  [], ◌∷◌, ◌++◌, map, arith, ◌==◌, ℕ_eq, String_eq, if◌then◌else◌, Bool-cases, is_some, is_empty,
  all, All,
}
use amalthea.Kube.{Pod, JobStatus, Job, Pvc}
use amalthea.Api.{
  State_eq, running_degraded, AmaltheaSession, Status, running, failed, hibernated, succeeded,
}
use amalthea.Controller.Workload.{pod_is_completed, job_is_success}
use amalthea.Controller.Failures.{
  first_message, pod_failure_reason, pvc_failure_reason, service_failure_reason,
  ingress_failure_reason, job_failure_reason,
}
use amalthea.Controller.Updates.{
  ChildResourceUpdate, ChildResourceUpdates, apply_callback, apply_callbacks, status_callback,
  combine_errors, state_switch, pvc_reasons, state, failure_message, is_running, is_scaled_down,
}

-- The first text of a list that is not empty.
unfoldable pub IsFirst : String → List String → Type 0
IsFirst msg l =
    (before : List String) × (after : List String) × (l ≡ before ++ msg ∷ after)
    × All (λ text. is_empty text ≡ true) before
    × (is_empty msg ≡ false)

first_message-IsFirst :
    (l : List String) → is_empty (first_message l) ≡ false → IsFirst (first_message l) l
unfolding IsFirst first_message
first_message-IsFirst [] h = ground arith
first_message-IsFirst (m ∷ ms) h = elim (Bool-cases (is_empty m)) [
  | inr e ↦ rw e ([], ms, refl, tt, e)
  | inl e ↦
      let (before, after, whole, empties, full) = first_message-IsFirst ms (rw e at h) in
      rw e (m ∷ before, after, ap (λ r. m ∷ r) whole, (e, empties), full)
]

first_message-is_empty : (l : List String) → is_empty (first_message l) ≡ all is_empty l
unfolding first_message
first_message-is_empty [] = refl
first_message-is_empty (m ∷ ms) = ground (arith, first_message-is_empty ms)

state_switch_lem :
    (deleting asleep healthy running_now done : Bool) (msg : String)
    → is_empty msg ≡ healthy
    → let (s, m) = state_switch deleting asleep healthy running_now done msg in
      ((s == hibernated) ≡ (not deleting && asleep))
      × ((s == failed) ≡ (not deleting && not asleep && not healthy))
      × ((s == running) ≡ (not deleting && not asleep && healthy && running_now))
      × ((s == succeeded) ≡ (not deleting && not asleep && healthy && not running_now && done))
      × (is_empty m ≡ not (s == failed))
      × ((s == running_degraded) ≡ false)
      × (m ≡ (if s == failed then msg else ""))
unfolding state_switch
state_switch_lem true a h r d msg e = (refl, refl, refl, refl, refl, refl, refl)
state_switch_lem false true h r d msg e = (refl, refl, refl, refl, refl, refl, refl)
state_switch_lem false false false r d msg e = (refl, refl, refl, refl, e, refl, refl)
state_switch_lem false false true true d msg e = (refl, refl, refl, refl, refl, refl, refl)
state_switch_lem false false true false true msg e = (refl, refl, refl, refl, refl, refl, refl)
state_switch_lem false false true false false msg e = (refl, refl, refl, refl, refl, refl, refl)

message_of :
    (b : Bool) (m msg : String) (l : List String)
    → m ≡ (if b then msg else "")
    → (is_empty msg ≡ false → IsFirst msg l)
    → is_empty m ≡ not b
    → (b ≡ true → IsFirst m l) × (b ≡ false → m ≡ "")
message_of true m msg l h first e = (λ t. rw h (first (rw h at e)), λ f. ground arith)
message_of false m msg l h first e = (λ t. ground arith, λ f. h)

module _ {V : Type 0} where
  -- What may be wrong with the pod, the volume claims, the service, the ingress and the job of a
  -- session, in this order; an empty text is nothing.
  unfoldable pub reasons :
      (String → String) → ChildResourceUpdates V → Option Pod → Option JobStatus → List String
  reasons quote c pod job =
      pod_failure_reason quote pod
      ∷ pvc_failure_reason quote c.pvc.manifest
      ∷ (map (λ u. pvc_failure_reason quote u.manifest) c.data_sources_pvcs
          ++ (service_failure_reason c.service.manifest
              ∷ ingress_failure_reason c.ingress.manifest
              ∷ job_failure_reason job
              ∷ []))

  pvc_reasons-map :
      (quote : String → String) (us : List (ChildResourceUpdate (Pvc V)))
      → pvc_reasons quote us ≡ map (λ u. pvc_failure_reason quote u.manifest) us
  unfolding pvc_reasons
  pvc_reasons-map quote [] = refl
  pvc_reasons-map quote (u ∷ us) =
      ap (λ r. pvc_failure_reason quote u.manifest ∷ r) (pvc_reasons-map quote us)

  failure_message-reasons :
      (quote : String → String) (c : ChildResourceUpdates V) (pod : Option Pod)
      (job : Option JobStatus)
      → failure_message quote c pod job ≡ first_message (reasons quote c pod job)
  unfolding failure_message reasons
  failure_message-reasons quote c pod job = rw (pvc_reasons-map quote c.data_sources_pvcs) refl

  -- The state and the message of a session, by what its parts say: a session that is being deleted
  -- is not ready; else one that was asked to hibernate and is scaled down is hibernated; else a
  -- reason for a failure makes it failed; else a ready pod under a ready stateful set or job makes
  -- it running; else a finished pod or job makes it succeeded. The message of a failed session is
  -- the first reason there is, of its pod, its volume claims, its service, its ingress and its job,
  -- and there is no message in any other state.
  pub state_lem :
      (quote : String → String) (c : ChildResourceUpdates V) (cr : AmaltheaSession)
      (pod : Option Pod) (job : Option JobStatus)
      → let (s, msg) = state quote c cr pod job in
        let deleting = is_some cr.deletion_timestamp in
        let asleep = cr.spec.hibernated && is_scaled_down c in
        let healthy = all is_empty (reasons quote c pod job) in
        let done = pod_is_completed pod || job_is_success job in
        ((s == hibernated) ≡ (not deleting && asleep))
        × ((s == failed) ≡ (not deleting && not asleep && not healthy))
        × ((s == running) ≡ (not deleting && not asleep && healthy && is_running c pod))
        × ((s == succeeded)
            ≡ (not deleting && not asleep && healthy && not (is_running c pod) && done))
        × (is_empty msg ≡ not (s == failed))
        × ((s == running_degraded) ≡ false)
        × ((s == failed) ≡ true → IsFirst msg (reasons quote c pod job))
        × ((s == failed) ≡ false → msg ≡ "")
  unfolding state
  state_lem quote c cr pod job =
      let all_reasons = reasons quote c pod job in
      let found = failure_message quote c pod job in
      let same : found ≡ first_message all_reasons = failure_message-reasons quote c pod job in
      let healthy : is_empty found ≡ all is_empty all_reasons =
        ap is_empty same ∙ first_message-is_empty all_reasons in
      let first : is_empty found ≡ false → IsFirst found all_reasons =
        λ e. rw same (first_message-IsFirst all_reasons (rw same at e)) in
      let l =
        state_switch_lem (is_some cr.deletion_timestamp) (cr.spec.hibernated && is_scaled_down c)
          (is_empty found) (is_running c pod) (pod_is_completed pod || job_is_success job) found
          refl in
      let m = message_of _ _ found all_reasons l.6 first l.4 in
      rw (sym healthy) (l.0, l.1, l.2, l.3, l.4, l.5, m.0, m.1)

  -- Neither the callback nor the error of the job's update has any effect: the status and the
  -- combined error are the same, whatever the update of the job is.
  pub job_update_ignored :
      (c : ChildResourceUpdates V) (u : ChildResourceUpdate (Job V)) (s : Status)
      → (status_callback (record c { job = u }) s ≡ status_callback c s)
        × (combine_errors (record c { job = u }) ≡ combine_errors c)
  unfolding status_callback combine_errors
  job_update_ignored c u s = (refl, refl)

  apply_callbacks-none :
      (us : List (ChildResourceUpdate (Pvc V))) (s : Status)
      → All (λ u. u.status_callback ≡ none) us
      → apply_callbacks us s ≡ s
  unfolding apply_callbacks
  apply_callbacks-none [] s h = refl
  apply_callbacks-none (u ∷ us) s h = rw (h.0, apply_callback) (apply_callbacks-none us s h.1)

  -- Where only the stateful set has a callback, that alone is applied.
  pub status_callback-stateful_set :
      (c : ChildResourceUpdates V) (s : Status)
      → c.ingress.status_callback ≡ none
      → c.service.status_callback ≡ none
      → c.secret.status_callback ≡ none
      → c.pvc.status_callback ≡ none
      → All (λ u. u.status_callback ≡ none) c.data_sources_pvcs
      → status_callback c s ≡ apply_callback c.stateful_set.status_callback s
  unfolding status_callback
  status_callback-stateful_set c s i v x p d =
      rw (i, apply_callback)
        (rw (v, apply_callback)
          (rw (x, apply_callback)
            (rw (p, apply_callback) (rw (apply_callbacks-none c.data_sources_pvcs s d)))))
