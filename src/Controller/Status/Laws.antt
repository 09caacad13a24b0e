-- ===== src/Controller/Status/Laws.antt =====
-- What holds of every status that the operator derives (Status in internal/controller/children.go).
use amalthea.Prelude.{
  ◌≤◌, ◌<◌, String, ◌≡◌, refl, ◌⊎◌, inl, inr, Bool, true, false, ◌||◌, not, Option, none, some,
  List, arith, ◌==◌, ℕ_eq, String_eq, Bool-cases, is_some, holds, is_empty,
}
use amalthea.Time.{Time, is_zero}
use amalthea.Kube.{Pod, Event, JobStatus}
use amalthea.Api.{AmaltheaSession, Status, State, State_eq, running, failed, hibernated, succeeded}
use amalthea.Controller.Workload.{container_counts, container_counts_lem}
use amalthea.Controller.Events.{check_events_infered_state, check_events_text}
use amalthea.Controller.Updates.{ChildResourceUpdates, state, warning_message}
use amalthea.Controller.Updates.Laws.{state_lem}
use amalthea.Controller.Status.{
  quota_exceeded, Readings, Observations, since_when, counts_of, findings, error_of, derived_status,
  or_message, or_nothing, found, get_pod,
}

since_when-is_zero :
    (now : Time) (b : Bool) (before : Time) → 0 < now → is_zero (since_when now b before) ≡ not b
unfolding since_when
since_when-is_zero now b before h = ground arith

counts_of_lem :
    (emptied : Bool) (pod : Option Pod)
    → let (inits, counts) = counts_of emptied pod in
      (emptied ≡ true → (inits.ready ≡ 0) × (counts.ready ≡ 0))
      × (inits.ready ≤ inits.total)
      × (counts.ready ≤ counts.total)
unfolding counts_of
counts_of_lem true none = ground arith
counts_of_lem false none = unfold container_counts in ground arith
counts_of_lem true (some pod) = ground arith
counts_of_lem false (some pod) = ground (arith, container_counts_lem pod)

findings-text :
    (r : Readings) (o : Observations) (cr : AmaltheaSession) (s : State) (msg : String)
    (pod : Option Pod)
    → (s ≡ failed → is_empty msg ≡ false)
    → (findings r o cr s msg pod).state ≡ failed
    → is_empty (findings r o cr s msg pod).message ≡ false
unfolding findings
findings-text r o cr s msg (some pod) h e = h e
findings-text r o cr s msg none h e = elim (Bool-cases (quota_exceeded o.stateful_set_events)) [
  | inl q ↦ rw q
  | inr q ↦ rw q (h (rw q at e))
]

or_message-text :
    (e : Option String) (msg : String)
    → holds e is_empty ≡ false
    → (is_some e ≡ true) ⊎ (is_empty msg ≡ false)
    → is_empty (or_message e msg) ≡ false
unfolding or_message
or_message-text none msg h k = ground arith
or_message-text (some e) msg h k = h

error_of-text :
    (message warning : String)
    → is_empty message ≡ false
    → is_empty (error_of message warning) ≡ false
unfolding error_of
error_of-text message warning h = rw h h

failing_field : {b : Bool} (c : Bool) → b ≡ not c → b ≡ (not c || false)
failing_field c h = ground arith

-- What holds of a status: the session is marked as hibernated since a time exactly when hibernation
-- is asked for; as failing since a time exactly when its state is failed, unless its workload was just
-- scaled; its scheduling is not marked as failing in a state that shows that it went on; a hibernated
-- session and one that is being deleted have no ready containers; no more containers are ready than
-- there are; a failed session has an error text; and the run of the session is the one it had.
pub record IsConsistent (cr : AmaltheaSession) (just_scaled : Bool) (s : Status) : Type 0 where
  pub hibernation : is_zero s.hibernated_since ≡ not cr.spec.hibernated
  pub failure : is_zero s.failing_since ≡ (not (s.state == failed) || just_scaled)
  pub scheduling :
      (s.state == hibernated || s.state == running || s.state == succeeded) ≡ true
      → s.failed_scheduling_since ≡ 0
  pub emptied :
      (s.state == hibernated || is_some cr.deletion_timestamp) ≡ true
      → (s.init_container_counts.ready ≡ 0) × (s.container_counts.ready ≡ 0)
  pub counted :
      (s.init_container_counts.ready ≤ s.init_container_counts.total)
      × (s.container_counts.ready ≤ s.container_counts.total)
  pub explained : s.state ≡ failed → is_empty s.error ≡ false
  pub same_run : s.run_id ≡ cr.status.run_id

module _ {V : Type 0} (quote : String → String)
    (sort_events : (Event → Event → Bool) → List Event → List Event) where
  message-text :
      (r : Readings) (o : Observations) (cr : AmaltheaSession) (c : ChildResourceUpdates V)
      (pod : Option Pod) (job : Option JobStatus)
      → let (s, msg) = state quote c cr pod job in
        let (fs, s', e) =
          check_events_infered_state sort_events r.scheduling_wait r.scheduling_start cr s
            o.pod_events in
        let f = findings r o cr s' (or_message e msg) pod in
        f.state ≡ failed → is_empty f.message ≡ false
  message-text r o cr c pod job h =
      let (s, msg) = state quote c cr pod job in
      let (fs, s', e) =
        check_events_infered_state sort_events r.scheduling_wait r.scheduling_start cr s
          o.pod_events in
      let texts =
        check_events_text sort_events r.scheduling_wait r.scheduling_start cr s o.pod_events in
      let laws = state_lem quote c cr pod job in
      findings-text r o cr s' (or_message e msg) pod
        (λ sf. or_message-text e msg texts.0 (why sf texts.1 laws.4)) h
    where
      why :
          {s s' : State} {m e : Bool}
          → s' ≡ failed
          → (s' ≡ s) ⊎ (e ≡ true)
          → m ≡ not (s == failed)
          → (e ≡ true) ⊎ (m ≡ false)
      why sf t l = ground arith

  pub derived_status-IsConsistent :
      (r : Readings) (o : Observations) (cr : AmaltheaSession) (c : ChildResourceUpdates V)
      → 0 < r.failure_start
      → 0 < r.hibernation_start
      → IsConsistent cr false (derived_status quote sort_events r o cr c)
  unfolding derived_status
  derived_status-IsConsistent r o cr c hf hh = record {
    hibernation =
        since_when-is_zero r.hibernation_start cr.spec.hibernated cr.status.hibernated_since hh;
    failure = failing_field _ (since_when-is_zero r.failure_start _ cr.status.failing_since hf);
    scheduling = λ h. rw h;
    emptied = (counts_of_lem _ pod).0;
    counted = ((counts_of_lem _ pod).1, (counts_of_lem _ pod).2);
    explained =
        λ h. error_of-text _ (warning_message pod) (message-text r o cr c pod (found o.job) h);
    same_run = refl;
  }
    where
      pod : Option Pod
      pod = or_nothing (get_pod cr o)
