-- ===== src/Controller/Status/Reconciled.antt =====
-- The status after a reconciliation of the children (Status and ChildResources.Reconcile in
-- internal/controller/children.go), with the callbacks that the reconciliation has set.
use amalthea.Prelude.{
  ℕ, ◌<◌, String, ◌≡◌, refl, inl, inr, Bool, true, false, ◌||◌, not, Option, none, some, List,
  arith, ◌==◌, ℕ_eq, String_eq, if◌then◌else◌, Bool-cases,
}
use amalthea.Time.{Time, is_zero}
use amalthea.Kube.{StatefulSet, PodTemplate, Event}
use amalthea.Api.{AmaltheaSession, Status, State_eq, failed}
use amalthea.Api.Workloads.{Template, stateful_set}
use amalthea.Controller.Children.Mutations.Callbacks.{
  Scaling, unscaled, woken, put_to_sleep, scaling_between, scaling, after_scaling,
}
use amalthea.Controller.Children.Reconciliation.{ChildResources, ChildClient, reconcile_children}
use amalthea.Controller.Children.Reconciliation.Effects.{
  IsChildClient, found_by, status_callback-reconcile_children,
}
use amalthea.Controller.Status.{Readings, Observations, derived_status, status}
use amalthea.Controller.Status.Laws.{IsConsistent, derived_status-IsConsistent}

abbrev pub is_scaled : Scaling → Bool
is_scaled unscaled = false
is_scaled woken = true
is_scaled put_to_sleep = true

-- A session goes to sleep only if hibernation is asked for, and wakes up only if it is not.
IsAsked : Bool → Scaling → Type 0
IsAsked asked unscaled = Unit
IsAsked asked woken = asked ≡ false
IsAsked asked put_to_sleep = asked ≡ true

scaling_between-IsAsked :
    (asked : Bool) (a : Option ℕ)
    → IsAsked asked (scaling_between a (some (if asked then 0 else 1)))
unfolding scaling_between IsAsked
scaling_between-IsAsked asked none = tt
scaling_between-IsAsked true (some a) = elim (Bool-cases (a == 1)) [
  | inl e ↦ rw e refl
  | inr e ↦ rw e (ground arith)
]
scaling_between-IsAsked false (some a) = elim (Bool-cases (a == 0)) [
  | inl e ↦ rw e (ground arith)
  | inr e ↦ rw e (ground arith)
]

either-IsAsked :
    (asked b : Bool) (k : Scaling) → IsAsked asked k → IsAsked asked (if b then unscaled else k)
unfolding IsAsked
either-IsAsked asked true k h = tt
either-IsAsked asked false k h = h

scaling-IsAsked :
    {V : Type 0} (cr : AmaltheaSession) (t : Template) (pod_spec : PodTemplate V)
    (selector other : V) (found : Option (StatefulSet V))
    → IsAsked cr.spec.hibernated (scaling found (stateful_set t pod_spec selector other cr))
unfolding scaling stateful_set
scaling-IsAsked cr t pod_spec selector other none = unfold IsAsked in tt
scaling-IsAsked cr t pod_spec selector other (some live) =
    either-IsAsked cr.spec.hibernated (is_zero live.metadata.creation_timestamp) _
      (scaling_between-IsAsked cr.spec.hibernated live.spec.replicas)

scaled_failure : (c : Bool) → true ≡ (not c || true)
scaled_failure true = refl
scaled_failure false = refl

after_scaling-IsConsistent :
    (cr : AmaltheaSession) (now : Time) (k : Scaling) (s : Status)
    → 0 < now
    → IsAsked cr.spec.hibernated k
    → IsConsistent cr false s
    → IsConsistent cr (is_scaled k) (after_scaling now k s)
unfolding after_scaling IsAsked
after_scaling-IsConsistent cr now unscaled s past asked h = h
after_scaling-IsConsistent cr now woken s past asked h = record {
  hibernation = rw asked refl;
  failure = scaled_failure (s.state == failed);
  scheduling = λ e. refl;
  emptied = h.emptied;
  counted = h.counted;
  explained = h.explained;
  same_run = h.same_run;
}
after_scaling-IsConsistent cr now put_to_sleep s past asked h = record {
  hibernation = rw asked (ground arith);
  failure = scaled_failure (s.state == failed);
  scheduling = λ e. refl;
  emptied = h.emptied;
  counted = h.counted;
  explained = h.explained;
  same_run = h.same_run;
}

module _ {V : Type 0} (quote : String → String)
    (sort_events : (Event → Event → Bool) → List Event → List Event) (client : ChildClient V)
    (found : StatefulSet V → Option (StatefulSet V)) where
  -- The status that the operator derives after it has reconciled the children, callbacks included:
  -- with a clock past the zero time, and where the desired stateful set is that of the session, the
  -- session is marked as hibernated since a time exactly when hibernation is asked for; as failing
  -- since a time exactly when its state is failed and its stateful set was not just scaled between one
  -- replica and none; not as failing to be scheduled in a state that shows that it was; a hibernated
  -- session and one that is being deleted have no ready containers; no more containers are ready than
  -- there are; a failed session has an error text; and the run is the one it had. CreateOrPatch calls
  -- its function on the object that it finds or on the new one, once at most.
  pub status-IsConsistent :
      (r : Readings) (o : Observations) (now : Time) (cr : AmaltheaSession) (c : ChildResources V)
      (t : Template) (pod_spec : PodTemplate V) (selector other : V)
      → IsChildClient client found
      → c.stateful_set.desired ≡ stateful_set t pod_spec selector other cr
      → 0 < now
      → 0 < r.failure_start
      → 0 < r.hibernation_start
      → IsConsistent cr
          (is_scaled (scaling (found_by found c.stateful_set.current) c.stateful_set.desired))
          (status quote sort_events r o cr (reconcile_children client now cr c).0)
  unfolding status
  status-IsConsistent r o now cr c t pod_spec selector other lawful own hn hf hh =
      let updates = (reconcile_children client now cr c).0 in
      let live = found_by found c.stateful_set.current in
      let asked : IsAsked cr.spec.hibernated (scaling live c.stateful_set.desired) =
        rw own (scaling-IsAsked cr t pod_spec selector other live) in
      rw
        (status_callback-reconcile_children client found now cr lawful c
          (derived_status quote sort_events r o cr updates))
        (after_scaling-IsConsistent cr now _ _ hn asked
          (derived_status-IsConsistent quote sort_events r o cr updates hf hh))
