-- ===== src/Tests/Children.antt =====
-- What the theorems on the children of a session say of concrete ones.
use amalthea.Prelude.{
  String, ◌≡◌, refl, inr, true, none, some, [], ◌∷◌, arith, ◌==◌, ℕ_eq, String_eq, if◌then◌else◌,
  is_some, StringMap, or_else, lookup,
}
use amalthea.Api.{AmaltheaSession, never, State_eq, hibernated}
use amalthea.Controller.Updates.{status_callback, ChildResourceUpdates, state}
use amalthea.Controller.Children.Labels.{is_well_known, clean_well_known, lookup-clean_well_known}
use amalthea.Controller.Children.Mutations.{mutate_stateful_set}
use amalthea.Controller.Children.Mutations.Callbacks.{scaling, scaling_between, after_scaling}
use amalthea.Controller.Children.Mutations.Strategy.{
  may_update, is_unknown, mutate_stateful_set_lem,
}
use amalthea.Controller.Children.Reconciliation.{ChildResources, reconcile_children}
use amalthea.Controller.Status.{status}
use amalthea.Controller.Status.Laws.{IsConsistent}
use amalthea.Controller.Status.Reconciled.{status-IsConsistent}
use amalthea.Controller.Children.Reconciliation.Effects.{
  IsPatch, IsChildClient, found_by, status_callback-reconcile_children,
}
use amalthea.Api.Workloads.{Template, stateful_set}
use amalthea.Controller.Status.Hibernation.{hibernated_as_asked}
use amalthea.Tests.Fixtures.{
  a_hibernated_session, no_updates, quoted, a_pod, a_session, a_spec, a_status, keep_order,
  some_readings, some_observations,
}
use amalthea.Tests.Objects.{
  a_template, a_stateful_set, no_owner, a_client, some_children, found_as_given,
}

abbrev some_labels : StringMap String
some_labels = ("app.kubernetes.io/name", "lab") ∷ ("team", "a") ∷ []

abbrev new_labels : StringMap String
new_labels = ("app.kubernetes.io/name", "other") ∷ ("team", "b") ∷ []

lookup-clean_well_known_example : lookup "team" (clean_well_known some_labels new_labels) ≡ (
    if is_well_known "team"
    then or_else (lookup "team" some_labels) (lookup "team" new_labels)
    else lookup "team" new_labels)
lookup-clean_well_known_example = lookup-clean_well_known "team" some_labels new_labels

abbrev a_fixed_session : AmaltheaSession
a_fixed_session = record a_session { spec = record a_spec { reconcile_strategy = never } }

mutate_stateful_set_lem_example :
    let m = mutate_stateful_set no_owner 9_000 a_session (a_stateful_set 0) (a_stateful_set 1) in
    (m.object.spec.replicas ≡ some 0)
    × (m.object.spec.template.tolerations ≡ "none")
    × (m.object.spec.template.affinity ≡ "none")
    × (m.object.spec.template.node_selector ≡ "any")
    × (m.object.spec.template.priority_class_name ≡ "low")
    × (m.object.spec.template.containers
        ≡ (if may_update a_session then "session:1" else "session:1"))
    × (m.object.metadata.labels
        ≡ (if may_update a_session then clean_well_known some_labels some_labels else some_labels))
    × (is_some m.error ≡ is_unknown a_session.spec.reconcile_strategy)
mutate_stateful_set_lem_example =
    mutate_stateful_set_lem no_owner a_session 9_000 (a_stateful_set 0) (a_stateful_set 1)
      (omega arith)

found_as_given-IsPatch : {T : Type 0} → IsPatch {T = T} found_as_given
found_as_given-IsPatch m t = inr (t, refl)

a_client-IsChildClient : IsChildClient a_client (λ t. some t)
a_client-IsChildClient = record {
  ingress = found_as_given-IsPatch;
  service = found_as_given-IsPatch;
  workload = λ m t. refl;
  pvc = found_as_given-IsPatch;
  secret = found_as_given-IsPatch;
}

status_callback-reconcile_children_example :
    status_callback (reconcile_children a_client 9_000 a_session some_children).0 a_status
    ≡ record a_status {
      idle_since = 0;
      failing_since = 0;
      failed_scheduling_since = 0;
      hibernated_since = 9_000;
    }
unfolding scaling scaling_between found_by after_scaling
status_callback-reconcile_children_example =
    status_callback-reconcile_children a_client (λ t. some t) 9_000 a_session a_client-IsChildClient
      some_children a_status

abbrev a_session_template : Template
a_session_template = record { labels = some_labels; annotations = []; uid = "u-1" }

-- The updates of a session whose stateful set was patched when it was asked to hibernate.
abbrev asleep_updates : ChildResourceUpdates String
asleep_updates = record no_updates {
  stateful_set = record {
    manifest =
        some
          (mutate_stateful_set no_owner 9_000 a_hibernated_session
            (stateful_set a_session_template a_template "" "" a_hibernated_session)
            (a_stateful_set 1)).object;
    update_result = "updated";
    error = none;
    status_callback = none;
  };
}

hibernated_as_asked_example :
    ((state quoted asleep_updates a_hibernated_session (some a_pod) none).0 == hibernated) ≡ true
hibernated_as_asked_example =
    hibernated_as_asked no_owner 9_000 quoted a_session_template a_template "" ""
      a_hibernated_session (a_stateful_set 1) asleep_updates (some a_pod) none (omega arith) refl
      refl refl

-- The children of a session that is asked to hibernate and still runs.
abbrev sleepy_children : ChildResources String
sleepy_children = record some_children {
  stateful_set = record {
    current = some (a_stateful_set 1);
    desired = stateful_set a_session_template a_template "" "" a_hibernated_session;
  };
}

status-IsConsistent_example : IsConsistent a_hibernated_session true (
    status quoted keep_order some_readings some_observations a_hibernated_session
      (reconcile_children a_client 9_000 a_hibernated_session sleepy_children).0)
unfolding scaling scaling_between found_by stateful_set
status-IsConsistent_example =
    status-IsConsistent quoted keep_order a_client (λ t. some t) some_readings some_observations
      9_000 a_hibernated_session sleepy_children a_session_template a_template "" ""
      a_client-IsChildClient refl (omega arith) (omega arith) (omega arith)
