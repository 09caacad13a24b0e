-- ===== src/Controller/Reconciler/Session.antt =====
-- What a pass of the reconciler makes of a session: its finalizer, its run, its status, and when a
-- status counts as changed.
use amalthea.Prelude.{
  ℕ, String, ◌<>◌, Bool, true, false, ◌&&◌, not, Option, none, some, List, [], ◌∷◌, ◌++◌, ◌==◌,
  ℕ_eq, String_eq, if◌then◌else◌, is_empty, any,
}
use amalthea.Kube.{Answer, ok, err, ClientError}
use amalthea.Api.{
  AmaltheaSession, Status, SessionCondition, ConditionType, ready_condition,
  routing_ready_condition, State, State_eq, not_ready, ContainerCounts,
}
use amalthea.Controller.Reconciler.Calls.{Log}

-- `ctrl.Result`; the time is in nanoseconds.
pub record ReconcileResult : Type 0 where
  pub requeue : Bool
  pub requeue_after : ℕ

abbrev pub finish : ReconcileResult
finish = record { requeue = false; requeue_after = 0 }

abbrev pub requeue_now : ReconcileResult
requeue_now = record { requeue = true; requeue_after = 0 }

abbrev pub requeue_later : ReconcileResult
requeue_later = record { requeue = false; requeue_after = 10_000_000_000 }

abbrev pub secret_cleanup_finalizer_name : String
secret_cleanup_finalizer_name = "amalthea.dev/secrets-finalizer"

-- controllerutil.ContainsFinalizer, AddFinalizer and RemoveFinalizer.
unfoldable pub contains_finalizer : AmaltheaSession → Bool
contains_finalizer cr = any (λ f. f == secret_cleanup_finalizer_name) cr.finalizers

unfoldable pub add_finalizer : AmaltheaSession → AmaltheaSession
add_finalizer cr = record cr { finalizers = cr.finalizers ++ secret_cleanup_finalizer_name ∷ [] }

unfoldable pub others : List String → List String
others [] = []
others (f ∷ fs) = if f == secret_cleanup_finalizer_name then others fs else f ∷ others fs

unfoldable pub remove_finalizer : AmaltheaSession → AmaltheaSession
unfolding others
remove_finalizer cr = record cr { finalizers = others cr.finalizers }

unfoldable pub counts_eq : ContainerCounts → ContainerCounts → Bool
counts_eq a b = a.ready == b.ready && a.total == b.total

unfoldable pub condition_type_eq : ConditionType → ConditionType → Bool
condition_type_eq ready_condition ready_condition = true
condition_type_eq routing_ready_condition routing_ready_condition = true
condition_type_eq _ _ = false

unfoldable pub conditions_eq : List SessionCondition → List SessionCondition → Bool
unfolding condition_type_eq
conditions_eq [] [] = true
conditions_eq (a ∷ xs) (b ∷ ys) =
    condition_type_eq a.type b.type
    && a.status == b.status
    && a.last_transition_time == b.last_transition_time
    && a.reason == b.reason
    && a.message == b.message
    && conditions_eq xs ys
conditions_eq _ _ = false

unfoldable pub bool_eq : Bool → Bool → Bool
bool_eq true b = b
bool_eq false b = not b

-- reflect.DeepEqual on statuses.
unfoldable pub status_eq : Status → Status → Bool
unfolding counts_eq conditions_eq bool_eq
status_eq a b =
    conditions_eq a.conditions b.conditions
    && a.state == b.state
    && a.url == b.url
    && counts_eq a.container_counts b.container_counts
    && counts_eq a.init_container_counts b.init_container_counts
    && bool_eq a.idle b.idle
    && a.idle_since == b.idle_since
    && a.failing_since == b.failing_since
    && a.failed_scheduling_since == b.failed_scheduling_since
    && a.hibernated_since == b.hibernated_since
    && a.will_hibernate_at == b.will_hibernate_at
    && a.run_id == b.run_id
    && a.error == b.error

abbrev pub initial_status : Status
initial_status = record {
  conditions = [];
  state = not_ready;
  url = "";
  container_counts = record { ready = 0; total = 0 };
  init_container_counts = record { ready = 0; total = 0 };
  idle = false;
  idle_since = 0;
  failing_since = 0;
  failed_scheduling_since = 0;
  hibernated_since = 0;
  will_hibernate_at = 0;
  run_id = "";
  error = "";
}

unfoldable pub with_state : State → AmaltheaSession → AmaltheaSession
with_state s cr = record cr { status = record cr.status { state = s } }

unfoldable pub with_run_id : String → AmaltheaSession → AmaltheaSession
with_run_id id cr = record cr { status = record cr.status { run_id = id } }

unfoldable pub with_status : Status → AmaltheaSession → AmaltheaSession
with_status s cr = record cr { status = s }

-- The run of a session: none while it hibernates, a new one when it starts or is resumed.
unfoldable pub next_run_id : String → AmaltheaSession → String
next_run_id fresh cr =
    if cr.spec.hibernated then "" else if is_empty cr.status.run_id then fresh else cr.status.run_id

-- The new status for a session that was read again: a run that it has by now is kept.
unfoldable pub keep_run_id : Status → AmaltheaSession → Status
keep_run_id new cr =
    if not (is_empty new.run_id) && not (is_empty cr.status.run_id)
    then record new { run_id = cr.status.run_id }
    else new

-- The old status as it is when it is compared with the new one. The new conditions are written into
-- the array of the old ones, if there are any.
unfoldable pub overwritten : Status → Status → Status
overwritten old new = elim old.conditions [
  | [] ↦ old
  | c ∷ cs ↦ record old { conditions = new.conditions }
]

-- The error of one deletion joined to those of the later ones, as `errors.Join` does.
unfoldable pub joined : Option ClientError → Answer (Unit {0}) × Log → Answer (Unit {0}) × Log
joined none r = r
joined (some e) (err f, h) =
    if e.not_found
    then (err f, h)
    else (err (record { message = e.message <> ("\n" <> f.message); not_found = false }), h)
joined (some e) (ok u, h) = if e.not_found then (ok u, h) else (err e, h)
