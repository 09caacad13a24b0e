-- ===== src/Controller/Status/Hibernation.antt =====
-- From the flag that asks for hibernation to the state that says so, in one pass.
use amalthea.Prelude.{
  ℕ, ◌<◌, String, ◌≡◌, ◌∙◌, Bool, true, false, ◌&&◌, ◌||◌, not, Option, none, some, arith, ◌==◌,
  ℕ_eq, String_eq, if◌then◌else◌, is_some, holds,
}
use amalthea.Time.{Time}
use amalthea.Kube.{PodTemplate, StatefulSet, Pod, JobStatus}
use amalthea.Api.{AmaltheaSession, State_eq, hibernated}
use amalthea.Api.Workloads.{Template, stateful_set}
use amalthea.Controller.Updates.{ChildResourceUpdates, state, is_scaled_down}
use amalthea.Controller.Updates.Laws.{state_lem}
use amalthea.Controller.Children.Mutations.{SetOwner, mutate_stateful_set}
use amalthea.Controller.Children.Mutations.Strategy.{mutate_stateful_set_lem}

replicas-is_zero :
    (asked : Bool) (o : Option ℕ)
    → o ≡ some (if asked then 0 else 1)
    → (holds o (λ n. n == 0) || false) ≡ asked
replicas-is_zero true o e = rw e
replicas-is_zero false o e = rw e

scaled-is_scaled_down :
    {V : Type 0} (c : ChildResourceUpdates V) (object : StatefulSet V) (asked : Bool)
    → object.spec.replicas ≡ some (if asked then 0 else 1)
    → c.stateful_set.manifest ≡ some object
    → c.job.manifest ≡ none
    → is_scaled_down c ≡ asked
unfolding is_scaled_down
scaled-is_scaled_down c object asked r m j =
    rw (m, j) (replicas-is_zero asked object.spec.replicas r)

awake_or_asleep :
    (deleting asked scaled : Bool)
    → deleting ≡ false
    → scaled ≡ asked
    → (not deleting && (asked && scaled)) ≡ asked
awake_or_asleep deleting asked scaled d s = ground arith

-- A session that is not being deleted is hibernated exactly when that is asked for, under every
-- strategy, whatever its pod and its job say, where its stateful set exists and has been patched as
-- desired, and it has no job.
pub hibernated_as_asked :
    {V : Type 0} (owned : SetOwner) (now : Time) (quote : String → String) (t : Template)
    (pod_spec : PodTemplate V) (selector other : V) (cr : AmaltheaSession) (current : StatefulSet V)
    (c : ChildResourceUpdates V) (pod : Option Pod) (job : Option JobStatus)
    → 0 < current.metadata.creation_timestamp
    → is_some cr.deletion_timestamp ≡ false
    → c.stateful_set.manifest
      ≡ some
          (mutate_stateful_set owned now cr
            (stateful_set t pod_spec selector other cr)
            current).object
    → c.job.manifest ≡ none
    → ((state quote c cr pod job).0 == hibernated) ≡ cr.spec.hibernated
unfolding stateful_set
hibernated_as_asked owned now quote t pod_spec selector other cr current c pod job h d m j =
    let desired = stateful_set t pod_spec selector other cr in
    let object = (mutate_stateful_set owned now cr desired current).object in
    let scaled =
      scaled-is_scaled_down c object cr.spec.hibernated
        (mutate_stateful_set_lem owned cr now desired current h).0 m j in
    (state_lem quote c cr pod job).0
    ∙ awake_or_asleep (is_some cr.deletion_timestamp) cr.spec.hibernated (is_scaled_down c) d scaled
