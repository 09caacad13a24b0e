-- ===== src/Controller/Children/Mutations.antt =====
-- What CreateOrPatch is to do to the object that it finds: the functions that
-- `ChildResource.Reconcile` passes to it, one for each kind of child.
pub mod Strategy
pub mod Callbacks
use amalthea.Prelude.{
  ℕ, String, ◌<>◌, Bool, ◌&&◌, ◌||◌, not, Option, none, some, [], ◌==◌, ℕ_eq, String_eq,
  if◌then◌else◌, holds, StringMap, or_else, lookup, insert, copy,
}
use amalthea.Time.{Time, is_zero}
use amalthea.Kube.{ObjectMeta, PodTemplate, StatefulSet, Job, Pvc, Service, Ingress, Secret}
use amalthea.Api.{
  AmaltheaSession, Status, State_eq, failed, hibernated, ReconcileStrategy, never, always,
  when_failed_or_hibernated, unknown_strategy,
}
use amalthea.Controller.Workload.{job_is_finished}
use amalthea.Controller.Children.Labels.{clean_well_known}

-- The object as the function leaves it, its error, and the callback that it sets.
pub record Mutation (T : Type 0) : Type 0 where
  pub object : T
  pub error : Option String
  pub callback : Option (Status → Status)

unfoldable pub is_failed_or_hibernated : AmaltheaSession → Bool
is_failed_or_hibernated cr = cr.status.state == failed || cr.status.state == hibernated

-- The `switch` on the strategy: the object is left as it was, or updated.
by_strategy : {T : Type 0} → String → ReconcileStrategy → Bool → T → T → T × Option String
by_strategy kind never idle before after = (before, none)
by_strategy kind when_failed_or_hibernated idle before after =
    (if idle then after else before, none)
by_strategy kind always idle before after = (after, none)
by_strategy kind (unknown_strategy s) idle before after =
    (before, some ("attempting to reconcile " <> (kind <> (" with unknown strategy " <> s))))

unfoldable pub reconcile_by :
    {T : Type 0} → String → AmaltheaSession → Option (Status → Status) → T → T → Mutation T
unfolding by_strategy is_failed_or_hibernated
reconcile_by kind cr callback before after =
    let (object, e) =
      by_strategy kind cr.spec.reconcile_strategy (is_failed_or_hibernated cr) before after in
    record { object = object; error = e; callback = callback }

-- The callbacks of a stateful set or a job.
unfoldable pub resumed : Status → Status
resumed s = record s {
  idle_since = 0;
  failing_since = 0;
  failed_scheduling_since = 0;
  hibernated_since = 0;
}

unfoldable pub hibernating : Time → Status → Status
hibernating now s = record s {
  idle_since = 0;
  failing_since = 0;
  failed_scheduling_since = 0;
  hibernated_since = now;
}

-- Both numbers of replicas are given, and they are `a` now and `b` as desired.
scaled : ℕ → ℕ → Option ℕ → Option ℕ → Bool
scaled a b current desired = holds current (λ n. n == a) && holds desired (λ n. n == b)

replicas_callback : Time → Option ℕ → Option ℕ → Option (Status → Status)
unfolding scaled
replicas_callback now current desired =
    if scaled 1 0 current desired
    then some (hibernating now)
    else if scaled 0 1 current desired
    then some resumed
    else none

suspend_callback : Time → Option Bool → Option Bool → Option (Status → Status)
suspend_callback now current desired =
    if not (holds current (λ b. b)) && holds desired (λ b. b)
    then some (hibernating now)
    else if holds current (λ b. b) && holds desired not
    then some resumed
    else none

-- The metadata with the labels and annotations that are updated.
merged_metadata : ObjectMeta → ObjectMeta → ObjectMeta
merged_metadata current desired = record current {
  labels = clean_well_known current.labels desired.labels;
  annotations = clean_well_known current.annotations desired.annotations;
}

abbrev is_new : ObjectMeta → Bool
is_new m = is_zero m.creation_timestamp

-- SetControllerReference: the metadata with the session as its owner, and the error.
abbrev pub SetOwner : Type 0
SetOwner = AmaltheaSession → ObjectMeta → ObjectMeta × Option String

-- A new object, with the metadata that are desired.
created : {T : Type 0} → SetOwner → AmaltheaSession → ObjectMeta → (ObjectMeta → T) → Mutation T
created owned cr desired build =
    let (m, e) = owned cr desired in record { object = build m; error = e; callback = none }

-- The parts of a pod template that are updated whatever the strategy is.
always_updated : {V : Type 0} → PodTemplate V → PodTemplate V → PodTemplate V
always_updated current desired = record current {
  tolerations = desired.tolerations;
  affinity = desired.affinity;
  node_selector = desired.node_selector;
  priority_class_name = desired.priority_class_name;
}

module _ {V : Type 0} (owned : SetOwner) where
  unfoldable pub mutate_ingress : AmaltheaSession → Ingress V → Ingress V → Mutation (Ingress V)
  unfolding created reconcile_by merged_metadata
  mutate_ingress cr desired current =
      if is_new current.metadata
      then created owned cr desired.metadata
          (λ m. record current { metadata = m; spec = desired.spec })
      else reconcile_by "ingress" cr none current (record current {
        metadata = merged_metadata current.metadata desired.metadata;
        spec = desired.spec;
      })

  -- The update of a stateful set that every strategy makes, and that of the others.
  scaled_stateful_set : StatefulSet V → StatefulSet V → StatefulSet V
  unfolding always_updated
  scaled_stateful_set desired current = record current {
    spec = record current.spec {
      replicas = desired.spec.replicas;
      template = always_updated current.spec.template desired.spec.template;
    };
  }

  updated_stateful_set : StatefulSet V → StatefulSet V → StatefulSet V
  unfolding merged_metadata
  updated_stateful_set desired current = record current {
    metadata = merged_metadata current.metadata desired.metadata;
    spec = record current.spec {
      selector = desired.spec.selector;
      template = record current.spec.template {
        labels = desired.spec.template.labels;
        annotations = desired.spec.template.annotations;
        containers = desired.spec.template.containers;
        init_containers = desired.spec.template.init_containers;
        volumes = desired.spec.template.volumes;
      };
    };
  }

  -- `now` is the reading of the clock in the callback.
  unfoldable pub mutate_stateful_set :
      Time → AmaltheaSession → StatefulSet V → StatefulSet V → Mutation (StatefulSet V)
  unfolding created reconcile_by replicas_callback scaled_stateful_set updated_stateful_set
  mutate_stateful_set now cr desired current =
      let scaled = scaled_stateful_set desired current in
      if is_new current.metadata
      then created owned cr desired.metadata
          (λ m. record current { metadata = m; spec = desired.spec })
      else reconcile_by "ingress" cr
          (replicas_callback now current.spec.replicas desired.spec.replicas) scaled
          (updated_stateful_set desired scaled)

  unfoldable pub mutate_pvc : AmaltheaSession → Pvc V → Pvc V → Mutation (Pvc V)
  unfolding created reconcile_by merged_metadata
  mutate_pvc cr desired current =
      if is_new current.metadata
      then created owned cr desired.metadata
          (λ m. record current { metadata = m; spec = desired.spec })
      else reconcile_by "PVC" cr none current (record current {
        metadata = merged_metadata current.metadata desired.metadata;
        spec = record current.spec {
          requests = desired.spec.requests;
          storage_class_name =
              or_else desired.spec.storage_class_name current.spec.storage_class_name;
        };
      })

  unfoldable pub mutate_service : AmaltheaSession → Service V → Service V → Mutation (Service V)
  unfolding created reconcile_by merged_metadata
  mutate_service cr desired current =
      if is_new current.metadata
      then created owned cr desired.metadata
          (λ m. record current { metadata = m; spec = desired.spec })
      else reconcile_by "service" cr none current (record current {
        metadata = merged_metadata current.metadata desired.metadata;
        spec = record current.spec { ports = desired.spec.ports; selector = desired.spec.selector };
      })

  scaled_job : Job V → Job V → Job V
  unfolding always_updated
  scaled_job desired current = record current {
    spec = record current.spec {
      suspend = desired.spec.suspend;
      active_deadline_seconds = desired.spec.active_deadline_seconds;
      ttl_seconds_after_finished = desired.spec.ttl_seconds_after_finished;
      template = always_updated current.spec.template desired.spec.template;
    };
  }

  updated_job : Job V → Job V → Job V
  unfolding merged_metadata
  updated_job desired current = record current {
    metadata = merged_metadata current.metadata desired.metadata;
    spec = record current.spec {
      template = record current.spec.template {
        annotations = desired.spec.template.annotations;
        containers = desired.spec.template.containers;
        init_containers = desired.spec.template.init_containers;
        volumes = desired.spec.template.volumes;
      };
    };
  }

  -- A finished job is left alone.
  unfoldable pub mutate_job : Time → AmaltheaSession → Job V → Job V → Mutation (Job V)
  unfolding created reconcile_by suspend_callback scaled_job updated_job
  mutate_job now cr desired current =
      let scaled = scaled_job desired current in
      if job_is_finished current.status
      then record { object = current; error = none; callback = none }
      else if is_new current.metadata
      then created owned cr desired.metadata
          (λ m. record current { metadata = m; spec = desired.spec })
      else reconcile_by "batchjob" cr
          (suspend_callback now current.spec.suspend desired.spec.suspend) scaled
          (updated_job desired scaled)

abbrev pub tunnel_key : String
tunnel_key = "WSTUNNEL_SECRET"

-- The entry of the tunnel's secret is put over the others, if there is one.
with_tunnel : Option String → StringMap String → StringMap String
with_tunnel none m = m
with_tunnel (some v) m = insert tunnel_key v m

-- The tunnel's secret that an object holds.
unfoldable pub tunnel_of : Option (StringMap String) → Option String
tunnel_of none = none
tunnel_of (some content) = lookup tunnel_key content

-- The text data that are desired, with the tunnel's secret that the object has already.
keep_tunnel : Option (StringMap String) → StringMap String → StringMap String
unfolding with_tunnel tunnel_of
keep_tunnel content desired = with_tunnel (tunnel_of content) (copy desired [])

unfoldable pub mutate_secret : SetOwner → AmaltheaSession → Secret → Secret → Mutation Secret
unfolding created reconcile_by keep_tunnel merged_metadata
mutate_secret owned cr desired current =
    if is_new current.metadata
    then created owned cr desired.metadata
        (λ m. record { metadata = m; content = desired.content; string_data = desired.string_data })
    else reconcile_by "secret" cr none current (record {
      metadata = merged_metadata current.metadata desired.metadata;
      content = desired.content;
      string_data = keep_tunnel current.content desired.string_data;
    })
