-- ===== src/Api/Workloads.antt =====
-- The stateful set and the job of a session (StatefulSet, Job, childLabels and selectorLabels in
-- api/v1alpha1/amaltheasession_children.go). The specification of the pod is a parameter, and so are
-- the other parts of both, which the operator fills in and does not look into.
use amalthea.Prelude.{
  String, ◌≡◌, not, none, some, [], ◌∷◌, arith, ℕ_eq, String_eq, if◌then◌else◌, is_empty, StringMap,
  or_else, lookup, insert, copy, lookup-copy,
}
use amalthea.Kube.{ObjectMeta, PodTemplate, StatefulSet, Job}
use amalthea.Api.{AmaltheaSession}

unfoldable pub selector_labels : String → StringMap String
selector_labels name =
    ("app.kubernetes.io/name", "AmaltheaSession")
    ∷ ("app.kubernetes.io/instance", name)
    ∷ ("app.kubernetes.io/part-of", "amaltheasession-operator")
    ∷ ("app.kubernetes.io/created-by", "controller-manager")
    ∷ []

-- What a session gives for the metadata of its children: the template's labels and annotations
-- (`cr.Spec.Template.Metadata`) and the session's UID.
pub record Template : Type 0 where
  pub labels : StringMap String
  pub annotations : StringMap String
  pub uid : String

unfoldable pub child_labels : Template → AmaltheaSession → StringMap String
unfolding selector_labels copy
child_labels t cr = copy (selector_labels cr.name) (copy t.labels [])

-- The annotations for the run and the session are added if they are known.
added : String → String → StringMap String → StringMap String
unfolding insert
added key value m = if not (is_empty value) then insert key value m else m

unfoldable pub child_annotations : Template → AmaltheaSession → StringMap String
unfolding added copy
child_annotations t cr =
    added "renku.io/session_uid" t.uid
      (added "renku.io/run_id" cr.status.run_id (copy t.annotations []))

unfoldable pub child_metadata : Template → AmaltheaSession → ObjectMeta
unfolding child_labels child_annotations
child_metadata t cr = record {
  name = cr.name;
  namespace = cr.namespace;
  creation_timestamp = 0;
  deletion_timestamp = none;
  labels = child_labels t cr;
  annotations = child_annotations t cr;
  owner_references = [];
}

module _ {V : Type 0} where
  -- The pod's template with the labels and annotations of the workload.
  pod_template : Template → PodTemplate V → AmaltheaSession → PodTemplate V
  unfolding child_labels child_annotations
  pod_template t pod cr = record pod {
    labels = child_labels t cr;
    annotations = child_annotations t cr;
  }

  unfoldable pub stateful_set : Template → PodTemplate V → V → V → AmaltheaSession → StatefulSet V
  unfolding child_metadata pod_template
  stateful_set t pod selector other cr = record {
    metadata = child_metadata t cr;
    spec = record {
      replicas = some (if cr.spec.hibernated then 0 else 1);
      selector = selector;
      template = pod_template t pod cr;
      other = other;
    };
    ready_replicas = 0;
    status_replicas = 0;
  }

  -- `deadline` is made of the maximum age, `ttl` is not given.
  unfoldable pub job : Template → PodTemplate V → V → V → V → AmaltheaSession → Job V
  unfolding child_metadata pod_template
  job t pod deadline ttl other cr = record {
    metadata = child_metadata t cr;
    spec = record {
      suspend = some cr.spec.hibernated;
      active_deadline_seconds = deadline;
      ttl_seconds_after_finished = ttl;
      template = pod_template t pod cr;
      other = other;
    };
    status = record { conditions = []; failed = 0; active = 0; ready = none };
  }

-- The labels of the children are those of the template, but a label that selects the pod of the
-- session is always there.
pub child_labels_lem :
    (t : Template) (cr : AmaltheaSession) (k : String)
    → lookup k (child_labels t cr)
      ≡ or_else (lookup k (selector_labels cr.name)) (lookup k t.labels)
unfolding child_labels lookup
child_labels_lem t cr k =
    ground
      (arith, lookup-copy k (selector_labels cr.name) (copy t.labels []), lookup-copy k t.labels [])
