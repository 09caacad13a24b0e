-- ===== src/Tests/Objects.antt =====
-- Concrete children of a session, and a client for them.
use amalthea.Prelude.{ℕ, String, false, none, some, [], ◌∷◌, ℕ_eq, String_eq}
use amalthea.Time.{Time}
use amalthea.Kube.{
  ObjectMeta, ContainerState, ContainerStatus, Terminated, Container, Pod, JobStatus, Event,
  PodTemplate, StatefulSetSpec, StatefulSet, JobSpec, Job, PvcSpec, Pvc, ServiceSpec, Service,
  Secret, Answer, ok, err, ClientError,
}
use amalthea.Kube
use amalthea.Controller.Children.Mutations.{SetOwner}
use amalthea.Controller.Children.Reconciliation.{ChildResources, Patch, ChildClient}
use amalthea.Tests.Fixtures.{a_job_status}

abbrev pub a_meta : Time → ObjectMeta
a_meta created = record {
  name = "lab";
  namespace = "renku";
  creation_timestamp = created;
  deletion_timestamp = none;
  labels = ("app.kubernetes.io/name", "lab") ∷ ("team", "a") ∷ [];
  annotations = [];
  owner_references = [];
}

abbrev pub a_template : PodTemplate String
a_template = record {
  labels = [];
  annotations = [];
  tolerations = "none";
  affinity = "none";
  node_selector = "any";
  priority_class_name = "low";
  containers = "session:1";
  init_containers = "";
  volumes = "";
  other = "";
}

abbrev pub a_stateful_set : ℕ → StatefulSet String
a_stateful_set n = record {
  metadata = a_meta 100;
  spec = record { replicas = some n; selector = ""; template = a_template; other = "" };
  ready_replicas = n;
  status_replicas = n;
}

abbrev pub a_secret : Secret
a_secret = record {
  metadata = a_meta 100;
  content = some (("WSTUNNEL_SECRET", "b2xk") ∷ []);
  string_data = ("WSTUNNEL_SECRET", "new") ∷ [];
}

abbrev pub a_pvc : Pvc String
a_pvc = record {
  metadata = a_meta 100;
  spec = record { requests = "1Gi"; storage_class_name = none; other = "" };
  phase = "Bound";
  allocated_resource_statuses = [];
  conditions = [];
}

abbrev pub a_service : Service String
a_service = record {
  metadata = a_meta 100;
  spec = record { ports = "8000"; selector = ""; other = "" };
  load_balancer = [];
}

abbrev pub a_job : Job String
a_job = record {
  metadata = a_meta 100;
  spec = record {
    suspend = some false;
    active_deadline_seconds = "";
    ttl_seconds_after_finished = "";
    template = a_template;
    other = "";
  };
  status = a_job_status;
}

abbrev pub a_kube_ingress : Kube.Ingress String
a_kube_ingress = record { metadata = a_meta 100; spec = "rules"; load_balancer = [] }

-- A client that finds every object as it is given.
abbrev pub found_as_given : {T : Type 0} → Patch T
found_as_given mutate t =
    let m = mutate t in
    record { object = m.object; result = "updated"; error = m.error; callback = m.callback }

abbrev pub no_owner : SetOwner
no_owner cr m = (m, none)

abbrev pub a_client : ChildClient String
a_client = record {
  set_owner = no_owner;
  patch_ingress = found_as_given;
  patch_service = found_as_given;
  patch_stateful_set = found_as_given;
  patch_pvc = found_as_given;
  patch_secret = found_as_given;
  patch_job = found_as_given;
  delete_ingress = λ i. none;
}

-- The children of a session that is to be scaled down.
abbrev pub some_children : ChildResources String
some_children = record {
  ingress = record { current = some a_kube_ingress; desired = a_kube_ingress };
  service = record { current = some a_service; desired = a_service };
  stateful_set = record { current = some (a_stateful_set 1); desired = a_stateful_set 0 };
  pvc = record { current = some a_pvc; desired = a_pvc };
  data_sources_pvcs = [];
  secret = record { current = some a_secret; desired = a_secret };
  job = record { current = none; desired = a_job };
}
