-- ===== src/Tests/Fixtures.antt =====
-- Concrete sessions, pods, children of sessions and answers.
use amalthea.Prelude.{
  ℕ, String, ◌<>◌, Bool, true, false, none, some, List, [], ◌∷◌, ℕ_eq, String_eq,
}
use amalthea.Time.{pos}
use amalthea.Kube.{ContainerStatus, Pod, JobStatus, Event, ok}
use amalthea.Api.{
  AmaltheaSession, Spec, Status, Culling, Ingress, SessionSecretRef, always, interactive,
  non_interactive, running, hibernated, succeeded, no_containers, SessionCondition, ready_condition,
}
use amalthea.Controller.Updates.{ChildResourceUpdates, no_update}
use amalthea.Controller.Status.{Readings, Observations}

abbrev pub day : ℕ
day = 86_400_000_000_000

abbrev pub a_culling : Culling
a_culling = record {
  max_age = pos 0;
  max_idle_duration = pos day;
  max_starting_duration = pos 0;
  max_failed_duration = pos 0;
  max_hibernated_duration = pos day;
  last_interaction = 700;
  cpu_idle_threshold = pos 300_000_000;
}

abbrev pub an_adopted_ref : SessionSecretRef
an_adopted_ref = record { name = "cloning"; key = "token"; adopt = true }

abbrev pub a_shared_ref : SessionSecretRef
a_shared_ref = record { name = "shared"; key = "token"; adopt = false }

abbrev pub an_ingress : Ingress
an_ingress = record {
  host = "example.org";
  tls_secret = some a_shared_ref;
  path_prefix = "/";
  use_default_cluster_tls_cert = false;
  assume_https = false;
}

abbrev pub a_spec : Spec
a_spec = record {
  session = record { url_path = "/session"; remote_secret_ref = none };
  code_repositories =
      record { cloning_config_secret_ref = some an_adopted_ref; config_secret_ref = none } ∷ [];
  data_sources = record { secret_ref = some a_shared_ref } ∷ [];
  authentication = none;
  culling = a_culling;
  hibernated = false;
  ingress = some an_ingress;
  reconcile_strategy = always;
  image_pull_secrets = [];
  session_type = interactive;
}

abbrev pub a_condition : SessionCondition
a_condition = record {
  type = ready_condition;
  status = "False";
  last_transition_time = 900;
  reason = "SessionCreated";
  message = "The custom resource was created just now";
}

abbrev pub a_status : Status
a_status = record {
  conditions = a_condition ∷ [];
  state = running;
  url = "https://example.org/session/";
  container_counts = record { ready = 1; total = 1 };
  init_container_counts = no_containers;
  idle = true;
  idle_since = 500;
  failing_since = 0;
  failed_scheduling_since = 0;
  hibernated_since = 0;
  will_hibernate_at = 2_000;
  run_id = "01J0000000";
  error = "";
}

abbrev pub a_session : AmaltheaSession
a_session = record {
  name = "lab";
  namespace = "renku";
  creation_timestamp = 100;
  deletion_timestamp = none;
  finalizers = "amalthea.dev/secrets-finalizer" ∷ [];
  spec = a_spec;
  status = a_status;
}

abbrev pub a_hibernated_session : AmaltheaSession
a_hibernated_session = record a_session {
  spec = record a_spec { hibernated = true };
  status = record a_status { state = hibernated; hibernated_since = 1_000 };
}

abbrev pub a_finished_job : AmaltheaSession
a_finished_job = record a_session {
  spec = record a_spec { session_type = non_interactive };
  status = record a_status { state = succeeded };
}

abbrev pub a_deleted_session : AmaltheaSession
a_deleted_session = record a_session { deletion_timestamp = some 5_000 }

-- A container that has ended with the exit code 1.
abbrev pub a_failed_container : ContainerStatus
a_failed_container = record {
  name = "amalthea-session";
  ready = false;
  started = some false;
  state = record {
    waiting = none;
    running = none;
    terminated = some (record { exit_code = 1; reason = "Error"; message = "out of memory" });
  };
}

abbrev pub a_pod : Pod
a_pod = record {
  deletion_timestamp = none;
  containers = record { name = "amalthea-session"; restart_policy = none } ∷ [];
  phase = "Failed";
  conditions = [];
  init_container_statuses = [];
  container_statuses = a_failed_container ∷ [];
}

abbrev pub a_job_status : JobStatus
a_job_status = record { conditions = []; failed = 1; active = 0; ready = none }

abbrev pub an_event : Event
an_event = record {
  reason = "FailedScheduling";
  message = "0/3 nodes are available";
  last_timestamp = 1_200;
  event_time = 0;
  first_timestamp = 1_100;
}

-- The order of `sort.Slice` on lists that are sorted already.
abbrev pub keep_order : (Event → Event → Bool) → List Event → List Event
keep_order before events = events

abbrev pub quoted : String → String
quoted s = "\"" <> (s <> "\"")

abbrev pub some_readings : Readings
some_readings = record {
  scheduling_wait = 9_000;
  scheduling_start = 9_000;
  container_age = 9_000;
  idle_start = 9_000;
  job_done = 9_000;
  hibernation_start = 9_000;
  failure_start = 9_000;
  condition_change = 9_000;
}

abbrev pub some_observations : Observations
some_observations = record {
  pods_of_job = ok [];
  pod = ok a_pod;
  job = ok a_job_status;
  pod_events = ok (an_event ∷ []);
  stateful_set_events = ok [];
  metrics = none;
  ingress_found = true;
  url = "https://example.org/session/";
}

abbrev pub no_updates : ChildResourceUpdates String
no_updates = record {
  ingress = no_update;
  service = no_update;
  stateful_set = no_update;
  pvc = no_update;
  data_sources_pvcs = [];
  secret = no_update;
  job = no_update;
}
