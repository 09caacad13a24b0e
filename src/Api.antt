-- ===== src/Api.antt =====
-- The custom resource (api/v1alpha1/amaltheasession_types.go): the specification and the status of
-- a session, with the fields that the operator's own logic reads or writes. What it only passes on
-- to Kubernetes (images, resources, volumes, probes, affinity) is left out.
pub mod Deletion
pub mod Secrets
pub mod Address
pub mod Workloads
pub mod Routing
pub mod Proxies
pub mod Cloning
pub mod Mounts
use amalthea.Prelude.{
  ℕ, String, ◌<>◌, ◌≡◌, ◌↔◌, Bool, true, false, ◌&&◌, not, Option, none, some, List, [], ◌∷◌, arith,
  Eq, is_empty,
}
use amalthea.Time.{Time, Duration, ℤ}

pub data State : Type 0 where
  running failed hibernated not_ready running_degraded succeeded : State

-- `string(state)`
abbrev pub state_string : State → String
state_string running = "Running"
state_string failed = "Failed"
state_string hibernated = "Hibernated"
state_string not_ready = "NotReady"
state_string running_degraded = "RunningDegraded"
state_string succeeded = "Succeeded"

abbrev pub state_eq : State → State → Bool
state_eq running running = true
state_eq failed failed = true
state_eq hibernated hibernated = true
state_eq not_ready not_ready = true
state_eq running_degraded running_degraded = true
state_eq succeeded succeeded = true
state_eq _ _ = false

pub state_eq_iff : (s t : State) → (state_eq s t ≡ true) ↔ (s ≡ t)
state_eq_iff s t = ground arith

instance abbrev pub State_eq : Eq State
State_eq = record { same = state_eq; same_iff = state_eq_iff }

-- Any other text is taken for an interactive session, as the `default` branches do.
pub data SessionType : Type 0 where
  interactive non_interactive : SessionType

abbrev pub is_non_interactive : SessionType → Bool
is_non_interactive interactive = false
is_non_interactive non_interactive = true

pub data ReconcileStrategy : Type 0 where
  never always when_failed_or_hibernated : ReconcileStrategy
  unknown_strategy : String → ReconcileStrategy

-- A reference to a secret, or to one key of it.
pub record SessionSecretRef : Type 0 where
  pub name : String
  pub key : String
  pub adopt : Bool

-- `ref.isAdopted()`, for both kinds of reference; a nil reference is not adopted.
unfoldable pub is_adopted : Option SessionSecretRef → Bool
is_adopted none = false
is_adopted (some ref) = not (is_empty ref.name) && ref.adopt

pub record Session : Type 0 where
  pub url_path : String
  pub remote_secret_ref : Option SessionSecretRef

pub record Ingress : Type 0 where
  pub host : String
  pub tls_secret : Option SessionSecretRef
  pub path_prefix : String
  pub use_default_cluster_tls_cert : Bool
  pub assume_https : Bool

pub record CodeRepository : Type 0 where
  pub cloning_config_secret_ref : Option SessionSecretRef
  pub config_secret_ref : Option SessionSecretRef

pub record DataSource : Type 0 where
  pub secret_ref : Option SessionSecretRef

pub record Culling : Type 0 where
  pub max_age : Duration
  pub max_idle_duration : Duration
  pub max_starting_duration : Duration
  pub max_failed_duration : Duration
  pub max_hibernated_duration : Duration
  pub last_interaction : Time
  pub cpu_idle_threshold : ℤ  -- in nanocores

pub record Authentication : Type 0 where
  pub enabled : Bool
  pub secret_ref : SessionSecretRef

pub record Spec : Type 0 where
  pub session : Session
  pub code_repositories : List CodeRepository
  pub data_sources : List DataSource
  pub authentication : Option Authentication
  pub culling : Culling
  pub hibernated : Bool
  pub ingress : Option Ingress
  pub reconcile_strategy : ReconcileStrategy
  pub image_pull_secrets : List SessionSecretRef
  pub session_type : SessionType

pub record ContainerCounts : Type 0 where
  pub ready : ℕ
  pub total : ℕ

abbrev pub no_containers : ContainerCounts
no_containers = record { ready = 0; total = 0 }

pub data ConditionType : Type 0 where
  ready_condition routing_ready_condition : ConditionType

pub record SessionCondition : Type 0 where
  pub type : ConditionType
  pub status : String
  pub last_transition_time : Time
  pub reason : String
  pub message : String

pub record Status : Type 0 where
  pub conditions : List SessionCondition
  pub state : State
  pub url : String
  pub container_counts : ContainerCounts
  pub init_container_counts : ContainerCounts
  pub idle : Bool
  pub idle_since : Time
  pub failing_since : Time
  pub failed_scheduling_since : Time
  pub hibernated_since : Time
  pub will_hibernate_at : Time
  pub run_id : String
  pub error : String

-- The metadata that the operator itself reads, and the two parts of the resource.
pub record AmaltheaSession : Type 0 where
  pub name : String
  pub namespace : String
  pub creation_timestamp : Time
  pub deletion_timestamp : Option Time
  pub finalizers : List String
  pub spec : Spec
  pub status : Status

-- `cr.PodName()`
unfoldable pub pod_name : AmaltheaSession → String
pod_name cr = cr.name <> "-0"

abbrev pub session_container_name : String
session_container_name = "amalthea-session"

-- The conditions of a session that has none yet, at the time `now`.
unfoldable pub new_conditions : Time → List SessionCondition
new_conditions now = fresh ready_condition ∷ fresh routing_ready_condition ∷ []
  where
    fresh : ConditionType → SessionCondition
    fresh type = record {
      type = type;
      status = "False";
      last_transition_time = now;
      reason = "SessionCreated";
      message = "The custom resource was created just now";
    }
