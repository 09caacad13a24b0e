-- ===== src/Kube.antt =====
-- The Kubernetes objects that the operator reads, with the fields that it reads. They are declared
-- outside of the repository (k8s.io/api); enumerations are texts there, as they are here.
use amalthea.Prelude.{ℕ, String, Bool, Option, List, ℕ_eq, String_eq, StringMap}
use amalthea.Time.{Time, ℤ}

pub record ObjectMeta : Type 0 where
  pub name : String
  pub namespace : String
  pub creation_timestamp : Time
  pub deletion_timestamp : Option Time
  pub labels : StringMap String
  pub annotations : StringMap String
  pub owner_references : List String

pub record Waiting : Type 0 where
  pub reason : String
  pub message : String

pub record Terminated : Type 0 where
  pub exit_code : ℕ
  pub reason : String
  pub message : String

pub record ContainerState : Type 0 where
  pub waiting : Option Waiting
  pub running : Option Time  -- when it started
  pub terminated : Option Terminated

pub record ContainerStatus : Type 0 where
  pub name : String
  pub ready : Bool
  pub started : Option Bool
  pub state : ContainerState

pub record Container : Type 0 where
  pub name : String
  pub restart_policy : Option String

-- The conditions of pods, jobs and volume claims alike.
pub record Condition : Type 0 where
  pub type : String
  pub status : String
  pub reason : String
  pub message : String

pub record Pod : Type 0 where
  pub deletion_timestamp : Option Time
  pub containers : List Container
  pub phase : String
  pub conditions : List Condition
  pub init_container_statuses : List ContainerStatus
  pub container_statuses : List ContainerStatus

pub record JobStatus : Type 0 where
  pub conditions : List Condition
  pub failed : ℕ
  pub active : ℕ
  pub ready : Option ℕ

pub record Event : Type 0 where
  pub reason : String
  pub message : String
  pub last_timestamp : Time
  pub event_time : Time
  pub first_timestamp : Time

-- A container's CPU use in nanocores (`Usage.Cpu()`, which is zero where it is not given).
pub record ContainerMetrics : Type 0 where
  pub name : String
  pub cpu : ℤ

-- An error of the API server, and what it answers to a request.
pub record ClientError : Type 0 where
  pub message : String
  pub not_found : Bool

pub data Answer {ℓ} (A : Type ℓ) : Type ℓ where
  ok : A → Answer A
  err : ClientError → Answer A

-- The child resources of a session. `V` stands for all that the operator copies from one object to
-- another and never looks into.
module _ (V : Type 0) where
  pub record PodTemplate : Type 0 where
    pub labels : StringMap String
    pub annotations : StringMap String
    pub tolerations : V
    pub affinity : V
    pub node_selector : V
    pub priority_class_name : V
    pub containers : V
    pub init_containers : V
    pub volumes : V
    pub other : V

  pub record StatefulSetSpec : Type 0 where
    pub replicas : Option ℕ
    pub selector : V
    pub template : PodTemplate
    pub other : V

  pub record StatefulSet : Type 0 where
    pub metadata : ObjectMeta
    pub spec : StatefulSetSpec
    pub ready_replicas : ℕ
    pub status_replicas : ℕ

  pub record JobSpec : Type 0 where
    pub suspend : Option Bool
    pub active_deadline_seconds : V
    pub ttl_seconds_after_finished : V
    pub template : PodTemplate
    pub other : V

  pub record Job : Type 0 where
    pub metadata : ObjectMeta
    pub spec : JobSpec
    pub status : JobStatus

  pub record PvcSpec : Type 0 where
    pub requests : V
    pub storage_class_name : Option String
    pub other : V

  pub record Pvc : Type 0 where
    pub metadata : ObjectMeta
    pub spec : PvcSpec
    pub phase : String
    pub allocated_resource_statuses : StringMap String
    pub conditions : List Condition

  pub record ServiceSpec : Type 0 where
    pub ports : V
    pub selector : V
    pub other : V

  -- Of a load balancer there are the errors of the ports of its addresses.
  pub record Service : Type 0 where
    pub metadata : ObjectMeta
    pub spec : ServiceSpec
    pub load_balancer : List (List (Option String))

  pub record Ingress : Type 0 where
    pub metadata : ObjectMeta
    pub spec : V
    pub load_balancer : List (List (Option String))

pub record Secret : Type 0 where
  pub metadata : ObjectMeta
  pub content : Option (StringMap String)  -- `Data`
  pub string_data : StringMap String
