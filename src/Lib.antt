-- ===== src/Lib.antt =====
-- The Amalthea session operator: a Kubernetes operator that runs interactive sessions and jobs, each
-- described by a custom resource AmaltheaSession. A reconciliation pass reads the resource, makes and
-- patches the child objects of the session (a stateful set or a job, a volume claim, a service, an
-- ingress, a secret), derives the new status of the session from what it finds in the cluster, and
-- deletes or hibernates the session when its time has come.
--
-- The parts, the files that model them, and the code:
--   Api, Api/Deletion, Api/Secrets, Api/Address: the custom resource, and the decisions that it
--     makes on its own fields (api/v1alpha1/amaltheasession_types.go, amaltheasession_children.go:
--     NeedsDeletion, AdoptedSecrets, NewConditions, GetURL, GetURLString). The records have the
--     fields of the source that the operator itself reads or writes.
--   Api/Workloads: the stateful set and the job that are desired (StatefulSet, Job, childLabels and
--     selectorLabels in api/v1alpha1/amaltheasession_children.go).
--   Api/Routing, Api/Proxies: the service, the ingress, and the containers and the secret of the
--     authentication (Service, Ingress and Secret in api/v1alpha1/amaltheasession_children.go,
--     api/v1alpha1/auth_templates.go). Api/Cloning: the init containers that clone repositories
--     (api/v1alpha1/code_repo_templates.go). Api/Mounts: the volumes of data sources (DataSources).
--   Controller/Workload, Controller/Idleness (internal/controller/status.go): containerCounts,
--     podIsReady, podIsCompleted, jobIsSuccess, jobIsFinished, metrics, getIdleState.
--   Controller/Failures (internal/controller/children_conditions.go): the failure reasons.
--   Controller/Culling (internal/controller/cull.go): the hibernation date, and asking for it.
--   Controller/Events, Updates, Conditions, Status, Children (internal/controller/children.go):
--     EventsInferedState and checkEventsInferedState; State, IsRunning, statusCallback and
--     combineErrors; Conditions; Status; cleanWellKnown and ChildResource.Reconcile, whose functions
--     that are passed to CreateOrPatch are Children/Mutations and whose calls are
--     Children/Reconciliation.
--   Controller/Reconciler (internal/controller/amaltheasession_controller.go): reconcileInner and
--     deleteSecrets, step by step, over a log of the calls that are made.
--   Controller/Metrics (internal/controller/metrics.go): the gauges that are set and dropped.
--   GitProxy/Expiry (internal/utils/token.go), GitProxy/TokenStore
--     (internal/git-https-proxy/tokenstore/tokenstore.go), GitProxy/Proxy
--     (internal/git-https-proxy/proxy/proxy.go): the sidecar that gives the git requests of a session
--     their credentials. It shares no state with the operator.
--   Images (internal/controller/config/image_field_rewriter.go, internal/utils/container.go): the
--     rules that rewrite the images of sessions, and the images of enroot.
--   Remote (internal/remote): sessions that run on another cluster, and their sidecar. Remote/Models
--     (models/status.go) has what the others share. Remote/Firecrest (firecrest/controller.go) has the
--     controller and the state that it saves; Firecrest/Status (firecrest/status.go) the status of its
--     job; Firecrest/Logs the printing of the logs and a round of the controller; Firecrest/Calls,
--     Script, Environment and Start the calls to FirecREST, Start and Stop. Remote/Runai
--     (runai/controller.go) is the controller for Run:ai, Remote/Server (server/server.go) the answers
--     to the probes of Kubernetes, Remote/Tokens (firecrest/auth/oauth2.go, client_credentials.go and
--     renku.go, runai/auth/client_credentials.go) the caches of tokens. A session is its controller, the files of its pod and what it has
--     printed. A round and a restart are steps of a session, and the cluster may answer differently
--     each time; the calls of Start are a log, as those of a pass are.
--   Cloner (internal/cloner): the init container that clones the repositories. Cloner/Repositories
--     (repository.go) asks git about one, Cloner/Run (cloner.go) does the work, over a log of calls.
--   Kube: the Kubernetes objects that are read, as far as they are. Time: Go's times and durations.
--   Prelude: lists, maps and texts. Tests: concrete sessions and worlds.
-- They interact as in the source: a pass (Reconciler/Steps) reads the session from the server, updates
-- its status and its finalizer, reconciles the children (Children/Reconciliation), derives the status
-- from their updates and from the observations (Status), which uses Workload, Failures, Idleness,
-- Events, Conditions and Culling, sends it, and ends with Api/Deletion or Culling.
--
-- How the code is modelled. The API server, CreateOrPatch, SetControllerReference, the metrics server,
-- sort.Slice, net/url, the quoting of %q, fresh run identifiers, the environment and the makers of the
-- child objects are parameters: of a pass as the record World, whose answers are functions of the log
-- of the calls so far, so that a later call may be answered differently from an earlier one. A
-- reconciliation is a function of the log, and an error a value. Each reading of the clock is a value
-- of its own, since the code reads the clock more than once. A time is a number of nanoseconds since
-- Go's zero time, and the model's times do not wrap; the difference of two times saturates at 2^63 - 1
-- nanoseconds, as in Go. CPU quantities are nanocores. Where Go ranges over a map, the order is that
-- of an association list. The conditions of an old status are overwritten in place by the new ones,
-- as the shared array is in the source. All recursion is structural but for the loop that prints
-- the lines of a log, which gets one unit of fuel more than its buffer has bytes and takes a byte at
-- least in each round.
--
-- Not modelled: the other builders of child objects (the pod and its own volumes in
-- api/v1alpha1/amaltheasession_children.go), which fill in Kubernetes objects; tracing and logging; the set-up of the manager (cmd); the session sidecars other than
-- those named above (authentication proxy, tunnel) and their
-- configuration; generated code.
pub mod Prelude
pub mod Time
pub mod Kube
pub mod Api
pub mod Controller
pub mod GitProxy
pub mod Remote
pub mod Images
pub mod Cloner
pub mod Tests
