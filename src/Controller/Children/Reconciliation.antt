-- ===== src/Controller/Children/Reconciliation.antt =====
-- The reconciliation of each child with the API server, and of them all (ChildResource.Reconcile and
-- ChildResources.Reconcile in internal/controller/children.go).
pub mod Effects
use amalthea.Prelude.{String, Option, none, some, List, map, if◌then◌else◌}
use amalthea.Time.{Time}
use amalthea.Kube.{StatefulSet, Job, Pvc, Service, Ingress, Secret, ClientError}
use amalthea.Api.{AmaltheaSession, Status}
use amalthea.Controller.Updates.{
  ChildResourceUpdate, ChildResourceUpdates, no_update, combine_errors,
}
use amalthea.Controller.Children.Mutations.{
  Mutation, SetOwner, mutate_ingress, mutate_stateful_set, mutate_pvc, mutate_service,
  mutate_secret, mutate_job,
}

pub record ChildResource (T : Type 0) : Type 0 where
  pub current : Option T
  pub desired : T

pub record ChildResources (V : Type 0) : Type 0 where
  pub ingress : ChildResource (Ingress V)
  pub service : ChildResource (Service V)
  pub stateful_set : ChildResource (StatefulSet V)
  pub pvc : ChildResource (Pvc V)
  pub data_sources_pvcs : List (ChildResource (Pvc V))
  pub secret : ChildResource Secret
  pub job : ChildResource (Job V)

-- What a call of CreateOrPatch leaves: the object, the result, the error, and the callback that
-- the function it was given has set.
pub record Patched (T : Type 0) : Type 0 where
  pub object : T
  pub result : String
  pub error : Option String
  pub callback : Option (Status → Status)

-- controllerutil.CreateOrPatch on the objects of one kind.
abbrev pub Patch : Type 0 → Type 0
Patch T = (T → Mutation T) → T → Patched T

-- controller-runtime as far as the reconciliation of children uses it.
pub record ChildClient (V : Type 0) : Type 0 where
  pub set_owner : SetOwner
  pub patch_ingress : Patch (Ingress V)
  pub patch_service : Patch (Service V)
  pub patch_stateful_set : Patch (StatefulSet V)
  pub patch_pvc : Patch (Pvc V)
  pub patch_secret : Patch Secret
  pub patch_job : Patch (Job V)
  pub delete_ingress : Ingress V → Option ClientError

update_of : {T : Type 0} → Patched T → ChildResourceUpdate T
update_of p = record {
  manifest = some p.object;
  update_result = p.result;
  error = p.error;
  status_callback = p.callback;
}

-- A child with no current object is not reconciled.
patch_child :
    {T : Type 0} → Patch T → (T → T → Mutation T) → ChildResource T → ChildResourceUpdate T
unfolding update_of
patch_child patch mutate c = elim c.current [
  | none ↦ no_update
  | some current ↦ update_of (patch (mutate c.desired) current)
]

module _ {V : Type 0} (client : ChildClient V) (now : Time) (cr : AmaltheaSession) where
  deleted_ingress : Ingress V → Option ClientError → ChildResourceUpdate (Ingress V)
  deleted_ingress current none = record {
    manifest = some current;
    update_result = "deleted";
    error = none;
    status_callback = none;
  }
  deleted_ingress current (some e) = record {
    manifest = some current;
    update_result = if e.not_found then "unchanged" else "deleted";
    error = if e.not_found then none else some e.message;
    status_callback = none;
  }

  unfoldable pub reconcile_ingress : ChildResource (Ingress V) → ChildResourceUpdate (Ingress V)
  unfolding patch_child deleted_ingress mutate_ingress
  reconcile_ingress c = elim c.current [
    | none ↦ no_update
    | some current ↦
        if cr.spec.hibernated
        then deleted_ingress current (client.delete_ingress current)
        else patch_child client.patch_ingress (mutate_ingress client.set_owner cr) c
  ]

  unfoldable pub reconcile_stateful_set :
      ChildResource (StatefulSet V) → ChildResourceUpdate (StatefulSet V)
  unfolding patch_child mutate_stateful_set
  reconcile_stateful_set =
      patch_child client.patch_stateful_set (mutate_stateful_set client.set_owner now cr)

  unfoldable pub reconcile_pvc : ChildResource (Pvc V) → ChildResourceUpdate (Pvc V)
  unfolding patch_child mutate_pvc
  reconcile_pvc = patch_child client.patch_pvc (mutate_pvc client.set_owner cr)

  unfoldable pub reconcile_service : ChildResource (Service V) → ChildResourceUpdate (Service V)
  unfolding patch_child mutate_service
  reconcile_service = patch_child client.patch_service (mutate_service client.set_owner cr)

  unfoldable pub reconcile_secret : ChildResource Secret → ChildResourceUpdate Secret
  unfolding patch_child mutate_secret
  reconcile_secret = patch_child client.patch_secret (mutate_secret client.set_owner cr)

  unfoldable pub reconcile_job : ChildResource (Job V) → ChildResourceUpdate (Job V)
  unfolding patch_child mutate_job
  reconcile_job = patch_child client.patch_job (mutate_job client.set_owner now cr)

  -- All the children, and the error that their errors make.
  unfoldable pub reconcile_children : ChildResources V → ChildResourceUpdates V × Option String
  unfolding reconcile_ingress reconcile_stateful_set reconcile_pvc reconcile_service
      reconcile_secret reconcile_job
  reconcile_children c =
      let output : ChildResourceUpdates V = record {
        ingress = reconcile_ingress c.ingress;
        service = reconcile_service c.service;
        stateful_set = reconcile_stateful_set c.stateful_set;
        pvc = reconcile_pvc c.pvc;
        data_sources_pvcs = map reconcile_pvc c.data_sources_pvcs;
        secret = reconcile_secret c.secret;
        job = reconcile_job c.job;
      } in
      (output, combine_errors output)
