-- ===== src/Controller/Children/Reconciliation/Effects.antt =====
-- What the reconciliation of the children does to the status of the session.
use amalthea.Prelude.{
  ◌≡◌, refl, ap, ◌∙◌, ◌⊎◌, inl, inr, Bool, true, false, Option, none, some, List, [], ◌∷◌, map,
  ℕ_eq, String_eq, if◌then◌else◌, All,
}
use amalthea.Time.{Time}
use amalthea.Kube.{StatefulSet, Pvc, Ingress, ClientError}
use amalthea.Api.{AmaltheaSession, Status}
use amalthea.Controller.Updates.{ChildResourceUpdate, status_callback, apply_callback}
use amalthea.Controller.Updates.Laws.{status_callback-stateful_set}
use amalthea.Controller.Children.Mutations.{
  Mutation, SetOwner, mutate_ingress, mutate_stateful_set, mutate_pvc, mutate_service,
  mutate_secret,
}
use amalthea.Controller.Children.Mutations.Callbacks.{
  mutate_ingress-callback, mutate_pvc-callback, mutate_service-callback, mutate_secret-callback,
  mutate_stateful_set-callback, scaling, after_scaling, callback_for, apply_callback_for,
}
use amalthea.Controller.Children.Reconciliation.{
  ChildResource, ChildResources, Patch, ChildClient, patch_child, deleted_ingress,
  reconcile_ingress, reconcile_stateful_set, reconcile_pvc, reconcile_children,
}

-- CreateOrPatch calls the function that it is given once, on the object that it has found or on the
-- new one, or not at all.
abbrev pub IsPatch : {T : Type 0} → Patch T → Type 0
IsPatch {T} patch =
    (m : T → Mutation T) (t : T)
    → ((patch m t).callback ≡ none) ⊎ ((live : T) × ((patch m t).callback ≡ (m live).callback))

-- The callback that a function sets on an object that is found, or none.
abbrev pub callback_on : {T : Type 0} → (T → Mutation T) → Option T → Option (Status → Status)
callback_on m none = none
callback_on m (some live) = (m live).callback

abbrev pub Finder : Type 0 → Type 0
Finder V = StatefulSet V → Option (StatefulSet V)

-- `found` is the stateful set on which CreateOrPatch calls the function: the one in the cluster or the
-- new one, or none if the cluster cannot be asked.
pub record IsChildClient {V : Type 0} (client : ChildClient V) (found : Finder V) : Type 0 where
  pub ingress : IsPatch client.patch_ingress
  pub service : IsPatch client.patch_service
  pub workload :
      (m : StatefulSet V → Mutation (StatefulSet V)) (t : StatefulSet V)
      → (client.patch_stateful_set m t).callback ≡ callback_on m (found t)
  pub pvc : IsPatch client.patch_pvc
  pub secret : IsPatch client.patch_secret

-- A patch by a function that sets no callback has none.
no_callback :
    {T : Type 0} (patch : Patch T) (m : T → Mutation T) (t : T)
    → IsPatch patch
    → ((x : T) → (m x).callback ≡ none)
    → (patch m t).callback ≡ none
no_callback patch m t h k = from (h m t)
  where
    from :
        ((patch m t).callback ≡ none) ⊎ ((live : _) × ((patch m t).callback ≡ (m live).callback))
        → (patch m t).callback ≡ none
    from (inl e) = e
    from (inr (live, e)) = e ∙ k live

patch_child-no_callback :
    {T : Type 0} (patch : Patch T) (m : T → T → Mutation T) (c : ChildResource T) (o : Option T)
    → c.current ≡ o
    → IsPatch patch
    → ((d x : T) → (m d x).callback ≡ none)
    → (patch_child patch m c).status_callback ≡ none
unfolding patch_child
patch_child-no_callback patch m c none e h k = rw (e, patch_child)
patch_child-no_callback patch m c (some t) e h k =
    rw (e, patch_child) (no_callback patch (m c.desired) t h (k c.desired))

-- The stateful set that a reconciliation finds, if it looks for one.
unfoldable pub found_by :
    {V : Type 0}
    → (StatefulSet V → Option (StatefulSet V))
    → Option (StatefulSet V)
    → Option (StatefulSet V)
found_by found none = none
found_by found (some current) = found current

callback_on-scaling :
    {V : Type 0} (owned : SetOwner) (now : Time) (cr : AmaltheaSession) (d : StatefulSet V)
    (o : Option (StatefulSet V))
    → callback_on (mutate_stateful_set owned now cr d) o ≡ callback_for now (scaling o d)
unfolding scaling callback_for
callback_on-scaling owned now cr d none = refl
callback_on-scaling owned now cr d (some x) = mutate_stateful_set-callback owned cr now d x

patch-callback_for :
    {V : Type 0} (client : ChildClient V) (found : StatefulSet V → Option (StatefulSet V))
    (now : Time) (cr : AmaltheaSession) (c : ChildResource (StatefulSet V))
    (o : Option (StatefulSet V))
    → c.current ≡ o
    → IsChildClient client found
    → (reconcile_stateful_set client now cr c).status_callback
      ≡ callback_for now (scaling (found_by found o) c.desired)
unfolding reconcile_stateful_set found_by scaling callback_for
patch-callback_for client found now cr c none e h = rw (e, patch_child) refl
patch-callback_for client found now cr c (some t) e h =
    rw (e, patch_child)
      (h.workload (mutate_stateful_set client.set_owner now cr c.desired) t
        ∙ callback_on-scaling client.set_owner now cr c.desired (found t))

either :
    {T : Type 0} (b : Bool) (x y : ChildResourceUpdate T)
    → x.status_callback ≡ none
    → y.status_callback ≡ none
    → (if b then x else y).status_callback ≡ none
either true x y p q = p
either false x y p q = q

module _ {V : Type 0} (client : ChildClient V) (found : StatefulSet V → Option (StatefulSet V))
    (now : Time) (cr : AmaltheaSession) (lawful : IsChildClient client found) where
  ingress-no_callback :
      (c : ChildResource (Ingress V)) (o : Option (Ingress V))
      → c.current ≡ o
      → (reconcile_ingress client now cr c).status_callback ≡ none
  unfolding reconcile_ingress
  ingress-no_callback c none e = rw (e, reconcile_ingress)
  ingress-no_callback c (some t) e =
      rw (e, reconcile_ingress)
        (either cr.spec.hibernated (deleted_ingress client now cr t (client.delete_ingress t))
          (patch_child client.patch_ingress (mutate_ingress client.set_owner cr) c)
          (deleted (client.delete_ingress t))
          (patch_child-no_callback client.patch_ingress (mutate_ingress client.set_owner cr) c
            c.current refl lawful.ingress (mutate_ingress-callback client.set_owner cr)))
    where
      deleted :
          (o : Option ClientError) → (deleted_ingress client now cr t o).status_callback ≡ none
      deleted none = refl
      deleted (some x) = refl

  pvcs-no_callback :
      (cs : List (ChildResource (Pvc V)))
      → All (λ u. u.status_callback ≡ none) (map (reconcile_pvc client now cr) cs)
  unfolding reconcile_pvc
  pvcs-no_callback [] = tt
  pvcs-no_callback (c ∷ cs) = (
    patch_child-no_callback client.patch_pvc (mutate_pvc client.set_owner cr) c c.current refl
        lawful.pvc (mutate_pvc-callback client.set_owner cr),
    pvcs-no_callback cs,
  )

  -- After a reconciliation of the children the callbacks change a status exactly as the scaling of
  -- the stateful set asks for: from one replica to none all times since when the session is idle,
  -- failing or failing to be scheduled are reset and it is hibernated from now on; from none to one
  -- these times and that of the hibernation are reset; else, also for a stateful set that is new or is
  -- not found, nothing changes. CreateOrPatch calls its function on the object that it finds or on
  -- the new one, once at most.
  pub status_callback-reconcile_children :
      (c : ChildResources V) (s : Status)
      → status_callback (reconcile_children client now cr c).0 s
        ≡ after_scaling now
            (scaling (found_by found c.stateful_set.current) c.stateful_set.desired)
            s
  unfolding reconcile_children
  status_callback-reconcile_children c s =
      let k = scaling (found_by found c.stateful_set.current) c.stateful_set.desired in
      status_callback-stateful_set (reconcile_children client now cr c).0 s
        (ingress-no_callback c.ingress c.ingress.current refl)
        (patch_child-no_callback client.patch_service (mutate_service client.set_owner cr) c.service
          c.service.current refl lawful.service (mutate_service-callback client.set_owner cr))
        (patch_child-no_callback client.patch_secret (mutate_secret client.set_owner cr) c.secret
          c.secret.current refl lawful.secret (mutate_secret-callback client.set_owner cr))
        (patch_child-no_callback client.patch_pvc (mutate_pvc client.set_owner cr) c.pvc
          c.pvc.current refl lawful.pvc (mutate_pvc-callback client.set_owner cr))
        (pvcs-no_callback c.data_sources_pvcs)
      ∙ ap (λ o. apply_callback o s)
          (patch-callback_for client found now cr c.stateful_set c.stateful_set.current refl lawful)
      ∙ apply_callback_for now k s
