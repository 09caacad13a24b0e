-- ===== src/Controller/Children/Mutations/Callbacks.antt =====
-- The callbacks that a reconciliation can set: only those of a workload that is scaled.
use amalthea.Prelude.{
  ℕ, ◌≡◌, refl, inl, inr, Bool, true, false, ◌&&◌, Option, none, some, arith, ◌==◌, ℕ_eq, String_eq,
  if◌then◌else◌, Bool-cases,
}
use amalthea.Time.{Time, is_zero}
use amalthea.Kube.{StatefulSet, Pvc, Service, Ingress, Secret}
use amalthea.Api.{AmaltheaSession, Status}
use amalthea.Controller.Updates.{apply_callback}
use amalthea.Controller.Children.Mutations.{
  Mutation, SetOwner, resumed, hibernating, mutate_ingress, mutate_stateful_set, mutate_pvc,
  mutate_service, mutate_secret, replicas_callback, scaled,
}

-- What a reconciliation does to the workload of a session.
pub data Scaling : Type 0 where
  unscaled woken put_to_sleep : Scaling

-- From one number of replicas to another, where both are given.
unfoldable pub scaling_between : Option ℕ → Option ℕ → Scaling
scaling_between none b = unscaled
scaling_between (some a) none = unscaled
scaling_between (some a) (some b) =
    if a == 1 && b == 0 then put_to_sleep else if a == 0 && b == 1 then woken else unscaled

-- Of a stateful set that is found or not; one that is not in the cluster yet is made, not scaled.
unfoldable pub scaling : {V : Type 0} → Option (StatefulSet V) → StatefulSet V → Scaling
unfolding scaling_between
scaling none desired = unscaled
scaling (some live) desired =
    if is_zero live.metadata.creation_timestamp
    then unscaled
    else scaling_between live.spec.replicas desired.spec.replicas

-- The status after it: a session that wakes up or goes to sleep has no time since when it is idle,
-- failing or failing to be scheduled, and one that goes to sleep is hibernated from now on.
unfoldable pub after_scaling : Time → Scaling → Status → Status
after_scaling now unscaled s = s
after_scaling now woken s = record s {
  idle_since = 0;
  failing_since = 0;
  failed_scheduling_since = 0;
  hibernated_since = 0;
}
after_scaling now put_to_sleep s = record s {
  idle_since = 0;
  failing_since = 0;
  failed_scheduling_since = 0;
  hibernated_since = now;
}

unfoldable pub callback_for : Time → Scaling → Option (Status → Status)
callback_for now unscaled = none
callback_for now woken = some resumed
callback_for now put_to_sleep = some (hibernating now)

pub apply_callback_for :
    (now : Time) (k : Scaling) (s : Status)
    → apply_callback (callback_for now k) s ≡ after_scaling now k s
unfolding callback_for apply_callback after_scaling resumed hibernating
apply_callback_for now unscaled s = refl
apply_callback_for now woken s = refl
apply_callback_for now put_to_sleep s = refl

either-callback :
    {T : Type 0} (b : Bool) (x y : Mutation T) (o : Option (Status → Status))
    → x.callback ≡ o
    → y.callback ≡ o
    → (if b then x else y).callback ≡ o
either-callback true x y o p q = p
either-callback false x y o p q = q

chosen-callback_for :
    (now : Time) (down up : Bool)
    → (if down then some (hibernating now) else if up then some resumed else none)
      ≡ callback_for now (if down then put_to_sleep else if up then woken else unscaled)
unfolding callback_for
chosen-callback_for now true up = refl
chosen-callback_for now false true = refl
chosen-callback_for now false false = refl

replicas_callback-scaling_between :
    (now : Time) (a b : Option ℕ)
    → replicas_callback now a b ≡ callback_for now (scaling_between a b)
unfolding replicas_callback scaled scaling_between callback_for
replicas_callback-scaling_between now none b = refl
replicas_callback-scaling_between now (some a) none = ground arith
replicas_callback-scaling_between now (some a) (some b) =
    chosen-callback_for now (a == 1 && b == 0) (a == 0 && b == 1)

module _ {V : Type 0} (owned : SetOwner) (cr : AmaltheaSession) where
  pub mutate_ingress-callback : (d x : Ingress V) → (mutate_ingress owned cr d x).callback ≡ none
  unfolding mutate_ingress
  mutate_ingress-callback d x =
      either-callback (is_zero x.metadata.creation_timestamp) _ _ none refl refl

  pub mutate_pvc-callback : (d x : Pvc V) → (mutate_pvc owned cr d x).callback ≡ none
  unfolding mutate_pvc
  mutate_pvc-callback d x =
      either-callback (is_zero x.metadata.creation_timestamp) _ _ none refl refl

  pub mutate_service-callback : (d x : Service V) → (mutate_service owned cr d x).callback ≡ none
  unfolding mutate_service
  mutate_service-callback d x =
      either-callback (is_zero x.metadata.creation_timestamp) _ _ none refl refl

  pub mutate_stateful_set-callback :
      (now : Time) (d x : StatefulSet V)
      → (mutate_stateful_set owned now cr d x).callback ≡ callback_for now (scaling (some x) d)
  unfolding mutate_stateful_set scaling callback_for
  mutate_stateful_set-callback now d x = elim (Bool-cases (is_zero x.metadata.creation_timestamp)) [
    | inl e ↦ rw e refl
    | inr e ↦ rw e (replicas_callback-scaling_between now x.spec.replicas d.spec.replicas)
  ]

pub mutate_secret-callback :
    (owned : SetOwner) (cr : AmaltheaSession) (d x : Secret)
    → (mutate_secret owned cr d x).callback ≡ none
unfolding mutate_secret
mutate_secret-callback owned cr d x =
    either-callback (is_zero x.metadata.creation_timestamp) _ _ none refl refl
