-- ===== src/Controller/Children/Mutations/Strategy.antt =====
-- When a reconciliation changes a child that exists: the strategy of the session, the scaling of
-- its workload, and the secret of its tunnel.
use amalthea.Prelude.{
  ℕ, ◌<◌, String, ◌≡◌, refl, ap, ◌∙◌, inl, inr, Bool, true, false, ◌&&◌, ◌||◌, Option, none, some,
  [], arith, ◌==◌, ℕ_eq, String_eq, if◌then◌else◌, Bool-cases, is_some, StringMap, or_else, lookup,
  lookup-insert, copy, lookup-copy,
}
use amalthea.Time.{Time, is_zero}
use amalthea.Kube.{StatefulSet, Pvc, Service, Ingress, Secret}
use amalthea.Api.{
  AmaltheaSession, Status, State_eq, failed, hibernated, ReconcileStrategy, never, always,
  when_failed_or_hibernated, unknown_strategy,
}
use amalthea.Controller.Children.Labels.{clean_well_known}
use amalthea.Controller.Children.Mutations.{
  Mutation, SetOwner, is_failed_or_hibernated, by_strategy, reconcile_by, resumed, hibernating,
  mutate_ingress, mutate_stateful_set, mutate_pvc, mutate_service, mutate_secret,
  scaled_stateful_set, updated_stateful_set, replicas_callback, tunnel_key, keep_tunnel,
  with_tunnel, tunnel_of, merged_metadata,
}

-- The strategy lets an update of a child through.
may_update_by : ReconcileStrategy → Bool → Bool
may_update_by never idle = false
may_update_by always idle = true
may_update_by when_failed_or_hibernated idle = idle
may_update_by (unknown_strategy s) idle = false

unfoldable pub may_update : AmaltheaSession → Bool
unfolding may_update_by
may_update cr =
    may_update_by cr.spec.reconcile_strategy
      (cr.status.state == failed || cr.status.state == hibernated)

unfoldable pub is_unknown : ReconcileStrategy → Bool
is_unknown (unknown_strategy s) = true
is_unknown _ = false

by_strategy_lem :
    {T : Type 0} (kind : String) (strategy : ReconcileStrategy) (idle : Bool) (before after : T)
    → let (object, e) = by_strategy kind strategy idle before after in
      (object ≡ (if may_update_by strategy idle then after else before))
      × (is_some e ≡ is_unknown strategy)
unfolding by_strategy may_update_by is_unknown
by_strategy_lem kind never idle before after = (refl, refl)
by_strategy_lem kind always idle before after = (refl, refl)
by_strategy_lem kind when_failed_or_hibernated idle before after = (refl, refl)
by_strategy_lem kind (unknown_strategy s) idle before after = (refl, refl)

reconcile_by_lem :
    {T : Type 0} (kind : String) (cr : AmaltheaSession) (callback : Option (Status → Status))
    (before after : T)
    → let m = reconcile_by kind cr callback before after in
      (m.object ≡ (if may_update cr then after else before))
      × (is_some m.error ≡ is_unknown cr.spec.reconcile_strategy)
      × (m.callback ≡ callback)
unfolding reconcile_by may_update
reconcile_by_lem kind cr callback before after =
    let l =
      by_strategy_lem kind cr.spec.reconcile_strategy (is_failed_or_hibernated cr) before after in
    (l.0, l.1, refl)

-- The same for an object that exists, whatever is done with a new one.
existing_lem :
    {T : Type 0} (created : Time) (fresh : Mutation T) (kind : String) (cr : AmaltheaSession)
    (callback : Option (Status → Status)) (before after : T)
    → 0 < created
    → let m = if is_zero created then fresh else reconcile_by kind cr callback before after in
      (m.object ≡ (if may_update cr then after else before))
      × (is_some m.error ≡ is_unknown cr.spec.reconcile_strategy)
      × (m.callback ≡ callback)
existing_lem created fresh kind cr callback before after h =
    let old : is_zero created ≡ false = ground arith in
    rw old (reconcile_by_lem kind cr callback before after)

existing_kept :
    {T : Type 0} (created : Time) (fresh : Mutation T) (kind : String) (cr : AmaltheaSession)
    (callback : Option (Status → Status)) (before after : T)
    → may_update cr ≡ false
    → 0 < created
    → (if is_zero created then fresh else reconcile_by kind cr callback before after).object
      ≡ before
existing_kept created fresh kind cr callback before after e h =
    rw e at ((existing_lem created fresh kind cr callback before after h).0)

existing_updated :
    {T : Type 0} (created : Time) (fresh : Mutation T) (kind : String) (cr : AmaltheaSession)
    (callback : Option (Status → Status)) (before after : T)
    → may_update cr ≡ true
    → 0 < created
    → (if is_zero created then fresh else reconcile_by kind cr callback before after).object ≡ after
existing_updated created fresh kind cr callback before after e h =
    rw e at ((existing_lem created fresh kind cr callback before after h).0)

replicas_callback-some :
    (now : Time) (a b : ℕ) {current desired : Option ℕ}
    → current ≡ some a
    → desired ≡ some b
    → replicas_callback now current desired ≡ (
        if a == 1 && b == 0
        then some (hibernating now)
        else if a == 0 && b == 1
        then some resumed
        else none)
unfolding replicas_callback
replicas_callback-some now a b ea eb = rw (ea, eb)

module _ {V : Type 0} (owned : SetOwner) (cr : AmaltheaSession) where
  -- Where the strategy of the session lets no update through, the reconciliation of an ingress, a
  -- volume claim, a service or a secret that exists leaves the object as it is.
  pub kept_without_update :
      (i i' : Ingress V) (p p' : Pvc V) (s s' : Service V) (x x' : Secret)
      → may_update cr ≡ false
      → 0 < i'.metadata.creation_timestamp
      → 0 < p'.metadata.creation_timestamp
      → 0 < s'.metadata.creation_timestamp
      → 0 < x'.metadata.creation_timestamp
      → ((mutate_ingress owned cr i i').object ≡ i')
        × ((mutate_pvc owned cr p p').object ≡ p')
        × ((mutate_service owned cr s s').object ≡ s')
        × ((mutate_secret owned cr x x').object ≡ x')
  unfolding mutate_ingress mutate_pvc mutate_service mutate_secret
  kept_without_update i i' p p' s s' x x' h hi hp hs hx = (
    existing_kept _ _ "ingress" cr none i' _ h hi,
    existing_kept _ _ "PVC" cr none p' _ h hp,
    existing_kept _ _ "service" cr none s' _ h hs,
    existing_kept _ _ "secret" cr none x' _ h hx,
  )

  -- A stateful set that exists is scaled as desired, and gets the desired tolerations, affinity, node
  -- selector and priority class, under every strategy, also under never. Its containers and labels
  -- change only if the strategy lets an update through: then it has the desired containers, and its
  -- own labels as far as they are well-known. Only a strategy that is not known gives an error.
  pub mutate_stateful_set_lem :
      (now : Time) (desired current : StatefulSet V)
      → 0 < current.metadata.creation_timestamp
      → let m = mutate_stateful_set owned now cr desired current in
        (m.object.spec.replicas ≡ desired.spec.replicas)
        × (m.object.spec.template.tolerations ≡ desired.spec.template.tolerations)
        × (m.object.spec.template.affinity ≡ desired.spec.template.affinity)
        × (m.object.spec.template.node_selector ≡ desired.spec.template.node_selector)
        × (m.object.spec.template.priority_class_name ≡ desired.spec.template.priority_class_name)
        × (m.object.spec.template.containers ≡ (
            if may_update cr
            then desired.spec.template.containers
            else current.spec.template.containers))
        × (m.object.metadata.labels ≡ (
            if may_update cr
            then clean_well_known current.metadata.labels desired.metadata.labels
            else current.metadata.labels))
        × (is_some m.error ≡ is_unknown cr.spec.reconcile_strategy)
  unfolding mutate_stateful_set
  mutate_stateful_set_lem now desired current h =
      let scaled = scaled_stateful_set owned desired current in
      let updated = updated_stateful_set owned desired scaled in
      let m = mutate_stateful_set owned now cr desired current in
      let known : is_some m.error ≡ is_unknown cr.spec.reconcile_strategy =
        (existing_lem current.metadata.creation_timestamp _ "ingress" cr _ scaled updated h).1 in
      elim (Bool-cases (may_update cr)) [
        | inl e ↦
            let o : m.object ≡ updated = existing_updated _ _ "ingress" cr _ scaled updated e h in
            rw e (
              ap (λ x. x.spec.replicas) o,
              ap (λ x. x.spec.template.tolerations) o,
              ap (λ x. x.spec.template.affinity) o,
              ap (λ x. x.spec.template.node_selector) o,
              ap (λ x. x.spec.template.priority_class_name) o,
              ap (λ x. x.spec.template.containers) o,
              ap (λ x. x.metadata.labels) o,
              known,
            )
        | inr e ↦
            let o : m.object ≡ scaled = existing_kept _ _ "ingress" cr _ scaled updated e h in
            rw e (
              ap (λ x. x.spec.replicas) o,
              ap (λ x. x.spec.template.tolerations) o,
              ap (λ x. x.spec.template.affinity) o,
              ap (λ x. x.spec.template.node_selector) o,
              ap (λ x. x.spec.template.priority_class_name) o,
              ap (λ x. x.spec.template.containers) o,
              ap (λ x. x.metadata.labels) o,
              known,
            )
      ]

  -- What a reconciliation does to the status of a session whose stateful set exists: it is marked
  -- as hibernated from now on when the set is scaled from one replica to none, all the times since
  -- when it is in some state are forgotten when it is scaled up again, and nothing is done else.
  pub mutate_stateful_set_callback :
      (now : Time) (desired current : StatefulSet V) (a b : ℕ)
      → 0 < current.metadata.creation_timestamp
      → current.spec.replicas ≡ some a
      → desired.spec.replicas ≡ some b
      → (mutate_stateful_set owned now cr desired current).callback ≡ (
          if a == 1 && b == 0
          then some (hibernating now)
          else if a == 0 && b == 1
          then some resumed
          else none)
  unfolding mutate_stateful_set
  mutate_stateful_set_callback now desired current a b h ea eb =
      let scaled = scaled_stateful_set owned desired current in
      let c : (mutate_stateful_set owned now cr desired current).callback
          ≡ replicas_callback now current.spec.replicas desired.spec.replicas =
        (existing_lem current.metadata.creation_timestamp _ "ingress" cr _ scaled
          (updated_stateful_set owned desired scaled) h).2 in
      c ∙ replicas_callback-some now a b ea eb

lookup-with_tunnel :
    (k : String) (tunnel : Option String) (m : StringMap String)
    → lookup k (with_tunnel tunnel m)
      ≡ (if tunnel_key == k then or_else tunnel (lookup k m) else lookup k m)
unfolding with_tunnel
lookup-with_tunnel k none m = ground arith
lookup-with_tunnel k (some v) m = lookup-insert tunnel_key k v m

lookup-keep_tunnel :
    (k : String) (content : Option (StringMap String)) (desired : StringMap String)
    → lookup k (keep_tunnel content desired) ≡ (
        if tunnel_key == k
        then or_else (tunnel_of content) (lookup k desired)
        else lookup k desired)
unfolding keep_tunnel lookup
lookup-keep_tunnel k content desired =
    ground
      (arith, lookup-with_tunnel k (tunnel_of content) (copy desired []), lookup-copy k desired [])

-- An update of a secret that exists, if the strategy lets it through, sets the text data that are
-- desired, but for the secret of the tunnel: one that the object holds already is kept.
pub mutate_secret-keeps_tunnel :
    (owned : SetOwner) (cr : AmaltheaSession) (desired current : Secret) (k : String)
    → may_update cr ≡ true
    → 0 < current.metadata.creation_timestamp
    → let m = mutate_secret owned cr desired current in
      (lookup k m.object.string_data ≡ (
        if tunnel_key == k
        then or_else (tunnel_of current.content) (lookup k desired.string_data)
        else lookup k desired.string_data))
      × (m.object.content ≡ desired.content)
unfolding mutate_secret
mutate_secret-keeps_tunnel owned cr desired current k e h =
    let updated : Secret = record {
      metadata = merged_metadata current.metadata desired.metadata;
      content = desired.content;
      string_data = keep_tunnel current.content desired.string_data;
    } in
    let o : (mutate_secret owned cr desired current).object ≡ updated =
      existing_updated _ _ "secret" cr none current updated e h in
    (
      ap (λ x. lookup k x.string_data) o ∙ lookup-keep_tunnel k current.content desired.string_data,
      ap (λ x. x.content) o,
    )
