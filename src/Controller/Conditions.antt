-- ===== src/Controller/Conditions.antt =====
-- The conditions of a session's status (Conditions in internal/controller/children.go).
use amalthea.Prelude.{
  String, ◌<>◌, ◌≡◌, refl, ◌∙◌, map, ◌≢◌, ◌⊎◌, inr, Bool, true, ◌&&◌, not, List, [], ◌∷◌, arith,
  ◌==◌, ℕ_eq, String_eq, eq_iff, if◌then◌else◌, is_some, All,
}
use amalthea.Time.{Time}
use amalthea.Api.{
  AmaltheaSession, SessionCondition, ConditionType, ready_condition, routing_ready_condition, State,
  State_eq, state_string, running, failed, hibernated, not_ready, running_degraded, succeeded,
  new_conditions,
}

-- `strings.ToLower(string(state))`
abbrev pub lower_state : State → String
lower_state running = "running"
lower_state failed = "failed"
lower_state hibernated = "hibernated"
lower_state not_ready = "notready"
lower_state running_degraded = "runningdegraded"
lower_state succeeded = "succeeded"

ready_after : Time → State → Bool → SessionCondition → SessionCondition
ready_after now s is_running c =
    if is_running && c.status == "False"
    then record c {
      status = "True";
      last_transition_time = now;
      reason = state_string s;
      message = "The session is " <> lower_state s;
    }
    else if not is_running && c.status == "True"
    then record c {
      status = "False";
      last_transition_time = now;
      reason = state_string s;
      message = "The session is " <> lower_state s;
    }
    else c

-- `found` tells whether the ingress can be read from the API server.
routing_after : Time → AmaltheaSession → Bool → SessionCondition → SessionCondition
routing_after now cr found c =
    if not (is_some cr.spec.ingress) && c.status == "True"
    then record c {
      status = "False";
      last_transition_time = now;
      reason = "IngressDeleted";
      message =
          "The ingress information was not specified or was deleted from custom resource "
          <> cr.name;
    }
    else if is_some cr.spec.ingress && c.status == "False" && found
    then record c {
      status = "True";
      last_transition_time = now;
      reason = "IngressOperational";
      message = "The ingress is setup and operational";
    }
    else c

-- A session that has no conditions yet gets the two new ones.
or_new : Time → List SessionCondition → List SessionCondition
or_new now [] = new_conditions now
or_new now (c ∷ cs) = c ∷ cs

module _ (now : Time) (s : State) (cr : AmaltheaSession) (found : Bool) where
  condition_of : ConditionType → SessionCondition → SessionCondition
  unfolding ready_after routing_after
  condition_of ready_condition c = ready_after now s (s == running) c
  condition_of routing_ready_condition c = routing_after now cr found c

  update_conditions : List SessionCondition → List SessionCondition
  unfolding condition_of
  update_conditions [] = []
  update_conditions (c ∷ cs) = condition_of c.type c ∷ update_conditions cs

  unfoldable pub conditions : List SessionCondition
  unfolding update_conditions or_new
  conditions = update_conditions (or_new now cr.status.conditions)

-- A condition has one of the two statuses that the operator gives.
abbrev pub IsDecided : SessionCondition → Type 0
IsDecided c = (c.status ≡ "True") ⊎ (c.status ≡ "False")

-- What is said of the conditions of a session in the state `s`.
abbrev pub IsCurrent : State → AmaltheaSession → Bool → SessionCondition → Type 0
IsCurrent s cr found c =
    (c.type ≡ ready_condition → (c.status ≡ (if s == running then "True" else "False")))
    × (c.type ≡ routing_ready_condition → c.status ≡ "True" → is_some cr.spec.ingress ≡ true)
    × (c.type ≡ routing_ready_condition
        → is_some cr.spec.ingress ≡ true
        → found ≡ true
        → c.status ≡ "True")

true-ne-false : ◌≢◌ {A = String} "True" "False"
true-ne-false = ground (arith, eq_iff "True" "False")

condition_of-IsCurrent :
    (now : Time) (s : State) (cr : AmaltheaSession) (found : Bool) (t : ConditionType)
    (c : SessionCondition)
    → c.type ≡ t
    → IsDecided c
    → IsCurrent s cr found (condition_of now s cr found t c)
      × IsDecided (condition_of now s cr found t c)
unfolding condition_of
condition_of-IsCurrent now s cr found ready_condition c e d =
    ground (arith, true-ne-false, eq_iff c.status "True", eq_iff c.status "False")
condition_of-IsCurrent now s cr found routing_ready_condition c e d =
    ground (arith, true-ne-false, eq_iff c.status "True", eq_iff c.status "False")

condition_of-type :
    (now : Time) (s : State) (cr : AmaltheaSession) (found : Bool) (t : ConditionType)
    (c : SessionCondition)
    → (condition_of now s cr found t c).type ≡ c.type
unfolding condition_of
condition_of-type now s cr found ready_condition c = ground arith
condition_of-type now s cr found routing_ready_condition c = ground arith

-- A condition that is current already is left alone, with the time of its last transition.
condition_of_idem :
    (now : Time) (s : State) (cr : AmaltheaSession) (found : Bool) (t : ConditionType)
    (c : SessionCondition)
    → c.type ≡ t
    → IsCurrent s cr found c
    → condition_of now s cr found t c ≡ c
unfolding condition_of
condition_of_idem now s cr found ready_condition c e h =
    ground (arith, true-ne-false, eq_iff c.status "True", eq_iff c.status "False")
condition_of_idem now s cr found routing_ready_condition c e h =
    ground (arith, true-ne-false, eq_iff c.status "True", eq_iff c.status "False")

abbrev IsSettled : State → AmaltheaSession → Bool → SessionCondition → Type 0
IsSettled s cr found c = IsCurrent s cr found c × IsDecided c

update_conditions-IsSettled :
    (now : Time) (s : State) (cr : AmaltheaSession) (found : Bool) (cs : List SessionCondition)
    → All IsDecided cs
    → All (IsSettled s cr found) (update_conditions now s cr found cs)
unfolding update_conditions
update_conditions-IsSettled now s cr found [] h = tt
update_conditions-IsSettled now s cr found (c ∷ cs) h = (
  condition_of-IsCurrent now s cr found c.type c refl h.0,
  update_conditions-IsSettled now s cr found cs h.1,
)

or_new-IsDecided :
    (now : Time) (cs : List SessionCondition) → All IsDecided cs → All IsDecided (or_new now cs)
unfolding or_new new_conditions
or_new-IsDecided now [] h = (inr refl, (inr refl, tt))
or_new-IsDecided now (c ∷ cs) h = h

-- The types of the conditions that a session has after an update: both if it had none.
abbrev pub types_after : List SessionCondition → List ConditionType
types_after [] = ready_condition ∷ routing_ready_condition ∷ []
types_after (c ∷ cs) = map (λ d. d.type) (c ∷ cs)

update_conditions-types :
    (now : Time) (s : State) (cr : AmaltheaSession) (found : Bool) (cs : List SessionCondition)
    → map (λ d. d.type) (update_conditions now s cr found cs) ≡ map (λ d. d.type) cs
unfolding update_conditions
update_conditions-types now s cr found [] = refl
update_conditions-types now s cr found (c ∷ cs) =
    cc (condition_of-type now s cr found c.type c, update_conditions-types now s cr found cs)

or_new-types :
    (now : Time) (cs : List SessionCondition) → map (λ d. d.type) (or_new now cs) ≡ types_after cs
unfolding or_new new_conditions
or_new-types now [] = refl
or_new-types now (c ∷ cs) = refl

updated-IsSettled :
    (now : Time) (s : State) (cr : AmaltheaSession) (found : Bool)
    → All IsDecided cr.status.conditions
    → All (λ c. IsCurrent s cr found c × IsDecided c) (conditions now s cr found)
unfolding conditions
updated-IsSettled now s cr found h =
    update_conditions-IsSettled now s cr found (or_new now cr.status.conditions)
      (or_new-IsDecided now cr.status.conditions h)

-- Where the conditions of a session were decided, as those that the operator makes are, the updated
-- ones are decided too and speak of the present: the session is ready exactly when its state is
-- running; its routing is ready only if an ingress is specified, and it is if that can be read.
-- They are of the types of the old ones, in their order, or of both types if there were none.
pub conditions-IsSettled :
    (now : Time) (s : State) (cr : AmaltheaSession) (found : Bool)
    → All IsDecided cr.status.conditions
    → All (λ c. IsCurrent s cr found c × IsDecided c) (conditions now s cr found)
      × (map (λ c. c.type) (conditions now s cr found) ≡ types_after cr.status.conditions)
unfolding conditions
conditions-IsSettled now s cr found h = (
  updated-IsSettled now s cr found h,
  update_conditions-types now s cr found (or_new now cr.status.conditions)
      ∙ or_new-types now cr.status.conditions,
)

update_conditions_idem :
    (now : Time) (s : State) (cr : AmaltheaSession) (found : Bool) (cs : List SessionCondition)
    → All (IsSettled s cr found) cs
    → update_conditions now s cr found cs ≡ cs
unfolding update_conditions
update_conditions_idem now s cr found [] h = refl
update_conditions_idem now s cr found (c ∷ cs) h = cc (
  condition_of_idem now s cr found c.type c refl h.0.0,
  update_conditions_idem now s cr found cs h.1,
)

settled-or_new :
    (now later : Time) (s : State) (cr : AmaltheaSession) (found : Bool)
    (cs : List SessionCondition)
    → or_new later (update_conditions now s cr found (or_new now cs))
      ≡ update_conditions now s cr found (or_new now cs)
unfolding update_conditions or_new new_conditions
settled-or_new now later s cr found [] = refl
settled-or_new now later s cr found (c ∷ cs) = refl

-- The session with the conditions that an update gives it.
abbrev pub with_conditions : AmaltheaSession → List SessionCondition → AmaltheaSession
with_conditions cr cs = record cr { status = record cr.status { conditions = cs } }

-- An update of the conditions that nothing has changed for leaves them as they are, with the times
-- of their last transitions, whenever it comes.
pub conditions_idem :
    (now later : Time) (s : State) (cr : AmaltheaSession) (found : Bool)
    → All IsDecided cr.status.conditions
    → conditions later s (with_conditions cr (conditions now s cr found)) found
      ≡ conditions now s cr found
unfolding conditions
conditions_idem now later s cr found h =
    rw (settled-or_new now later s cr found cr.status.conditions) (
      update_conditions_idem later s (with_conditions cr (conditions now s cr found)) found
        (conditions now s cr found) (updated-IsSettled now s cr found h))
