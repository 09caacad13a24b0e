-- ===== src/Controller/Idleness.antt =====
-- Whether a session is idle (metrics and getIdleState in internal/controller/status.go).
use amalthea.Prelude.{
  ◌<◌, ◌≡◌, Bool, true, false, ◌&&◌, not, Option, none, some, List, [], ◌∷◌, arith, ◌==◌, ℕ_eq,
  String_eq, if◌then◌else◌, holds,
}
use amalthea.Time.{Time, ℤ, is_zero, less}
use amalthea.Kube.{ContainerMetrics}
use amalthea.Api.{AmaltheaSession, session_container_name}

-- The CPU use of the session's container; none where they do not name it. The answer of the
-- metrics server is none where it fails, and else the pods that it lists.
cpu_of_session : List ContainerMetrics → Option ℤ
cpu_of_session [] = none
cpu_of_session (c ∷ cs) = if c.name == session_container_name then some c.cpu else cpu_of_session cs

unfoldable pub cpu_usage : Option (List (List ContainerMetrics)) → Option ℤ
unfolding cpu_of_session
cpu_usage none = none
cpu_usage (some []) = none
cpu_usage (some (pod ∷ pods)) = cpu_of_session pod

pub data IdleDecision : Type 0 where
  unknown idle not_idle : IdleDecision

abbrev is_idle : IdleDecision → Bool
is_idle idle = true
is_idle _ = false

cpu_decision : ℤ → Option ℤ → IdleDecision
cpu_decision threshold none = unknown
cpu_decision threshold (some cpu) = if less cpu threshold then idle else not_idle

-- The time since when the session is idle, zero if it is not, and whether it is. `now` is the
-- reading of the clock.
unfoldable pub get_idle_state :
    Time → Option (List (List ContainerMetrics)) → Option AmaltheaSession → Time × Bool
unfolding cpu_usage cpu_decision
get_idle_state now metrics none = (0, false)
get_idle_state now metrics (some cr) =
    let since = cr.status.idle_since in
    let is = is_idle (cpu_decision cr.spec.culling.cpu_idle_threshold (cpu_usage metrics)) in
    if is && is_zero since
    then (now, is)
    else if not is && not (is_zero since)
    then (0, is)
    else (since, is)

-- A session is idle exactly when its container's CPU use is known and below the threshold; and at
-- a clock that is past the zero time it has a time since when it is idle exactly when it is idle.
-- The time is kept while the session stays idle.
pub get_idle_state_lem :
    (now : Time) (metrics : Option (List (List ContainerMetrics))) (cr : AmaltheaSession)
    → 0 < now
    → let (since, is) = get_idle_state now metrics (some cr) in
      (is ≡ holds (cpu_usage metrics) (λ cpu. less cpu cr.spec.culling.cpu_idle_threshold))
      × (is_zero since ≡ not is)
      × (is ≡ true → 0 < cr.status.idle_since → since ≡ cr.status.idle_since)
unfolding get_idle_state cpu_decision
get_idle_state_lem now metrics cr h = ground arith
