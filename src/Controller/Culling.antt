-- ===== src/Controller/Culling.antt =====
-- When a session is hibernated (internal/controller/cull.go). The clock is an argument `now`; the
-- answer of the API server to an update is a parameter.
pub mod Dates
use amalthea.Prelude.{
  ℕ, ◌+◌, ◌≤◌, ◌<◌, ◌≡◌, refl, ◌⊎◌, Bool, true, false, ◌&&◌, ◌||◌, not, List, [], ◌∷◌, arith, ltb,
  ◌==◌, ℕ_eq, String_eq, if◌then◌else◌,
}
use amalthea.Time.{Time, pos, is_zero, add, is_positive}
use amalthea.Api.{
  AmaltheaSession, Status, Culling, State_eq, not_ready, hibernated, is_non_interactive,
}

pub hibernation_date_by_max_age : Time → Culling → Time
hibernation_date_by_max_age creation culling =
    if is_positive culling.max_age then add creation culling.max_age else 0

pub hibernation_date_by_starting_duration : Time → Status → Culling → Time
hibernation_date_by_starting_duration creation status culling =
    if is_positive culling.max_starting_duration && status.state == not_ready
    then add creation culling.max_starting_duration
    else 0

pub hibernation_date_by_failing_since : Status → Culling → Time
hibernation_date_by_failing_since status culling =
    if not (is_zero status.failing_since) && is_positive culling.max_failed_duration
    then add status.failing_since culling.max_failed_duration
    else 0

-- The later of the last interaction and the time since when the session is idle, if both are set.
pub last_idle_since : Status → Culling → Time
last_idle_since status culling =
    if not (is_zero culling.last_interaction)
      && not (is_zero status.idle_since)
      && ltb status.idle_since culling.last_interaction
    then culling.last_interaction
    else status.idle_since

pub hibernation_date_by_idle_since : Status → Culling → Time
unfolding last_idle_since
hibernation_date_by_idle_since status culling =
    let last = last_idle_since status culling in
    if not (is_zero last) && is_positive culling.max_idle_duration
    then add last culling.max_idle_duration
    else 0

unfoldable pub hibernation_dates : Time → Status → Culling → List Time
unfolding hibernation_date_by_max_age hibernation_date_by_starting_duration
    hibernation_date_by_failing_since hibernation_date_by_idle_since
hibernation_dates creation status culling =
    hibernation_date_by_max_age creation culling
    ∷ hibernation_date_by_starting_duration creation status culling
    ∷ hibernation_date_by_failing_since status culling
    ∷ hibernation_date_by_idle_since status culling
    ∷ []

-- One round of the loop of `calculateHibernationDate`.
pub earlier_date : Time → Time → Time
earlier_date result date =
    if is_zero result || (not (is_zero date) && ltb date result) then date else result

pub earliest_date : Time → List Time → Time
unfolding earlier_date
earliest_date result [] = result
earliest_date result (d ∷ ds) = earliest_date (earlier_date result d) ds

unfoldable pub calculate_hibernation_date : Time → Status → Culling → Time
unfolding earliest_date hibernation_dates
calculate_hibernation_date creation status culling =
    earliest_date 0 (hibernation_dates creation status culling)

unfoldable pub needs_scale_down : Time → Time → Bool
needs_scale_down now date = not (is_zero date) && ltb date now

-- The session as it is after `updateHibernationState`, and whether it is sent to the API server.
unfoldable pub update_hibernation_state : Time → AmaltheaSession → AmaltheaSession × Bool
unfolding needs_scale_down
update_hibernation_state now cr =
    if is_non_interactive cr.spec.session_type
    then (cr, false)
    else if not cr.spec.hibernated
        && not (cr.status.state == hibernated)
        && needs_scale_down now cr.status.will_hibernate_at
    then (record cr { spec = record cr.spec { hibernated = true } }, true)
    else (cr, false)

-- The date of a session that was created at `creation` and is idle since `idle` (both set), which
-- has only a maximum idle duration: that long after the last time it was known to be in use.
pub hibernation_date_idle :
    (creation m : ℕ) (status : Status) (culling : Culling)
    → culling.max_age ≡ pos 0
    → culling.max_starting_duration ≡ pos 0
    → culling.max_failed_duration ≡ pos 0
    → culling.max_idle_duration ≡ pos m
    → 0 < m
    → 0 < status.idle_since
    → let r = calculate_hibernation_date creation status culling in
      (status.idle_since + m ≤ r)
      × (culling.last_interaction + m ≤ r)
      × ((r ≡ status.idle_since + m) ⊎ (r ≡ culling.last_interaction + m))
unfolding calculate_hibernation_date last_idle_since
hibernation_date_idle creation m status culling a b c e p i = ground arith

-- The session is sent to the API server exactly when it changes; it changes exactly when it is an
-- interactive session that is neither hibernated nor asked to be, and the date set for its
-- hibernation has gone by. Then it is asked to hibernate, and nothing else of it changes.
pub update_hibernation_state_lem :
    (now : Time) (cr : AmaltheaSession)
    → let (cr', sent) = update_hibernation_state now cr in
      (sent ≡ (
        not (is_non_interactive cr.spec.session_type)
        && not cr.spec.hibernated
        && not (cr.status.state == hibernated)
        && ltb 0 cr.status.will_hibernate_at
        && ltb cr.status.will_hibernate_at now))
      × (cr' ≡ record cr { spec = record cr.spec { hibernated = cr.spec.hibernated || sent } })
unfolding update_hibernation_state
update_hibernation_state_lem now cr = ground arith
