-- ===== src/Api/Deletion.antt =====
-- When the operator deletes a session for good (NeedsDeletion in
-- api/v1alpha1/amaltheasession_children.go).
use amalthea.Prelude.{
  ℕ, ◌+◌, ◌<◌, ◌≡◌, ◌↔◌, ◌⊎◌, Bool, true, false, ◌&&◌, ◌||◌, not, arith, ltb, ◌==◌, ℕ_eq, String_eq,
  if◌then◌else◌,
}
use amalthea.Time.{Time, pos, negsuc, Duration, is_zero, since, less, max_duration}
use amalthea.Api.{
  AmaltheaSession, Status, SessionType, interactive, non_interactive, State_eq, failed, succeeded,
  hibernated,
}

-- When a job was done: when its containers ended, or when it began to fail, if that was before.
unfoldable pub done_since : Status → Time
done_since status =
    if not (is_zero status.failing_since)
      && not (is_zero status.idle_since)
      && ltb status.failing_since status.idle_since
    then status.failing_since
    else status.idle_since

needs_deletion_as : SessionType → Time → AmaltheaSession → Bool
unfolding done_since
needs_deletion_as non_interactive now cr =
    let done = done_since cr.status in
    not (is_zero done)
    && (cr.status.state == failed || cr.status.state == succeeded)
    && less cr.spec.culling.max_hibernated_duration (since now done)
needs_deletion_as interactive now cr =
    cr.status.state == hibernated
    && not (is_no_duration cr.spec.culling.max_hibernated_duration)
    && less cr.spec.culling.max_hibernated_duration (since now cr.status.hibernated_since)
  where
    is_no_duration : Duration → Bool
    is_no_duration (pos n) = is_zero n
    is_no_duration (negsuc n) = false

-- `now` is the reading of the clock in `time.Since`.
unfoldable pub needs_deletion : Time → AmaltheaSession → Bool
unfolding needs_deletion_as
needs_deletion now cr = needs_deletion_as cr.spec.session_type now cr

-- An interactive session is deleted exactly when it is hibernated, a positive maximum is set, and
-- it has been hibernated for longer than that. The maximum lies below Go's greatest duration.
pub needs_deletion_interactive :
    (now m : ℕ) (cr : AmaltheaSession)
    → cr.spec.session_type ≡ interactive
    → cr.spec.culling.max_hibernated_duration ≡ pos m
    → m < max_duration
    → (needs_deletion now cr ≡ true)
      ↔ ((cr.status.state ≡ hibernated) × (0 < m) × (cr.status.hibernated_since + m < now))
unfolding needs_deletion
needs_deletion_interactive now m cr t e b = ground arith

-- A job is deleted exactly when it has failed or succeeded, it is known since when, and that was
-- longer ago than the maximum, also if the maximum is zero. The maximum lies below Go's greatest
-- duration.
pub needs_deletion_job :
    (now m : ℕ) (cr : AmaltheaSession)
    → cr.spec.session_type ≡ non_interactive
    → cr.spec.culling.max_hibernated_duration ≡ pos m
    → m < max_duration
    → (needs_deletion now cr ≡ true) ↔ (
        (0 < done_since cr.status)
        × ((cr.status.state ≡ failed) ⊎ (cr.status.state ≡ succeeded))
        × (done_since cr.status + m < now))
unfolding needs_deletion
needs_deletion_job now m cr t e b = ground arith

-- A finished job whose maximum is zero is deleted as soon as time has passed: zero does not turn
-- the deletion off, as it does for interactive sessions.
pub zero_maximum_deletes_job :
    (now : ℕ) (cr : AmaltheaSession)
    → cr.spec.session_type ≡ non_interactive
    → cr.spec.culling.max_hibernated_duration ≡ pos 0
    → cr.status.state ≡ succeeded
    → cr.status.failing_since ≡ 0
    → 0 < cr.status.idle_since
    → cr.status.idle_since < now
    → needs_deletion now cr ≡ true
unfolding needs_deletion done_since
zero_maximum_deletes_job now cr t e s f i h = ground arith
