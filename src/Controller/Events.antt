-- ===== src/Controller/Events.antt =====
-- What the events of a session's pod say of its scheduling (EventsInferedState and
-- checkEventsInferedState in internal/controller/children.go, and the order of the events,
-- GetPodEvents in api/v1alpha1/amaltheasession_children.go). Go's sort.Slice is a parameter.
use amalthea.Prelude.{
  ℕ, ◌+◌, ◌≤◌, ◌<◌, String, ◌<>◌, ◌≡◌, refl, ◌⊎◌, inl, inr, Bool, true, false, ◌&&◌, not, Option,
  none, some, List, [], ◌∷◌, arith, ltb, ◌==◌, ℕ_eq, String_eq, if◌then◌else◌, Bool-cases, is_some,
  holds, is_empty, or_else, is_empty-append,
}
use amalthea.Time.{Time, Duration, pos, is_zero, since, less}
use amalthea.Kube.{Event, Answer, ok, err}
use amalthea.Api.{AmaltheaSession, State, State_eq, not_ready, failed}

pub data EventsInferedStateResult : Type 0 where
  eisr_none eisr_initially_failed eisr_temporary_failed eisr_finally_failed eisr_scheduled :
      EventsInferedStateResult

-- The time by which the events are sorted.
unfoldable pub event_timestamp : Event → Time
event_timestamp ev = if is_zero ev.event_time then ev.first_timestamp else ev.event_time

unfoldable pub event_before : Event → Event → Bool
unfolding event_timestamp
event_before a b = ltb (event_timestamp a) (event_timestamp b)

-- The time of the latest occurrence of an event.
unfoldable pub get_event_time : Option Event → Time
get_event_time none = 0
get_event_time (some ev) =
    if not (is_zero ev.last_timestamp)
    then ev.last_timestamp
    else if not (is_zero ev.event_time)
    then ev.event_time
    else ev.first_timestamp

-- The loop's variable of a reason: the last event that has it.
unfoldable pub last_with_reason : String → List Event → Option Event
last_with_reason reason [] = none
last_with_reason reason (v ∷ vs) =
    or_else (last_with_reason reason vs) (if v.reason == reason then some v else none)

abbrev pub max_wait_for_clear_failed_scheduling : ℕ
max_wait_for_clear_failed_scheduling = 600_000_000_000

-- How long scheduling has failed, at the time `now`.
waited_time : Time → Time → Duration
waited_time now failing = if is_zero failing then pos 0 else since now failing

-- What a last scheduling failure means, if nothing was scheduled since.
failure_state : Time → Time → Option Event → EventsInferedStateResult × Option String
unfolding waited_time
failure_state now failing none = (eisr_none, none)
failure_state now failing (some failure) =
    if is_zero failing
    then (eisr_initially_failed, none)
    else if less (waited_time now failing) (pos max_wait_for_clear_failed_scheduling)
    then (eisr_temporary_failed, none)
    else (eisr_finally_failed, some ("failed scheduling: " <> failure.message))

infered_from : Time → Time → Option Event → Option Event → EventsInferedStateResult × Option String
unfolding get_event_time failure_state
infered_from now failing scheduled failure =
    let scheduled_time = get_event_time scheduled in
    if not (is_zero scheduled_time) && ltb (get_event_time failure) scheduled_time
    then (eisr_scheduled, none)
    else failure_state now failing failure

module _ (sort_events : (Event → Event → Bool) → List Event → List Event) where
  -- The pod's events, in the order of their times, from the API server's answer.
  unfoldable pub get_pod_events : Answer (List Event) → (List Event) ⊎ String
  unfolding event_before
  get_pod_events (ok items) = inl (sort_events event_before items)
  get_pod_events (err e) = inr ("cannot get pod events: " <> e.message)

  infered_or : Time → Time → (List Event) ⊎ String → EventsInferedStateResult × Option String
  unfolding infered_from last_with_reason
  infered_or now failing (inl events) =
      infered_from now failing (last_with_reason "Scheduled" events)
        (last_with_reason "FailedScheduling" events)
  infered_or now failing (inr e) = (eisr_none, some e)

  unfoldable pub events_infered_state :
      Time → AmaltheaSession → Answer (List Event) → EventsInferedStateResult × Option String
  unfolding infered_or get_pod_events
  events_infered_state now cr answer =
      infered_or now cr.status.failed_scheduling_since (get_pod_events answer)

  -- What follows of a result: since when scheduling fails, and the state.
  failed_scheduling_after : Time → Time → EventsInferedStateResult → Time
  failed_scheduling_after now failing eisr_initially_failed = now
  failed_scheduling_after now failing eisr_scheduled = 0
  failed_scheduling_after now failing _ = failing

  state_after : State → EventsInferedStateResult → State
  state_after current eisr_finally_failed = failed
  state_after current _ = current

  -- `waiting` is the reading of the clock for the time waited, `now` that for a first failure.
  unfoldable pub check_events_infered_state :
      Time → Time → AmaltheaSession → State → Answer (List Event) → Time × State × Option String
  unfolding events_infered_state failed_scheduling_after state_after
  check_events_infered_state waiting now cr current answer =
      if current == not_ready
      then (let (result, e) = events_infered_state waiting cr answer in
          (
            failed_scheduling_after now cr.status.failed_scheduling_since result,
            state_after current result,
            e,
          ))
      else (cr.status.failed_scheduling_since, current, none)

  -- Events change the state only of a session that is not ready, only to failed, and only where
  -- scheduling was seen to fail at least ten minutes ago; then there is an error text, and the time
  -- since when scheduling fails is kept.
  pub check_events_changes_to_failed :
      (waiting now : Time) (cr : AmaltheaSession) (current : State) (answer : Answer (List Event))
      → let (failing, state, e) = check_events_infered_state waiting now cr current answer in
        (state ≡ current)
        ⊎ ((current ≡ not_ready)
            × (state ≡ failed)
            × (0 < cr.status.failed_scheduling_since)
            × (cr.status.failed_scheduling_since + max_wait_for_clear_failed_scheduling ≤ waiting)
            × (failing ≡ cr.status.failed_scheduling_since)
            × (is_some e ≡ true))
  unfolding check_events_infered_state infered_or infered_from failure_state waited_time
  check_events_changes_to_failed waiting now cr current answer = ground arith

  -- A session that is not ready, whose last failure to be scheduled is no older than its last
  -- scheduling, is failed once that has been so for ten minutes.
  pub check_events_fails_in_time :
      (waiting now : Time) (cr : AmaltheaSession) (items : List Event) (failure : Event)
      → let events = sort_events event_before items in
        last_with_reason "FailedScheduling" events ≡ some failure
        → get_event_time (last_with_reason "Scheduled" events) ≤ get_event_time (some failure)
        → 0 < cr.status.failed_scheduling_since
        → cr.status.failed_scheduling_since + max_wait_for_clear_failed_scheduling ≤ waiting
        → check_events_infered_state waiting now cr not_ready (ok items) ≡ (
          cr.status.failed_scheduling_since,
          failed,
          some ("failed scheduling: " <> failure.message),
        )
  unfolding check_events_infered_state infered_or infered_from failure_state waited_time
  check_events_fails_in_time waiting now cr items failure f s p w = ground arith

  failure_state-text :
      (now failing : Time) (failure : Option Event)
      → holds (failure_state now failing failure).1 is_empty ≡ false
  unfolding failure_state
  failure_state-text now failing none = refl
  failure_state-text now failing (some e) =
      ground (arith, is_empty-append "failed scheduling: " e.message)

  events_infered_state-text :
      (now : Time) (cr : AmaltheaSession) (answer : Answer (List Event))
      → holds (events_infered_state now cr answer).1 is_empty ≡ false
  unfolding events_infered_state infered_or infered_from
  events_infered_state-text now cr (err e) = is_empty-append "cannot get pod events: " e.message
  events_infered_state-text now cr (ok items) =
      let events = sort_events event_before items in
      ground (
        arith,
        failure_state-text now cr.status.failed_scheduling_since
            (last_with_reason "FailedScheduling" events),
      )

  check_events-text :
      (waiting now : Time) (cr : AmaltheaSession) (current : State) (answer : Answer (List Event))
      → holds (check_events_infered_state waiting now cr current answer).2 is_empty ≡ false
  unfolding check_events_infered_state
  check_events-text waiting now cr current answer = elim (Bool-cases (current == not_ready)) [
    | inl e ↦ rw e (events_infered_state-text waiting cr answer)
    | inr e ↦ rw e
  ]

  -- An error has a text, and a state that the events change comes with an error.
  pub check_events_text :
      (waiting now : Time) (cr : AmaltheaSession) (current : State) (answer : Answer (List Event))
      → let (failing, s, e) = check_events_infered_state waiting now cr current answer in
        (holds e is_empty ≡ false) × ((s ≡ current) ⊎ (is_some e ≡ true))
  check_events_text waiting now cr current answer = (
    check_events-text waiting now cr current answer,
    ground (arith, check_events_changes_to_failed waiting now cr current answer),
  )
