-- ===== src/Controller/Culling/Dates.antt =====
-- At which dates a session is to be hibernated (internal/controller/cull.go,
-- calculateHibernationDate and the functions of the dates).
use amalthea.Prelude.{
  ℕ, max, ◌+◌, ◌≤◌, ◌<◌, ◌≡◌, refl, sym, ap, ◌∙◌, Bool, true, false, ◌&&◌, not, List, [], ◌∷◌,
  arith, ◌==◌, ℕ_eq, String_eq, if◌then◌else◌, All,
}
use amalthea.Time.{Time, Duration, pos, negsuc, is_zero, add, is_positive}
use amalthea.Api.{Status, Culling, State_eq, not_ready}
use amalthea.Controller.Culling.{
  hibernation_date_by_max_age, hibernation_date_by_starting_duration,
  hibernation_date_by_failing_since, hibernation_date_by_idle_since, last_idle_since,
  hibernation_dates, earlier_date, earliest_date, calculate_hibernation_date,
}

-- The result is set and no later than a date that is set.
earliest_date_lem :
    (result : Time) (ds : List Time)
    → let r = earliest_date result ds in All (λ d. 0 < d → (0 < r) × (r ≤ d)) (result ∷ ds)
unfolding earliest_date
earliest_date_lem result [] = (λ h. (h, omega arith), tt)
earliest_date_lem result (d ∷ ds) =
    let ih = earliest_date_lem (earlier_date result d) ds in
    (λ h. ground arith, (λ h. ground arith, ih.1))

either-All : (P : Time → Type 0) (b : Bool) (x y : Time) → P x → P y → P (if b then x else y)
either-All P true x y p q = p
either-All P false x y p q = q

-- What holds of the dates of the list and of the one to start with holds of the result.
earliest_date-All :
    (P : Time → Type 0) (result : Time) (ds : List Time)
    → P result
    → All P ds
    → P (earliest_date result ds)
unfolding earliest_date earlier_date
earliest_date-All P result [] h all = h
earliest_date-All P result (d ∷ ds) h (p, all) =
    earliest_date-All P (earlier_date result d) ds (either-All P _ d result p h) all

-- The dates at which a session is due to hibernate: when it is older than its maximum age, has been
-- starting for too long since it was created, has been failing for too long, or has been idle for
-- too long, counted from the later of the time since when it is idle and its last interaction. A
-- maximum that is not positive sets no date.
pub data IsDue (creation : Time) (status : Status) (culling : Culling) (d : Time) : Type 0 where
  aged :
      (m : ℕ) → culling.max_age ≡ pos m → 0 < m → d ≡ creation + m → IsDue creation status culling d
  starting :
      (m : ℕ)
      → status.state ≡ not_ready
      → culling.max_starting_duration ≡ pos m
      → 0 < m
      → d ≡ creation + m
      → IsDue creation status culling d
  failing :
      (m : ℕ)
      → 0 < status.failing_since
      → culling.max_failed_duration ≡ pos m
      → 0 < m
      → d ≡ status.failing_since + m
      → IsDue creation status culling d
  idle :
      (m : ℕ)
      → 0 < status.idle_since
      → culling.max_idle_duration ≡ pos m
      → 0 < m
      → d ≡ max status.idle_since culling.last_interaction + m
      → IsDue creation status culling d

chosen :
    (P : Time → Type 0) (b : Bool) (date : Time)
    → (b ≡ true → P date)
    → P 0
    → P (if b then date else 0)
chosen P true date f h = f refl
chosen P false date f h = h

-- The number of nanoseconds of a positive duration.
positive :
    (d : Duration)
    → is_positive d ≡ true
    → (m : ℕ) × (d ≡ pos m) × (0 < m) × ((t : Time) → add t d ≡ t + m)
positive (pos m) h = (m, refl, ground arith, λ t. refl)
positive (negsuc n) h = ground arith

last_idle_since_lem :
    (status : Status) (culling : Culling)
    → 0 < status.idle_since
    → last_idle_since status culling ≡ max status.idle_since culling.last_interaction
unfolding last_idle_since
last_idle_since_lem status culling h = ground arith

set_idle_since :
    (status : Status) (culling : Culling)
    → 0 < last_idle_since status culling
    → 0 < status.idle_since
unfolding last_idle_since
set_idle_since status culling h = ground arith

idle_date_lem :
    (status : Status) (culling : Culling) (m : ℕ)
    → 0 < status.idle_since
    → culling.max_idle_duration ≡ pos m
    → 0 < m
    → hibernation_date_by_idle_since status culling
      ≡ max status.idle_since culling.last_interaction + m
unfolding hibernation_date_by_idle_since
idle_date_lem status culling m s e p = rw (last_idle_since_lem status culling s, e) (ground arith)

module _ (creation : Time) (status : Status) (culling : Culling) where
  abbrev IsSound : Time → Type 0
  IsSound d = 0 < d → IsDue creation status culling d

  max_age-IsSound : IsSound (hibernation_date_by_max_age creation culling)
  unfolding hibernation_date_by_max_age
  max_age-IsSound =
      chosen IsSound (is_positive culling.max_age) _
        (λ h. let (m, e, p, q) = positive culling.max_age h in λ _. aged m e p (q creation))
        (λ h. ground arith)

  starting-IsSound : IsSound (hibernation_date_by_starting_duration creation status culling)
  unfolding hibernation_date_by_starting_duration
  starting-IsSound =
      chosen IsSound (is_positive culling.max_starting_duration && status.state == not_ready) _
        (λ h.
          let (m, e, p, q) = positive culling.max_starting_duration (ground arith) in
          λ _. starting m (ground arith) e p (q creation))
        (λ h. ground arith)

  failing-IsSound : IsSound (hibernation_date_by_failing_since status culling)
  unfolding hibernation_date_by_failing_since
  failing-IsSound =
      chosen IsSound (not (is_zero status.failing_since) && is_positive culling.max_failed_duration)
        _
        (λ h.
          let (m, e, p, q) = positive culling.max_failed_duration (ground arith) in
          λ _. failing m (ground arith) e p (q status.failing_since))
        (λ h. ground arith)

  idle-IsSound : IsSound (hibernation_date_by_idle_since status culling)
  unfolding hibernation_date_by_idle_since
  idle-IsSound =
      chosen IsSound
        (not (is_zero (last_idle_since status culling)) && is_positive culling.max_idle_duration) _
        (λ h.
          let (m, e, p, q) = positive culling.max_idle_duration (ground arith) in
          let since = set_idle_since status culling (ground arith) in
          λ _. idle m since e p (
            q (last_idle_since status culling)
            ∙ ap (λ t. t + m) (last_idle_since_lem status culling since)))
        (λ h. ground arith)

  -- A date that is set is one that is due.
  hibernation_dates-IsSound : All IsSound (hibernation_dates creation status culling)
  unfolding hibernation_dates
  hibernation_dates-IsSound =
      (max_age-IsSound, (starting-IsSound, (failing-IsSound, (idle-IsSound, tt))))

  -- The date that is computed is no later than one that is due.
  IsDue-earliest :
      (d : Time)
      → IsDue creation status culling d
      → let r = calculate_hibernation_date creation status culling in (0 < r) × (r ≤ d)
  unfolding calculate_hibernation_date hibernation_dates hibernation_date_by_max_age
      hibernation_date_by_starting_duration hibernation_date_by_failing_since
      hibernation_date_by_idle_since
  IsDue-earliest d (aged m e p q) =
      let (_, (a, _)) = earliest_date_lem 0 (hibernation_dates creation status culling) in
      ground arith
  IsDue-earliest d (starting m s e p q) =
      let (_, (_, (a, _))) = earliest_date_lem 0 (hibernation_dates creation status culling) in
      ground arith
  IsDue-earliest d (failing m s e p q) =
      let (_, (_, (_, (a, _)))) = earliest_date_lem 0 (hibernation_dates creation status culling) in
      ground arith
  IsDue-earliest d (idle m s e p q) =
      let (_, (_, (_, (_, (a, _))))) =
        earliest_date_lem 0 (hibernation_dates creation status culling) in
      let date = q ∙ sym (idle_date_lem status culling m s e p) in
      rw date (a (rw (idle_date_lem status culling m s e p) (omega arith)))

-- A session is to be hibernated at the earliest of the dates that are due: the result is zero or a
-- date that is due, and if some date is due, the result is set and no later.
pub calculate_hibernation_date_lem :
    (creation : Time) (status : Status) (culling : Culling)
    → let r = calculate_hibernation_date creation status culling in
      (0 < r → IsDue creation status culling r)
      × ((d : Time) → IsDue creation status culling d → (0 < r) × (r ≤ d))
unfolding calculate_hibernation_date
calculate_hibernation_date_lem creation status culling = (
  earliest_date-All (λ d. 0 < d → IsDue creation status culling d) 0
      (hibernation_dates creation status culling) (λ h. ground arith)
      (hibernation_dates-IsSound creation status culling),
  IsDue-earliest creation status culling,
)
