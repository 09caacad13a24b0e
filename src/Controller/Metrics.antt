-- ===== src/Controller/Metrics.antt =====
-- The metrics of a session (internal/controller/metrics.go). The gauges are the calls that the code
-- makes on them; durations are in nanoseconds, where the source divides by a second.
use amalthea.Prelude.{
  ℕ, ◌-◌, String, ◌≡◌, Bool, true, false, ◌&&◌, not, List, [], ◌∷◌, ◌++◌, map, arith, leb, ◌==◌,
  ℕ_eq, String_eq, eq_iff, if◌then◌else◌, any, count_if, All,
}
use Prim.Native.Nat.{◌*◌, ◌/◌}
use amalthea.Time.{second, Time, ℤ, pos, negsuc, is_zero, since}
use amalthea.Api.{
  AmaltheaSession, State, State_eq, state_string, running, failed, hibernated, not_ready,
  running_degraded, succeeded,
}

pub data Gauge : Type 0 where
  session_state session_idle container_ready container_total idle_duration failing_duration
        hibernated_duration failed_scheduling_duration will_hibernate_at sessions_total :
      Gauge

unfoldable pub gauge_number : Gauge → ℕ
gauge_number session_state = 0
gauge_number session_idle = 1
gauge_number container_ready = 2
gauge_number container_total = 3
gauge_number idle_duration = 4
gauge_number failing_duration = 5
gauge_number hibernated_duration = 6
gauge_number failed_scheduling_duration = 7
gauge_number will_hibernate_at = 8
gauge_number sessions_total = 9

-- `gauge.WithLabelValues(…).Set(v)`
pub record Sample : Type 0 where
  pub gauge : Gauge
  pub labels : List String
  pub value : ℤ

-- `gauge.DeletePartialMatch` and `gauge.DeleteLabelValues`: the labels that a series to be dropped
-- starts with, and the whole labels of one.
pub data Deletion : Type 0 where
  delete_partial_match delete_label_values : Gauge → List String → Deletion

-- A time since when something holds, as a duration.
unfoldable pub duration_since : Time → Time → ℤ
duration_since now t = if not (is_zero t) then since now t else pos 0

-- `t.Unix()`, the whole seconds since 1970, and 0 for a time that is not set.
unfoldable pub unix_seconds : Time → ℤ
unix_seconds t =
    let epoch = 62_135_596_800 * second in
    if not (is_zero t)
    then if leb epoch t then pos ((t - epoch) / second) else negsuc ((epoch - t - 1) / second)
    else pos 0

unfoldable pub flag : Bool → ℤ
flag b = if b then pos 1 else pos 0

-- The states that are recorded.
abbrev pub recorded_states : List State
recorded_states = not_ready ∷ running ∷ running_degraded ∷ failed ∷ hibernated ∷ []

module _ (now : Time) (session : AmaltheaSession) where
  unfoldable pub sample : Gauge → ℤ → Sample
  sample g v = record { gauge = g; labels = session.namespace ∷ session.name ∷ []; value = v }

  unfoldable pub state_sample : State → Sample
  unfolding flag
  state_sample s = record {
    gauge = session_state;
    labels = session.namespace ∷ session.name ∷ state_string s ∷ [];
    value = flag (session.status.state == s);
  }

  unfoldable pub record_session : List Sample
  unfolding sample state_sample duration_since unix_seconds
  record_session =
      map state_sample recorded_states
      ++ sample session_idle (flag session.status.idle)
        ∷ sample container_ready (pos session.status.container_counts.ready)
        ∷ sample container_total (pos session.status.container_counts.total)
        ∷ sample idle_duration (duration_since now session.status.idle_since)
        ∷ sample failing_duration (duration_since now session.status.failing_since)
        ∷ sample hibernated_duration (duration_since now session.status.hibernated_since)
        ∷ sample failed_scheduling_duration
            (duration_since now session.status.failed_scheduling_since)
        ∷ sample will_hibernate_at (unix_seconds session.status.will_hibernate_at)
        ∷ []

unfoldable pub remove_session : AmaltheaSession → List Deletion
remove_session session =
    let labels = session.namespace ∷ session.name ∷ [] in
    delete_partial_match session_state labels
    ∷ delete_label_values session_idle labels
    ∷ delete_label_values container_ready labels
    ∷ delete_label_values container_total labels
    ∷ delete_label_values idle_duration labels
    ∷ delete_label_values failing_duration labels
    ∷ delete_label_values hibernated_duration labels
    ∷ delete_label_values failed_scheduling_duration labels
    ∷ delete_label_values will_hibernate_at labels
    ∷ []

-- The counts are given by state.
unfoldable pub update_totals : (State → ℕ) → List Sample
update_totals count =
    map
      (λ s. record { gauge = sessions_total; labels = state_string s ∷ []; value = pos (count s) })
      recorded_states

-- Whether a list of labels starts with another.
starts_with : List String → List String → Bool
starts_with [] _ = true
starts_with (_ ∷ _) [] = false
starts_with (x ∷ xs) (y ∷ ys) = x == y && starts_with xs ys

-- Whether a call drops a series.
unfoldable pub drops : Sample → Deletion → Bool
unfolding gauge_number starts_with
drops s (delete_partial_match g labels) =
    gauge_number g == gauge_number s.gauge && starts_with labels s.labels
drops s (delete_label_values g labels) =
    gauge_number g == gauge_number s.gauge
    && starts_with labels s.labels
    && starts_with s.labels labels

-- Whether a sample says that the session is in a state.
unfoldable pub says_state : Sample → Bool
unfolding gauge_number
says_state s = gauge_number s.gauge == 0 && is_one s.value
  where
    is_one : ℤ → Bool
    is_one (pos n) = n == 1
    is_one (negsuc _) = false

-- Every series that is recorded for a session is dropped when the session is removed, whatever the
-- session became in between, as long as it keeps its namespace and name.
pub record_session-removed :
    (now : Time) (session later : AmaltheaSession)
    → later.namespace ≡ session.namespace
    → later.name ≡ session.name
    → All (λ s. any (drops s) (remove_session later) ≡ true) (record_session now session)
unfolding record_session remove_session drops
record_session-removed now session later e f =
    ground (arith, eq_iff later.namespace session.namespace, eq_iff later.name session.name)

-- Exactly one state gauge of a session is 1, unless the session is `Succeeded`, when all are 0.
pub record_session-one_state :
    (now : Time) (session : AmaltheaSession)
    → count_if says_state (record_session now session)
      ≡ (if session.status.state == succeeded then 0 else 1)
unfolding record_session says_state
record_session-one_state now session = ground (arith, flag)
