-- ===== src/Remote/Firecrest/Logs/Runs.antt =====
-- The logs of a session over any number of rounds and restarts of the controller.
use amalthea.Prelude.{
  String, ◌≡◌, refl, Bool, true, false, not, Option, none, some, arith, ℕ_eq, String_eq, Bytes,
  if◌then◌else◌, is_some, is_empty,
}
use amalthea.Remote.Firecrest.{
  Pod, Stream, out, error, Session, recover_state, new_controller, save_state,
}
use amalthea.Remote.Firecrest.Recovery.{
  IsFaithful, IsSaved, save_state-IsSaved, recover_state-IsSaved, restored-IsSaved,
}
use amalthea.Remote.Firecrest.Status.{get_current_status}
use amalthea.Remote.Firecrest.Logs.{Cluster, fetch_session_logs, set_status, save_offsets, refresh}
use amalthea.Remote.Firecrest.Logs.Followed.{
  IsFollowed, IsServing, followed, fetch_session_logs-IsFollowed, set_status-IsFollowed,
  restored-IsFollowed,
}

-- The controller starts again in the same pod.
unfoldable pub restart : {F C : Type 0} → Pod F C → String → String → Bool → Session F → Session F
unfolding recover_state new_controller
restart pod system partition fake s = record s {
  controller = (recover_state pod (new_controller system partition fake) s.files).0;
}

-- The session of a round before its state is saved.
unfoldable pub before_saving : {F : Type 0} → Cluster → Session F → Session F
unfolding fetch_session_logs set_status
before_saving cluster s =
    fetch_session_logs cluster (set_status (get_current_status cluster.job s.controller) s)

-- A round saves the state without an error.
unfoldable pub saves : {F C : Type 0} → Pod F C → Cluster → Session F → Bool
unfolding before_saving
saves pod cluster s =
    let t = before_saving cluster s in not (is_some (save_state pod t.controller t.files).1)

-- Rounds of the controller and restarts of it, while the cluster has the logs. The Boolean says
-- whether the last save ended without an error; only then is there a restart.
pub data Reachable {F C : Type 0} (pod : Pod F C) (path : Stream → String) (log : Stream → Bytes)
    (first : Session F) : Bool → Session F → Type 0 where
  start : Reachable pod path log first true first
  round :
      {saved : Bool} {s : Session F} (cluster : Cluster)
      → IsServing cluster path log
      → Reachable pod path log first saved s
      → Reachable pod path log first (saves pod cluster s) (refresh pod cluster s)
  start_again :
      {s : Session F} (system partition : String) (fake : Bool)
      → Reachable pod path log first true s
      → Reachable pod path log first true (restart pod system partition fake s)

module _ {F C : Type 0} (pod : Pod F C) (path : Stream → String) (log : Stream → Bytes) where
  -- The session is followed, and its state is saved if the last save ended without an error.
  unfoldable pub IsKept : Bool → Session F → Type 0
  IsKept saved s = IsFollowed F path log s × (saved ≡ true → IsSaved pod s.controller s.files)

  restart-IsKept :
      (system partition : String) (fake : Bool) (s : Session F)
      → IsKept true s
      → IsKept true (restart pod system partition fake s)
  unfolding restart IsKept
  restart-IsKept system partition fake s (h, kept) =
      let fresh = new_controller system partition fake in
      let saved = kept refl in
      rw (recover_state-IsSaved pod s.controller fresh s.files saved) (
        restored-IsFollowed path log s system partition fake h,
        λ _. restored-IsSaved pod s.controller fresh s.files h.has_job saved,
      )

  chosen-IsKept :
      (saved b : Bool) (s t : Session F)
      → b ≡ false
      → IsKept saved t
      → IsKept saved (if b then s else t)
  chosen-IsKept saved false s t n h = h
  chosen-IsKept saved true s t n h = ground arith

  no_error : (o : Option String) → not (is_some o) ≡ true → o ≡ none
  no_error none h = refl
  no_error (some e) h = ground arith

  save_offsets-IsKept :
      IsFaithful pod
      → (s : Session F) → IsFollowed F path log s
      → IsKept (not (is_some (save_state pod s.controller s.files).1)) (save_offsets pod s)
  unfolding save_offsets IsKept
  save_offsets-IsKept faithful s h = chosen-IsKept _ (is_empty s.controller.job_id) s _ h.has_job (
    followed path log _ h.has_job (h.paths out) (h.paths error) (h.logs out) (h.logs error),
    λ fine. (save_state-IsSaved pod faithful s.controller s.files (no_error _ fine)).1,
  )

  before_saving-IsFollowed :
      (cluster : Cluster) (s : Session F)
      → IsServing cluster path log
      → IsFollowed F path log s
      → IsFollowed F path log (before_saving cluster s)
  unfolding before_saving
  before_saving-IsFollowed cluster s serving h =
      fetch_session_logs-IsFollowed path log cluster _ serving
        (set_status-IsFollowed path log _ s h)

  pub Reachable-IsKept :
      IsFaithful pod
      → {first s : Session F} {saved : Bool} → Reachable pod path log first saved s
      → IsKept true first
      → IsKept saved s
  unfolding refresh saves IsKept
  Reachable-IsKept faithful start h = h
  Reachable-IsKept faithful (round {s = s} cluster serving r) h =
      save_offsets-IsKept faithful (before_saving cluster s)
        (before_saving-IsFollowed cluster s serving (Reachable-IsKept faithful r h).0)
  Reachable-IsKept faithful (start_again {s = s} system partition fake r) h =
      restart-IsKept system partition fake s (Reachable-IsKept faithful r h)
