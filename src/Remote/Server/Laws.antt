-- ===== src/Remote/Server/Laws.antt =====
-- When a remote session is reported as running.
use amalthea.Prelude.{
  String, ◌≡◌, refl, ◌∙◌, ◌↔◌, ◌⊎◌, inl, inr, Bool, true, false, ◌||◌, not, Option, none, some,
  List, [], ◌∷◌, arith, ◌==◌, ℕ_eq, String_eq, eq_iff, if◌then◌else◌, Bool-cases, holds, is_empty,
  all, StringMap, lookup,
}
use amalthea.Remote.Models.{RemoteSessionState, not_ready, RemoteError, checked}
use amalthea.Remote.Firecrest.{FirecrestRemoteSessionController, Pod, Session, Stream, out, error}
use amalthea.Remote.Firecrest.Status.{
  status_map, known_state, get_remote_session_state, state_of_jobs, get_current_status,
  StateOrError,
}
use amalthea.Remote.Firecrest.Logs.{
  Cluster, fetch_log_stream, fetch_streams, streams_to_fetch, fetch_session_logs, set_status,
  save_offsets, refresh,
}
use amalthea.Remote.Server.{is_running, status_code}

-- The states of a map that mean that a job is running are those of the key "RUNNING".
only_running : StringMap RemoteSessionState → Bool
only_running m = all (λ e. not (is_running e.1) || e.0 == "RUNNING") m

running_entry :
    (status : String) (m : StringMap RemoteSessionState)
    → only_running m ≡ true
    → holds (lookup status m) is_running ≡ true
    → status ≡ "RUNNING"
unfolding lookup only_running
running_entry status [] ok h = ground arith
running_entry status ((k, v) ∷ m) ok h =
    ground (arith, eq_iff k status, eq_iff k "RUNNING", running_entry status m)

known_state-running :
    (status : String) (o : Option RemoteSessionState)
    → status_code (known_state status o) ≡ 200
    → holds o is_running ≡ true
unfolding known_state status_code
known_state-running status none h = ground arith
known_state-running status (some state) h = ground arith

status_map-only_running : only_running status_map ≡ true
unfolding only_running is_running status_map
status_map-only_running = refl

running_is_known : status_code (known_state "RUNNING" (lookup "RUNNING" status_map)) ≡ 200
unfolding known_state status_code is_running lookup status_map
running_is_known = refl

-- A job counts as running exactly when Slurm says that it does.
get_remote_session_state-running :
    (status : String) → (status_code (get_remote_session_state status) ≡ 200) ↔ (status ≡ "RUNNING")
unfolding get_remote_session_state
get_remote_session_state-running status = (
  λ h.
      running_entry status status_map status_map-only_running
        (known_state-running status (lookup status status_map) h),
  λ e. rw e running_is_known,
)

-- The first of the jobs that the cluster answers with is running.
unfoldable pub HasRunningJob : (Option (List String)) ⊎ RemoteError → Type 0
HasRunningJob (inr e) = ⊥
HasRunningJob (inl none) = ⊥
HasRunningJob (inl (some [])) = ⊥
HasRunningJob (inl (some (job ∷ jobs))) = job ≡ "RUNNING"

state_of_jobs-HasRunningJob :
    (r : (Option (List String)) ⊎ RemoteError)
    → (status_code (state_of_jobs r) ≡ 200) ↔ HasRunningJob r
unfolding state_of_jobs HasRunningJob status_code is_running
state_of_jobs-HasRunningJob (inr e) = (λ h. ground arith, λ h. ground arith)
state_of_jobs-HasRunningJob (inl none) = (λ h. ground arith, λ h. ground arith)
state_of_jobs-HasRunningJob (inl (some [])) = (λ h. ground arith, λ h. ground arith)
state_of_jobs-HasRunningJob (inl (some (job ∷ jobs))) = get_remote_session_state-running job

abbrev status_of : FirecrestRemoteSessionController → StateOrError
status_of c = (c.current_status, c.current_status_error)

module _ {F : Type 0} where
  fetch_streams-status :
      (cluster : Cluster) (streams : List Stream) (s : Session F)
      → status_of (fetch_streams cluster streams s).controller ≡ status_of s.controller
  unfolding fetch_streams fetch_log_stream
  fetch_streams-status cluster [] s = refl
  fetch_streams-status cluster (out ∷ rest) s =
      fetch_streams-status cluster rest (fetch_log_stream cluster out s)
  fetch_streams-status cluster (error ∷ rest) s =
      fetch_streams-status cluster rest (fetch_log_stream cluster error s)

  fetch_session_logs-status :
      (cluster : Cluster) (s : Session F)
      → status_of (fetch_session_logs cluster s).controller ≡ status_of s.controller
  unfolding fetch_session_logs
  fetch_session_logs-status cluster s =
      either _ _ (fetch_streams-status cluster (streams_to_fetch s.controller) s)
    where
      either :
          (b : Bool) (t : Session F)
          → status_of t.controller ≡ status_of s.controller
          → status_of (if b then s else t).controller ≡ status_of s.controller
      either true t e = refl
      either false t e = e

  save_offsets-status :
      {C : Type 0} (pod : Pod F C) (s : Session F)
      → status_of (save_offsets pod s).controller ≡ status_of s.controller
  unfolding save_offsets
  save_offsets-status pod s = elim (Bool-cases (is_empty s.controller.job_id)) [
    | inl e ↦ rw e refl
    | inr e ↦ rw e refl
  ]

  refresh-status :
      {C : Type 0} (pod : Pod F C) (cluster : Cluster) (s : Session F)
      → status_of (refresh pod cluster s).controller ≡ get_current_status cluster.job s.controller
  unfolding refresh set_status
  refresh-status pod cluster s =
      let t = set_status (get_current_status cluster.job s.controller) s in
      save_offsets-status pod (fetch_session_logs cluster t) ∙ fetch_session_logs-status cluster t

  -- After a round of the controller the server answers that the session is running exactly when the
  -- session has a job and the cluster has answered that the first job with its ID is running.
  pub refresh-status_code :
      {C : Type 0} (pod : Pod F C) (cluster : Cluster) (s : Session F)
      → let c = (refresh pod cluster s).controller in
        (status_code (c.current_status, c.current_status_error) ≡ 200) ↔ (
          (is_empty s.controller.job_id ≡ false)
          × HasRunningJob (checked "could not get job" (cluster.job s.controller.job_id)))
  unfolding get_current_status status_code is_running
  refresh-status_code pod cluster s =
      let c = (refresh pod cluster s).controller in
      let answer = checked "could not get job" (cluster.job s.controller.job_id) in
      rw (refresh-status pod cluster s) (of_job (is_empty s.controller.job_id) answer)
    where
      of_job :
          (empty : Bool) (answer : (Option (List String)) ⊎ RemoteError)
          → (status_code (if empty then (not_ready, none) else state_of_jobs answer) ≡ 200)
            ↔ ((empty ≡ false) × HasRunningJob answer)
      of_job true answer = (λ h. ground arith, λ h. ground arith)
      of_job false answer =
          let (to, from) = state_of_jobs-HasRunningJob answer in (λ h. (refl, to h), λ h. from h.1)
