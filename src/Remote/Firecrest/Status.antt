-- ===== src/Remote/Firecrest/Status.antt =====
-- The status of the job of a session (internal/remote/firecrest/status.go and the function
-- `getCurrentStatus` of controller.go).
use amalthea.Prelude.{
  String, ◌<>◌, ◌⊎◌, inl, inr, Option, none, some, List, [], ◌∷◌, ℕ_eq, String_eq, if◌then◌else◌,
  is_empty, StringMap, lookup,
}
use amalthea.Remote.Models.{
  RemoteSessionState, running, failed, completed, not_ready, ApiAnswer, RemoteError, failure,
  checked,
}
use amalthea.Remote.Firecrest.{FirecrestRemoteSessionController}

unfoldable pub status_map : StringMap RemoteSessionState
status_map =
    ("BOOT_FAIL", failed)
    ∷ ("CANCELLED", failed)
    ∷ ("COMPLETED", completed)
    ∷ ("DEADLINE", failed)
    ∷ ("FAILED", failed)
    ∷ ("NODE_FAIL", failed)
    ∷ ("OUT_OF_MEMORY", failed)
    ∷ ("PENDING", not_ready)
    ∷ ("PREEMPTED", failed)
    ∷ ("RUNNING", running)
    ∷ ("SUSPENDED", failed)
    ∷ ("TIMEOUT", failed)
    ∷ []

abbrev pub StateOrError : Type 0
StateOrError = RemoteSessionState × Option RemoteError

unfoldable pub known_state : String → Option RemoteSessionState → StateOrError
known_state status (some state) = (state, none)
known_state status none = (failed, some (failure ("status not recognized: " <> status)))

unfoldable pub get_remote_session_state : String → StateOrError
unfolding known_state status_map lookup
get_remote_session_state status = known_state status (lookup status status_map)

-- The states of the jobs of a success, where the answer has jobs.
unfoldable pub state_of_jobs : (Option (List String)) ⊎ RemoteError → StateOrError
unfolding get_remote_session_state
state_of_jobs (inr e) = (failed, some e)
state_of_jobs (inl none) = (failed, some (failure "invalid job status response"))
state_of_jobs (inl (some [])) = (failed, some (failure "empty job response"))
state_of_jobs (inl (some (job ∷ jobs))) = get_remote_session_state job

-- `job` asks for the job with an ID and gives the states of the jobs of the answer.
unfoldable pub get_current_status :
    (String → ApiAnswer (Option (List String))) → FirecrestRemoteSessionController → StateOrError
unfolding state_of_jobs checked
get_current_status job c =
    if is_empty c.job_id
    then (not_ready, none)
    else state_of_jobs (checked "could not get job" (job c.job_id))
