-- ===== src/Remote/Server.antt =====
-- The answers of the server of a remote session to the probes of Kubernetes
-- (internal/remote/server/server.go).
pub mod Laws
use amalthea.Prelude.{
  ℕ, String, Bool, true, false, ◌&&◌, Option, none, some, ltb, leb, ◌==◌, ℕ_eq, String_eq,
  if◌then◌else◌,
}
use amalthea.Remote.Models.{RemoteSessionState, running, failed, completed, not_ready, not_set}

-- What is found at the port of the session: whether it takes a connection, and the status of its
-- answer to a request, or none.
pub record Port : Type 0 where
  pub connects : Bool
  pub answer : Option ℕ

unfoldable pub ready_code : String → Port → ℕ
ready_code probe port =
    if probe == "tcp"
    then if port.connects then 200 else 503
    else if probe == "http"
    then elim port.answer [
      | none ↦ 503
      | some code ↦ if leb 200 code && ltb code 400 then 200 else 503
    ]
    else 200

unfoldable pub is_running : RemoteSessionState → Bool
is_running running = true
is_running failed = false
is_running completed = false
is_running not_ready = false
is_running not_set = false

-- The status of the answer at `/status`.
unfoldable pub status_code : {E : Type 0} → RemoteSessionState × Option E → ℕ
unfolding is_running
status_code (state, some e) = 503
status_code (state, none) = if is_running state then 200 else 503
