-- ===== src/Remote/Firecrest/Logs.antt =====
-- How the controller prints the logs of a session (fetchSessionLogs and periodicSessionStatus of
-- internal/remote/firecrest/controller.go): in pieces, line by line. The FirecREST client is a
-- parameter.
pub mod Laws
pub mod Following
pub mod Printed
pub mod Followed
pub mod Runs
pub mod Reference
use amalthea.Prelude.{
  ℕ, zero, suc, ◌+◌, String, ◌||◌, ◌&&◌, not, Option, none, some, List, [], ◌∷◌, ◌++◌, ◌==◌, ℕ_eq,
  String_eq, if◌then◌else◌, length, is_empty, Bytes, take, drop, index_byte, newline,
}
use amalthea.Remote.Models.{ApiAnswer}
use amalthea.Remote.Firecrest.{
  LogFile, FirecrestRemoteSessionController, Pod, Stream, out, error, Line, Session, save_state,
}
use amalthea.Remote.Firecrest.Status.{get_current_status, StateOrError}

-- The answer to a request for a piece of a file. Without output the file is not there yet, or an
-- error was decoded.
pub data ViewAnswer : Type 0 where
  unreachable : String → ViewAnswer
  no_output : ViewAnswer
  output : Bytes → ViewAnswer

-- The cluster at a moment: the states of the jobs for an ID, and a piece of a file from an offset
-- and up to a size.
pub record Cluster : Type 0 where
  pub job : String → ApiAnswer (Option (List String))
  pub view : String → ℕ → ℕ → ViewAnswer

-- The loop that prints the complete lines of the buffer, on fuel; each round takes a byte at least.
unfoldable pub flush : ℕ → Stream → LogFile → LogFile × List Line
unfolding index_byte
flush zero stream f = (f, [])
flush (suc n) stream f = elim (index_byte f.buf newline) [
  | none ↦ (f, [])
  | some idx ↦
      let rest =
        flush n stream (record f { offset = f.offset + (idx + 1); buf = drop (suc idx) f.buf }) in
      (rest.0, record { stream = stream; text = take idx f.buf } ∷ rest.1)
]

-- 512 KB
abbrev pub view_size : ℕ
view_size = 524_288

unfoldable pub append_view : Stream → LogFile → ViewAnswer → LogFile × List Line
unfolding flush
append_view stream f (unreachable e) = (f, [])
append_view stream f no_output = (f, [])
append_view stream f (output []) = (f, [])
append_view stream f (output (c ∷ content)) =
    let buf = f.buf ++ c ∷ content in flush (suc (length buf)) stream (record f { buf = buf })

unfoldable pub fetch_log_file : Cluster → Stream → LogFile → LogFile × List Line
unfolding append_view
fetch_log_file cluster stream f =
    append_view stream f (cluster.view f.path (f.offset + length f.buf) view_size)

unfoldable pub streams_to_fetch : FirecrestRemoteSessionController → List Stream
streams_to_fetch c =
    if not (is_empty c.stderr.path) && not (c.stderr.path == c.stdout.path)
    then out ∷ error ∷ []
    else out ∷ []

module _ {F : Type 0} where
  -- The file and the buffer of a stream; the names of other streams are not used.
  unfoldable pub fetch_log_stream : Cluster → Stream → Session F → Session F
  unfolding fetch_log_file
  fetch_log_stream cluster out s =
      let r = fetch_log_file cluster out s.controller.stdout in
      record s { controller = record (s.controller) { stdout = r.0 }; printed = s.printed ++ r.1 }
  fetch_log_stream cluster error s =
      let r = fetch_log_file cluster error s.controller.stderr in
      record s { controller = record (s.controller) { stderr = r.0 }; printed = s.printed ++ r.1 }

  unfoldable pub fetch_streams : Cluster → List Stream → Session F → Session F
  unfolding fetch_log_stream
  fetch_streams cluster [] s = s
  fetch_streams cluster (stream ∷ rest) s =
      fetch_streams cluster rest (fetch_log_stream cluster stream s)

  unfoldable pub fetch_session_logs : Cluster → Session F → Session F
  unfolding fetch_streams streams_to_fetch
  fetch_session_logs cluster s =
      if is_empty s.controller.job_id || is_empty s.controller.stdout.path
      then s
      else fetch_streams cluster (streams_to_fetch s.controller) s

  unfoldable pub set_status : StateOrError → Session F → Session F
  set_status (state, e) s = record s {
    controller = record (s.controller) { current_status = state; current_status_error = e };
  }

  -- The offsets are saved; an error is logged only.
  unfoldable pub save_offsets : {C : Type 0} → Pod F C → Session F → Session F
  unfolding save_state
  save_offsets pod s =
      if is_empty s.controller.job_id
      then s
      else record s { files = (save_state pod s.controller s.files).0 }

  -- One round of `periodicSessionStatus`.
  unfoldable pub refresh : {C : Type 0} → Pod F C → Cluster → Session F → Session F
  unfolding set_status fetch_session_logs save_offsets get_current_status
  refresh pod cluster s =
      save_offsets pod
        (fetch_session_logs cluster (set_status (get_current_status cluster.job s.controller) s))
