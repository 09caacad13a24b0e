-- ===== src/Remote/Firecrest/Logs/Followed.antt =====
-- What a session keeps of its logs while they are fetched (fetchSessionLogs of
-- internal/remote/firecrest/controller.go).
use amalthea.Prelude.{
  ℕ, ◌+◌, String, ◌≡◌, refl, ◌∙◌, Bool, true, false, List, [], ◌∷◌, ◌++◌, ℕ_eq, String_eq, Bytes,
  unlines, if◌then◌else◌, is_empty, length,
}
use mathlib.Core.List.{append-nil, append_assoc}
use amalthea.Remote.Firecrest.{
  LogFile, Stream, out, error, Line, Session, state_to_save, restored, new_controller,
}
use amalthea.Remote.Firecrest.Status.{StateOrError}
use amalthea.Remote.Firecrest.Logs.{
  Cluster, view_size, fetch_log_file, fetch_log_stream, streams_to_fetch, fetch_streams,
  fetch_session_logs, set_status,
}
use amalthea.Remote.Firecrest.Logs.Laws.{texts}
use amalthea.Remote.Firecrest.Logs.Following.{IsPiece, IsFollowing, fetch_log_file-IsFollowing}
use amalthea.Remote.Firecrest.Logs.Printed.{
  file_of, same_stream, texts_of, texts_of-append, AllOf, texts_of-AllOf, texts_of-others,
  append_view-AllOf,
}

-- The logs of a session that has a job: where their files are, and how far they are printed.
pub record IsFollowed (F : Type 0) (path : Stream → String) (log : Stream → Bytes) (s : Session F)
    : Type 0 where
  pub has_job : is_empty s.controller.job_id ≡ false
  pub paths : (stream : Stream) → (file_of stream s.controller).path ≡ path stream
  pub logs :
      (stream : Stream)
      → IsFollowing (log stream) (file_of stream s.controller) (texts_of stream s.printed)

-- The cluster has the logs, as far as they will be written, at their paths.
unfoldable pub IsServing : Cluster → (Stream → String) → (Stream → Bytes) → Type 0
IsServing cluster path log =
    (stream : Stream) (offset : ℕ)
    → IsPiece (log stream) offset (cluster.view (path stream) offset view_size)

both : (P : Stream → Type 0) → P out → P error → (stream : Stream) → P stream
both P p q out = p
both P p q error = q

texts_of-own :
    (stream : Stream) (log : Bytes) (f : LogFile) (printed lines : List Line)
    → AllOf stream lines
    → IsFollowing log f (texts_of stream printed ++ texts lines)
    → IsFollowing log f (texts_of stream (printed ++ lines))
texts_of-own stream log f printed lines own h =
    rw (texts_of-append stream printed lines, texts_of-AllOf stream lines own) h

texts_of-kept :
    (own other : Stream) (log : Bytes) (f : LogFile) (printed lines : List Line)
    → same_stream own other ≡ false
    → AllOf own lines
    → IsFollowing log f (texts_of other printed)
    → IsFollowing log f (texts_of other (printed ++ lines))
texts_of-kept own other log f printed lines n all_own h =
    rw
      (
        texts_of-append other printed lines,
        texts_of-others own other lines n all_own,
        append-nil (texts_of other printed),
      )
      h

module _ (path : Stream → String) (log : Stream → Bytes) where
  fetch_own :
      (cluster : Cluster) (stream : Stream) (f : LogFile) (printed : List Line)
      → IsServing cluster path log
      → f.path ≡ path stream
      → IsFollowing (log stream) f (texts_of stream printed)
      → let r = fetch_log_file cluster stream f in
        (r.0.path ≡ path stream)
        × AllOf stream r.1
        × IsFollowing (log stream) r.0 (texts_of stream (printed ++ r.1))
  unfolding fetch_log_file IsServing
  fetch_own cluster stream f printed serving at h =
      let answer = cluster.view f.path (f.offset + length f.buf) view_size in
      let (same, own) = append_view-AllOf stream f answer in
      let piece : IsPiece (log stream) (f.offset + length f.buf) answer =
        rw at (serving stream (f.offset + length f.buf)) in
      (
        same ∙ at,
        own,
        texts_of-own stream (log stream) _ printed _ own (
            fetch_log_file-IsFollowing cluster stream (log stream) f (texts_of stream printed) piece
              h),
      )

read_again :
    (log : Bytes) (f : LogFile) (p : List Bytes)
    → IsFollowing log f p
    → IsFollowing log (record f { buf = [] }) p
unfolding IsFollowing
read_again log f p (size, (unread, whole), one, ps) = (
  size,
  (f.buf ++ unread, rw (append-nil (unlines p), ← append_assoc (unlines p) f.buf unread) whole),
  refl,
  ps,
)

module _ {F : Type 0} (path : Stream → String) (log : Stream → Bytes) where
  fetch_log_stream-IsFollowed :
      (cluster : Cluster) (stream : Stream) (s : Session F)
      → IsServing cluster path log
      → IsFollowed F path log s
      → IsFollowed F path log (fetch_log_stream cluster stream s)
  unfolding fetch_log_stream
  fetch_log_stream-IsFollowed cluster out s serving h =
      let (at, own, follows) =
        fetch_own path log cluster out s.controller.stdout s.printed serving (h.paths out)
          (h.logs out) in
      record {
        has_job = h.has_job;
        paths = both _ at (h.paths error);
        logs =
            both _ follows
              (texts_of-kept out error (log error) _ s.printed _ refl own (h.logs error));
      }
  fetch_log_stream-IsFollowed cluster error s serving h =
      let (at, own, follows) =
        fetch_own path log cluster error s.controller.stderr s.printed serving (h.paths error)
          (h.logs error) in
      record {
        has_job = h.has_job;
        paths = both _ (h.paths out) at;
        logs =
            both _ (texts_of-kept error out (log out) _ s.printed _ refl own (h.logs out)) follows;
      }

  fetch_streams-IsFollowed :
      (cluster : Cluster) (streams : List Stream) (s : Session F)
      → IsServing cluster path log
      → IsFollowed F path log s
      → IsFollowed F path log (fetch_streams cluster streams s)
  unfolding fetch_streams
  fetch_streams-IsFollowed cluster [] s serving h = h
  fetch_streams-IsFollowed cluster (stream ∷ rest) s serving h =
      fetch_streams-IsFollowed cluster rest (fetch_log_stream cluster stream s) serving
        (fetch_log_stream-IsFollowed cluster stream s serving h)

  either-IsFollowed :
      (b : Bool) (s t : Session F)
      → IsFollowed F path log s
      → IsFollowed F path log t
      → IsFollowed F path log (if b then s else t)
  either-IsFollowed true s t p q = p
  either-IsFollowed false s t p q = q

  pub fetch_session_logs-IsFollowed :
      (cluster : Cluster) (s : Session F)
      → IsServing cluster path log
      → IsFollowed F path log s
      → IsFollowed F path log (fetch_session_logs cluster s)
  unfolding fetch_session_logs
  fetch_session_logs-IsFollowed cluster s serving h =
      either-IsFollowed _ s (fetch_streams cluster (streams_to_fetch s.controller) s) h
        (fetch_streams-IsFollowed cluster (streams_to_fetch s.controller) s serving h)

  pub followed :
      (s : Session F)
      → is_empty s.controller.job_id ≡ false
      → s.controller.stdout.path ≡ path out
      → s.controller.stderr.path ≡ path error
      → IsFollowing (log out) s.controller.stdout (texts_of out s.printed)
      → IsFollowing (log error) s.controller.stderr (texts_of error s.printed)
      → IsFollowed F path log s
  followed s job p q a b = record { has_job = job; paths = both _ p q; logs = both _ a b }

  pub set_status-IsFollowed :
      (state : StateOrError) (s : Session F)
      → IsFollowed F path log s
      → IsFollowed F path log (set_status state s)
  unfolding set_status
  set_status-IsFollowed (state, e) s h =
      followed _ h.has_job (h.paths out) (h.paths error) (h.logs out) (h.logs error)

  -- A controller that takes the saved state of another has an empty buffer and reads again what was
  -- in the other's.
  pub restored-IsFollowed :
      (s : Session F) (system partition : String) (fake : Bool)
      → IsFollowed F path log s
      → IsFollowed F path log (record s {
        controller = restored (new_controller system partition fake) (state_to_save s.controller);
      })
  unfolding restored state_to_save new_controller
  restored-IsFollowed s system partition fake h =
      followed _ (rw (h.has_job, h.has_job) refl) (h.paths out) (h.paths error)
        (read_again (log out) s.controller.stdout (texts_of out s.printed) (h.logs out))
        (read_again (log error) s.controller.stderr (texts_of error s.printed) (h.logs error))
