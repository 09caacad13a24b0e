-- ===== src/Remote/Firecrest/Start/Laws.antt =====
-- What starting and stopping do to the job and to the state that is saved.
use amalthea.Prelude.{
  ◌+◌, String, ◌≡◌, refl, ap, ◌∙◌, ◌⊎◌, inl, inr, Bool, false, Option, none, some, [], ◌∷◌, arith,
  ℕ_eq, String_eq, Bytes, take, is_empty, length,
}
use amalthea.Remote.Models.{RemoteError}
use amalthea.Remote.Firecrest.{
  FirecrestRemoteSessionController, SavedState, Session, Stream, state_to_save, restored,
  recover_state, recover_contents, new_controller, delete_saved_state, get_save_path,
}
use amalthea.Remote.Firecrest.Recovery.{
  IsFaithful, IsSaved, recover_state-IsSaved, state_to_save-restored, save_state-IsSaved,
}
use amalthea.Remote.Firecrest.Logs.Printed.{file_of, texts_of}
use amalthea.Remote.Firecrest.Logs.Reference.{IsStarted, complete_lines, Reachable-complete_lines}
use amalthea.Remote.Firecrest.Logs.Runs.{Reachable}
use amalthea.Remote.Firecrest.Calls.{cancel, Calls, World}
use amalthea.Remote.Firecrest.Start.{
  start, start_recovered, stop, prepare, submitted_job, saved_session, with_job, log_paths,
  lift_error,
}

module _ {F C : Type 0} (w : World F C) where
  -- A controller that starts where another has saved its state takes over its job, its log files and
  -- its offsets, without an error and without a call to the cluster.
  pub start-IsSaved :
      (c : FirecrestRemoteSessionController) (s : Session F) (h : Calls)
      → IsSaved w.pod c s.files
      → is_empty c.job_id ≡ false
      → let r = start w s h in
        (r.1 ≡ h) × (r.0.1 ≡ none) × (state_to_save r.0.0.controller ≡ state_to_save c)
  unfolding start start_recovered
  start-IsSaved c s h saved job =
      let same = state_to_save-restored c s.controller job in
      let still : is_empty (restored s.controller (state_to_save c)).job_id ≡ false =
        ap (λ (t : SavedState). is_empty t.job_id) same ∙ job in
      rw (recover_state-IsSaved w.pod c s.controller s.files saved, still) (refl, refl, same)

  -- The saved state cannot be read: there is none.
  abbrev pub NothingSaved : F → Type 0
  NothingSaved files = (e : String) × (w.pod.fs.read_file (get_save_path w.pod) files ≡ inr e)

  recover_state-NothingSaved :
      (c : FirecrestRemoteSessionController) (files : F)
      → NothingSaved files
      → recover_state w.pod c files ≡ (c, none)
  unfolding recover_state recover_contents
  recover_state-NothingSaved c files (e, h) = rw (h, recover_contents) refl

  -- Stopping cancels the job with one call, and whether or not the cancellation fails, a controller
  -- that starts afterwards recovers no job if the file is gone.
  pub stop_lem :
      (s : Session F) (fresh : FirecrestRemoteSessionController) (h : Calls)
      → is_empty s.controller.job_id ≡ false
      → NothingSaved (delete_saved_state w.pod s.files).0
      → let r = stop w s h in
        (r.1 ≡ cancel s.controller.job_id ∷ h)
        × (recover_state w.pod fresh r.0.0.files ≡ (fresh, none))
  unfolding stop
  stop_lem s fresh h job gone =
      rw job (refl, recover_state-NothingSaved fresh (delete_saved_state w.pod s.files).0 gone)

  -- A session with a controller that has not started yet.
  abbrev pub new_session : String → String → F → Session F
  new_session system partition files = record {
    controller = new_controller system partition false;
    files = files;
    printed = [];
  }

  abbrev pub paths_in : Session F → Stream → String
  paths_in s stream = (file_of stream s.controller).path

  saved_without_error : (o : Option String) → lift_error o ≡ none → o ≡ none
  unfolding lift_error
  saved_without_error none h = refl
  saved_without_error (some e) h = ground arith

  submitted_job-IsStarted :
      (system partition : String) (files : F) (r : ((String × String) ⊎ RemoteError) × Calls)
      → IsFaithful w.pod
      → let t = submitted_job w (new_session system partition files) r in
        t.0.1 ≡ none → IsStarted w.pod (paths_in t.0.0) t.0.0
  unfolding submitted_job new_controller with_job saved_session
  submitted_job-IsStarted system partition files (inr e, h) faithful n = ground arith
  submitted_job-IsStarted system partition files (inl (path, id), h) faithful n =
      let c =
        with_job w id (log_paths w path id (w.metadata h id))
          (new_controller system partition false) in
      let (job, saved) = save_state-IsSaved w.pod faithful c files (saved_without_error _ n) in
      record {
        has_job = job;
        stdout_file = refl;
        stderr_file = refl;
        nothing_printed = refl;
        saved = saved;
      }

  -- A controller that starts where nothing is saved and ends without an error has a job, whose state
  -- is saved, and has read nothing of its logs.
  pub start-IsStarted :
      (system partition : String) (files : F) (h : Calls)
      → IsFaithful w.pod
      → NothingSaved files
      → let t = start w (new_session system partition files) h in
        t.0.1 ≡ none → IsStarted w.pod (paths_in t.0.0) t.0.0
  unfolding start start_recovered new_controller
  start-IsStarted system partition files h faithful nothing =
      let c = new_controller system partition false in
      rw (recover_state-NothingSaved c files nothing)
        (submitted_job-IsStarted system partition files (prepare w c h) faithful)

  -- A session that starts where nothing is saved and without an error prints, over any sequence of
  -- rounds and restarts of its controller, whatever pieces of the logs the cluster answers with, the
  -- complete lines of the bytes of each log that are read, each once and in their order. A round may
  -- fail to save its state, but a restart comes only after a save without an error; what is written
  -- without an error can be read, and encoding/json reads what it has written.
  pub start-complete_lines :
      (system partition : String) (files : F) (h : Calls) (log : Stream → Bytes) (s : Session F)
      (saved : Bool)
      → IsFaithful w.pod
      → NothingSaved files
      → let t = start w (new_session system partition files) h in
        t.0.1 ≡ none
        → Reachable w.pod (paths_in t.0.0) log t.0.0 saved s
        → (stream : Stream)
        → let f = file_of stream s.controller in
          texts_of stream s.printed ≡ complete_lines (take (f.offset + length f.buf) (log stream))
  start-complete_lines system partition files h log s saved faithful nothing fine run =
      let t = start w (new_session system partition files) h in
      Reachable-complete_lines w.pod (paths_in t.0.0) log t.0.0 s saved faithful
        (start-IsStarted system partition files h faithful nothing fine) run
