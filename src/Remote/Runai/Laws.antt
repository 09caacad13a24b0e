-- ===== src/Remote/Runai/Laws.antt =====
-- What a restart of the controller of a Run:ai session does to the session, and what its status says.
use amalthea.Prelude.{
  String, ◌≡◌, refl, inl, inr, Bool, false, none, ℕ_eq, String_eq, Bool-cases, Option-cases,
  is_empty,
}
use amalthea.Remote.Runai.{
  RunaiRemoteSessionController, JobInfo, Cluster, RunaiCalls, recover_from, recover_contents,
  recover_job_info, start_recovered, start, stop, get_current_status, refresh_status, get_save_path,
  new_controller,
}
use amalthea.Remote.Server.{is_running, status_code}

module _ {F C : Type 0} (w : Cluster F C) where
  -- A workspace with the name and the ID of the state was saved.
  abbrev pub IsSaved : JobInfo → F → Type 0
  IsSaved state files =
      (contents : C) × (w.fs.read_file (get_save_path w) files ≡ inl contents)
      × (w.unmarshal contents ≡ inl state)

  -- A controller that starts again where a workspace was saved makes no call and takes over the name
  -- of the workspace, but not its ID, so that stopping it then makes no call, the workspace is not
  -- deleted and its saved state stays.
  pub stop-start_again :
      (project : String) (fake : Bool) (state : JobInfo) (files : F) (calls : RunaiCalls)
      → IsSaved state files
      → is_empty state.job_name ≡ false
      → let again =
          start w
            (record { controller = new_controller project fake; files = files; calls = calls }) in
        (again.1 ≡ none)
        × (again.0.controller.job_name ≡ state.job_name)
        × (stop w again.0 ≡ (again.0, none))
        × (again.0.files ≡ files)
        × (again.0.calls ≡ calls)
  unfolding start start_recovered recover_job_info recover_contents recover_from stop new_controller
  stop-start_again project fake state files calls (contents, read, u) named =
      rw (read, u, named, named) (refl, refl, refl, refl, refl)

  -- After any round of the controller the server answers that the session is not running.
  pub refresh_status-status_code :
      (c : RunaiRemoteSessionController)
      → let r = refresh_status w c in status_code (r.current_status, r.current_status_error) ≡ 503
  unfolding refresh_status get_current_status status_code is_running
  refresh_status-status_code c = elim (Option-cases w.workloads) [
    | inl fine ↦ elim (Bool-cases (is_empty c.job_name)) [
      | inl e ↦ rw (fine, e) refl
      | inr e ↦ rw (fine, e) refl
    ]
    | inr (m, e) ↦ rw e refl
  ]
