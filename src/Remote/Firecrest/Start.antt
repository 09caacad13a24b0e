-- ===== src/Remote/Firecrest/Start.antt =====
-- Starting and stopping a session (Start and Stop of internal/remote/firecrest/controller.go). The
-- time limits of the calls are not modelled; the goroutine of the status is the module Logs.
pub mod Laws
pub mod Order
use amalthea.Prelude.{
  String, ◌<>◌, ◌⊎◌, inl, inr, Bool, true, not, Option, none, some, List, [], ◌∷◌, if◌then◌else◌,
  holds, is_empty, StringMap, cut_prefix,
}
use amalthea.Remote.Models.{ApiAnswer, RemoteError, failure, checked}
use amalthea.Remote.Firecrest.{
  FirecrestRemoteSessionController, Session, recover_state, save_state, delete_saved_state,
}
use amalthea.Remote.Firecrest.Calls.{
  RemoteFileSystem, HpcCluster, GitRepository, JobDescription, JobMetadata, RemoteCall, cancel,
  get_metadata, Calls, World, Exec, continue, ◌>>=◌, ◌>>◌, pure, result, getenv, any_success,
  get_current_system, get_user_name, mkdir, chmod, upload_file, submit_job,
}
use amalthea.Remote.Firecrest.Script.{get_preferred_scratch, render_session_script}
use amalthea.Remote.Firecrest.Environment.{collect_git_repositories, job_env}

unfoldable pub lift : {A : Type 0} → A ⊎ String → A ⊎ RemoteError
lift (inl a) = inl a
lift (inr e) = inr (failure e)

unfoldable pub lift_error : Option String → Option RemoteError
lift_error none = none
lift_error (some e) = some (failure e)

or_default : String → String → String
or_default text default = if is_empty text then default else text

unfoldable pub scratch_path : String → Option RemoteFileSystem → String ⊎ RemoteError
scratch_path system none =
    inr (failure ("could not find scratch file system on '" <> system <> "'"))
scratch_path system (some fs) = inl fs.path

-- `strings.TrimPrefix(s, prefix)`
trim_prefix : String → String → String
unfolding cut_prefix
trim_prefix s prefix = elim (cut_prefix s prefix) [ none ↦ s | some rest ↦ rest ]

is_given : Option String → Bool
is_given path = holds path (λ p. not (is_empty p))

module _ {F C : Type 0} (w : World F C) where
  unfoldable pub renku_project_path : String
  unfolding or_default getenv
  renku_project_path = or_default (w.trim_suffix (getenv w "RENKU_PROJECT_PATH") "/") "dev-project"

  unfoldable pub renku_base_url_path : String
  unfolding or_default getenv
  renku_base_url_path =
      or_default (w.trim_suffix (getenv w "RENKU_BASE_URL_PATH") "/") "dev-session"

  -- The directory of the session on the cluster.
  unfoldable pub session_path : String → String → String
  unfolding trim_prefix renku_project_path renku_base_url_path
  session_path scratch user =
      let renku = w.pod.join (w.pod.join scratch user) "renku" in
      w.pod.join (w.pod.join (w.pod.join renku "sessions") renku_project_path)
        (trim_prefix renku_base_url_path "/sessions")

  unfoldable pub upload_secret : String → Exec (Unit {0})
  unfolding getenv upload_file
  upload_secret secrets_path =
      let secret = getenv w "RSC_WSTUNNEL_SECRET" in
      if is_empty secret then pure tt else upload_file w secrets_path "wstunnel_secret" secret

  unfoldable pub upload_repositories : String → StringMap GitRepository → Exec (Unit {0})
  unfolding mkdir upload_file lift
  upload_repositories path [] = pure tt
  upload_repositories path ((name, repository) ∷ rest) =
      let dir = w.pod.join (w.pod.join (w.pod.join path "work") name) ".git" in
      (do
        mkdir w dir true
        contents ← result (lift (w.read_config repository.config_path))
        upload_file w dir "config" contents
        upload_repositories path rest)

  unfoldable pub job_of : String → StringMap String → JobDescription
  unfolding getenv
  job_of path env =
      let account = getenv w "USER_ENV_SLURM_ACCOUNT" in
      record {
        env = env;
        script_path = w.pod.join path "session_script.sh";
        working_directory = path;
        account = if is_empty account then none else some account;
      }

  -- What is put into the directory of the session, and the job.
  unfoldable pub fill : FirecrestRemoteSessionController → HpcCluster → String → Exec String
  unfolding mkdir chmod upload_secret collect_git_repositories upload_repositories job_env
      upload_file render_session_script lift lift_error submit_job job_of renku_base_url_path getenv
  fill c system path = do
    let secrets_path = w.pod.join path "secrets"
    mkdir w secrets_path true
    chmod w path "700"
    upload_secret secrets_path
    repositories ← result (lift (collect_git_repositories w (getenv w "RENKU_WORKING_DIR")))
    upload_repositories path repositories
    env ← result (lift (job_env w renku_base_url_path repositories))
    upload_file w path "session_script.sh"
        (render_session_script w w.session_script c.partition system.file_systems secrets_path)
    result (elim (w.encode_env env) [ none ↦ inl tt | some e ↦ inr (failure e) ])
    submit_job w (job_of path env)

  -- The directory of the session and the ID of its job.
  unfoldable pub prepare : FirecrestRemoteSessionController → Exec (String × String)
  unfolding get_current_system get_user_name get_preferred_scratch scratch_path session_path fill
  prepare c = do
    system ← get_current_system w c.system_name
    name ← get_user_name w
    user ← result (if is_empty name then inr (failure "could not get user name") else inl name)
    scratch ← result (scratch_path c.system_name (get_preferred_scratch system.file_systems))
    let path = session_path scratch user
    id ← fill c system path
    pure (path, id)

  absolute : String → Option String → String → String
  absolute path none default = default
  absolute path (some p) default =
      if is_empty p then default else if w.is_abs p then p else w.pod.join path p

  paths_of : String → String → String → (Option (Option (List JobMetadata))) → String × String
  unfolding absolute is_given
  paths_of path out err (some (some (meta ∷ rest))) =
      let stdout = absolute path meta.standard_output out in
      (
        stdout,
        if is_given meta.standard_error then absolute path meta.standard_error err else stdout,
      )
  paths_of path out err _ = (out, err)

  body : {A : Type 0} → ApiAnswer A → Option A
  body (ApiAnswer.unreachable e) = none
  body (ApiAnswer.answered code a json4xx json5xx) = a

  -- Where the job writes its logs.
  unfoldable pub log_paths :
      String → String → ApiAnswer (Option (List JobMetadata)) → String × String
  unfolding paths_of body
  log_paths path id answer =
      paths_of path (w.pod.join path ("slurm-" <> id <> ".out"))
        (w.pod.join path ("slurm-" <> id <> ".err")) (body answer)

  unfoldable pub with_job :
      String → String × String → FirecrestRemoteSessionController → FirecrestRemoteSessionController
  with_job id (out, err) c = record c {
    job_id = id;
    stdout = record (c.stdout) { path = out };
    stderr = record (c.stderr) { path = err };
  }

  abbrev pub Outcome : Type 0
  Outcome = (Session F × Option RemoteError) × Calls

  unfoldable pub saved_session : Session F → F × Option String → Session F × Option RemoteError
  unfolding lift_error
  saved_session s (files, e) = (record s { files = files }, lift_error e)

  unfoldable pub submitted_job : Session F → ((String × String) ⊎ RemoteError) × Calls → Outcome
  unfolding log_paths with_job save_state saved_session
  submitted_job s (inr e, h) = ((s, some e), h)
  submitted_job s (inl (path, id), h) =
      let c = with_job id (log_paths path id (w.metadata h id)) s.controller in
      (
        saved_session (record s { controller = c }) (save_state w.pod c s.files),
        get_metadata id ∷ h,
      )

  unfoldable pub start_recovered :
      Session F → FirecrestRemoteSessionController × Option RemoteError → Calls → Outcome
  unfolding prepare submitted_job
  start_recovered s (c, some e) h = ((record s { controller = c }, some e), h)
  start_recovered s (c, none) h =
      if not (is_empty c.job_id)
      then ((record s { controller = c }, none), h)
      else if c.fake_start
      then ((record s { controller = record c { job_id = "fake-job-id" } }, none), h)
      else submitted_job (record s { controller = c }) (prepare c h)

  unfoldable pub start : Session F → Calls → Outcome
  unfolding start_recovered recover_state
  start s h = start_recovered s (recover_state w.pod s.controller s.files) h

  -- An error of the file that is removed is logged only.
  unfoldable pub stop : Session F → Calls → Outcome
  unfolding delete_saved_state any_success
  stop s h = if is_empty s.controller.job_id then ((s, none), h) else (
    (
      record s { files = (delete_saved_state w.pod s.files).0 },
      any_success "could not cancel job" (w.cancelled h s.controller.job_id),
    ),
    cancel s.controller.job_id ∷ h,
  )
