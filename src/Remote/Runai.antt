-- ===== src/Remote/Runai.antt =====
-- The controller of a session on a cluster behind Run:ai (internal/remote/runai/controller.go). The
-- client, the file system, encoding/json and the clock are parameters.
pub mod Laws
use amalthea.Prelude.{
  String, ◌<>◌, ◌⊎◌, inl, inr, Bool, not, Option, none, some, List, [], ◌∷◌, if◌then◌else◌,
  is_empty, StringMap,
}
use amalthea.Remote.Models.{RemoteSessionState, not_ready, not_set}
use amalthea.Remote.Firecrest.{FileSystem}

pub record RunaiRemoteSessionController : Type 0 where
  pub job_name : String
  pub job_id : String
  pub project : String
  pub current_status : RemoteSessionState
  pub current_status_error : Option String
  pub fake_start : Bool

pub record JobInfo : Type 0 where
  pub job_name : String
  pub job_id : String

pub record WorkspaceSpec : Type 0 where
  pub image : String
  pub environment_variables : StringMap String

pub data RunaiCall : Type 0 where
  get_projects : String → RunaiCall
  create_workspace : String → String → WorkspaceSpec → RunaiCall
  delete_workspace : String → RunaiCall

-- The latest call is the first.
abbrev pub RunaiCalls : Type 0
RunaiCalls = List RunaiCall

-- What is outside of the controller; `F` stands for what the file system holds, `C` for the contents
-- of a file. A project and a workspace are known by their IDs.
pub record Cluster (F C : Type 0) : Type 0 where
  pub fs : FileSystem F C
  pub join : String → String → String
  pub marshal : JobInfo → C ⊎ String
  pub unmarshal : C → JobInfo ⊎ String
  pub getenv : String → String
  pub trim_suffix : String → String → String
  pub time_text : String
  pub projects : String → (List String) ⊎ String
  pub create : String → String → WorkspaceSpec → String ⊎ String
  pub delete : String → Option String
  pub workloads : Option String

-- The controller that `NewRunaiRemoteSessionController` makes.
unfoldable pub new_controller : String → Bool → RunaiRemoteSessionController
new_controller project fake_start = record {
  job_name = "";
  job_id = "";
  project = project;
  current_status = not_ready;
  current_status_error = none;
  fake_start = fake_start;
}

or_default : String → String → String
or_default text default = if is_empty text then default else text

-- The controller, the files of its pod and the calls that it has made.
pub record RunaiSession (F : Type 0) : Type 0 where
  pub controller : RunaiRemoteSessionController
  pub files : F
  pub calls : RunaiCalls

module _ {F C : Type 0} (w : Cluster F C) where
  unfoldable pub work_dir : String
  unfolding or_default
  work_dir = or_default (w.trim_suffix (w.getenv "RENKU_WORKING_DIR") "/") "/home/renku/work"

  unfoldable pub mount_dir : String
  unfolding or_default work_dir
  mount_dir = or_default (w.trim_suffix (w.getenv "RENKU_MOUNT_DIR") "/") work_dir

  unfoldable pub get_save_dir_path : String
  unfolding mount_dir
  get_save_dir_path = w.join mount_dir ".rsc"

  unfoldable pub get_save_path : String
  unfolding get_save_dir_path
  get_save_path = w.join get_save_dir_path "state.json"

  -- Only the name of the job is taken.
  unfoldable pub recover_from :
      RunaiRemoteSessionController → JobInfo ⊎ String → RunaiRemoteSessionController × Option String
  recover_from c (inr e) = (c, some e)
  recover_from c (inl state) =
      (record c { job_name = if is_empty state.job_name then c.job_name else state.job_name }, none)

  unfoldable pub recover_contents :
      RunaiRemoteSessionController → C ⊎ String → RunaiRemoteSessionController × Option String
  unfolding recover_from
  recover_contents c (inr e) = (c, none)
  recover_contents c (inl contents) = recover_from c (w.unmarshal contents)

  unfoldable pub recover_job_info :
      RunaiRemoteSessionController → F → RunaiRemoteSessionController × Option String
  unfolding recover_contents get_save_path
  recover_job_info c files = recover_contents c (w.fs.read_file get_save_path files)

  unfoldable pub write_info : C ⊎ String → F × Option String → F × Option String
  unfolding get_save_path
  write_info contents (files, some e) = (files, some e)
  write_info (inr e) (files, none) = (files, some e)
  write_info (inl contents) (files, none) = w.fs.write_file get_save_path contents files

  unfoldable pub save_job_info : RunaiRemoteSessionController → F → F × Option String
  unfolding write_info get_save_dir_path
  save_job_info c files =
      if is_empty c.job_id
      then (files, some "cannot save, job id is not defined")
      else write_info (w.marshal (record { job_name = c.job_name; job_id = c.job_id }))
          (w.fs.mkdir_all get_save_dir_path files)

  unfoldable pub workspace_spec : WorkspaceSpec
  unfolding or_default work_dir mount_dir
  workspace_spec = record {
    image = w.getenv "REMOTE_SESSION_IMAGE";
    environment_variables =
        (
          "RENKU_PROJECT_PATH",
          or_default (w.trim_suffix (w.getenv "RENKU_PROJECT_PATH") "/") "dev-project",
        )
        ∷ (
          "RENKU_BASE_URL_PATH",
          or_default (w.trim_suffix (w.getenv "RENKU_BASE_URL_PATH") "/") "/",
        )
        ∷ ("HOME", work_dir)
        ∷ ("RENKU_SESSION_PORT", or_default (w.getenv "RENKU_SESSION_PORT") "8888")
        ∷ ("RENKU_MOUNT_DIR", mount_dir)
        ∷ ("RENKU_WORKING_DIR", work_dir)
        ∷ [];
  }

  abbrev pub Outcome : Type 0
  Outcome = RunaiSession F × Option String

  saved_session : RunaiSession F → F × Option String → Outcome
  saved_session s (files, e) = (record s { files = files }, e)

  unfoldable pub created : RunaiSession F → String ⊎ String → Outcome
  unfolding save_job_info saved_session
  created s (inr e) = (s, some ("failed to create workspace: " <> e))
  created s (inl id) =
      let c = record (s.controller) { job_id = id } in
      saved_session (record s { controller = c }) (save_job_info c s.files)

  unfoldable pub in_project : RunaiSession F → (List String) ⊎ String → Outcome
  unfolding created workspace_spec
  in_project s (inr e) = (s, some ("failed to get project: " <> e))
  in_project s (inl []) = (s, some ("project " <> s.controller.project <> " not found"))
  in_project s (inl (project ∷ rest)) =
      let name = s.controller.job_name in
      created (record s { calls = create_workspace project name workspace_spec ∷ s.calls })
        (w.create project name workspace_spec)

  unfoldable pub start_recovered :
      RunaiSession F → RunaiRemoteSessionController × Option String → Outcome
  unfolding in_project
  start_recovered s (c, some e) = (record s { controller = c }, some e)
  start_recovered s (c, none) =
      let named = record c { job_name = "amalthea-" <> c.project <> "-" <> w.time_text } in
      if not (is_empty c.job_name)
      then (record s { controller = c }, none)
      else if c.fake_start
      then (record s { controller = named }, none)
      else in_project (record s { controller = named; calls = get_projects c.project ∷ s.calls })
          (w.projects c.project)

  unfoldable pub start : RunaiSession F → Outcome
  unfolding start_recovered recover_job_info
  start s = start_recovered s (recover_job_info s.controller s.files)

  -- An error of the file that is removed is logged only.
  unfoldable pub stop : RunaiSession F → Outcome
  unfolding get_save_path
  stop s = if is_empty s.controller.job_id then (s, none) else (
    record s {
      files = (w.fs.remove get_save_path s.files).0;
      calls = delete_workspace s.controller.job_id ∷ s.calls;
    },
    w.delete s.controller.job_id,
  )

  unfoldable pub get_current_status :
      RunaiRemoteSessionController → RemoteSessionState × Option String
  get_current_status c = elim w.workloads [
    | some e ↦ (not_ready, some e)
    | none ↦ if is_empty c.job_name then (not_ready, none) else (not_set, none)
  ]

  -- One round of `periodicSessionStatus`.
  unfoldable pub refresh_status : RunaiRemoteSessionController → RunaiRemoteSessionController
  unfolding get_current_status
  refresh_status c =
      let (state, e) = get_current_status c in
      record c { current_status = state; current_status_error = e }
