-- ===== src/Remote/Firecrest/Calls.antt =====
-- The calls that starting and stopping a session makes to FirecREST, and their log
-- (internal/remote/firecrest/controller.go). The client is generated code; the packages strings, path
-- and net/url and the regular expression of the notes are parameters.
use amalthea.Prelude.{
  String, ◌<>◌, ◌⊎◌, inl, inr, Bool, ◌||◌, Option, none, some, List, [], ◌∷◌, ltb, leb, ◌==◌, ℕ_eq,
  String_eq, if◌then◌else◌, StringMap, lookup,
}
use amalthea.Images.{References}
use amalthea.Remote.Models.{
  ApiAnswer, unreachable, answered, RemoteError, failure, error_of, checked,
}
use amalthea.Remote.Firecrest.{Pod}

-- The kinds of file systems that the controller tells apart.
pub data DataType : Type 0 where
  scratch : DataType
  store : DataType
  users : DataType
  other_type : DataType

pub record RemoteFileSystem : Type 0 where
  pub path : String
  pub data_type : DataType
  pub default_work_dir : Option Bool

pub record HpcCluster : Type 0 where
  pub name : String
  pub file_systems : Option (List RemoteFileSystem)

pub record GitRepository : Type 0 where
  pub branch : String
  pub config_path : String

pub record JobDescription : Type 0 where
  pub env : StringMap String
  pub script_path : String
  pub working_directory : String
  pub account : Option String

-- The paths of the log files in the metadata of a job.
pub record JobMetadata : Type 0 where
  pub standard_output : Option String
  pub standard_error : Option String

pub data RemoteCall : Type 0 where
  get_systems : RemoteCall
  get_user_info : RemoteCall
  make_dir : String → Bool → RemoteCall
  change_mode : String → String → RemoteCall
  upload : String → String → String → RemoteCall
  submit : JobDescription → RemoteCall
  get_metadata : String → RemoteCall
  cancel : String → RemoteCall

-- The latest call is the first.
abbrev pub Calls : Type 0
Calls = List RemoteCall

-- What is outside of the controller. `read_dir` gives the entries of a directory and which of them
-- are directories, `read_lines` the lines of a file without the spaces around them, and `branch_of`
-- the name of a branch that a line of git's configuration begins the section of.
pub record World (F C : Type 0) : Type 0 where
  pub pod : Pod F C
  pub environ : StringMap String
  pub images : References
  pub session_script : String
  pub read_dir : String → (List (String × Bool)) ⊎ String
  pub read_lines : String → (List String) ⊎ String
  pub branch_of : String → Option String
  pub read_config : String → String ⊎ String
  pub systems : Calls → ApiAnswer (List HpcCluster)
  pub user_name : Calls → ApiAnswer String
  pub made_dir : Calls → String → Bool → ApiAnswer (Unit {0})
  pub changed_mode : Calls → String → String → ApiAnswer (Unit {0})
  pub uploaded : Calls → String → String → String → ApiAnswer (Unit {0})
  pub submitted : Calls → JobDescription → ApiAnswer (Option String)
  pub metadata : Calls → String → ApiAnswer (Option (List JobMetadata))
  pub cancelled : Calls → String → ApiAnswer (Unit {0})
  pub is_abs : String → Bool
  pub trim_suffix : String → String → String
  pub to_lower : String → String
  pub replace_first : String → String → String → String
  pub without_notes : String → String
  pub hostname : String → String ⊎ String
  pub encode_env : StringMap String → Option String

-- A computation that makes calls and may end in an error.
abbrev pub Exec : Type 0 → Type 0
Exec A = Calls → (A ⊎ RemoteError) × Calls

unfoldable pub continue :
    {A B : Type 0} → (A ⊎ RemoteError) × Calls → (A → Exec B) → (B ⊎ RemoteError) × Calls
continue (inl a, h) f = f a h
continue (inr e, h) f = (inr e, h)

infixl 5 ◌>>=◌ ◌>>◌
abbrev pub ◌>>=◌ : {A B : Type 0} → Exec A → (A → Exec B) → Exec B
◌>>=◌ m f h = continue (m h) f

abbrev pub ◌>>◌ : {A B : Type 0} → Exec A → Exec B → Exec B
m >> k = m >>= λ _. k

abbrev pub pure : {A : Type 0} → A → Exec A
pure a h = (inl a, h)

abbrev pub result : {A : Type 0} → A ⊎ RemoteError → Exec A
result r h = (r, h)

-- The answer to an upload is a success with the status 204 alone.
unfoldable pub no_content : String → ApiAnswer (Unit {0}) → Unit {0} ⊎ RemoteError
unfolding error_of
no_content what (unreachable e) = inr (failure e)
no_content what (answered code body json4xx json5xx) =
    if code == 204 then inl tt else inr (error_of what code json4xx json5xx)

-- The answer to a cancellation is a success with any status from 200 to 299.
unfoldable pub any_success : String → ApiAnswer (Unit {0}) → Option RemoteError
unfolding error_of
any_success what (unreachable e) = some (failure e)
any_success what (answered code body json4xx json5xx) =
    if ltb code 200 || leb 300 code then some (error_of what code json4xx json5xx) else none

unfoldable pub job_id_of : (Option String) ⊎ RemoteError → String ⊎ RemoteError
job_id_of (inr e) = inr e
job_id_of (inl none) = inr (failure "invalid job submission response")
job_id_of (inl (some id)) = inl id

unfoldable pub find_system : String → List HpcCluster → HpcCluster ⊎ RemoteError
find_system name [] = inr (failure ("system '" <> name <> "' not found"))
find_system name (sys ∷ rest) =
    let later = find_system name rest in if sys.name == name then inl sys else later

unfoldable pub system_of : String → (List HpcCluster) ⊎ RemoteError → HpcCluster ⊎ RemoteError
unfolding find_system
system_of name (inr e) = inr e
system_of name (inl systems) = find_system name systems

module _ {F C : Type 0} (w : World F C) where
  -- `os.Getenv(key)`
  unfoldable pub getenv : String → String
  unfolding lookup
  getenv key = elim (lookup key w.environ) [ none ↦ "" | some value ↦ value ]

  unfoldable pub get_current_system : String → Exec HpcCluster
  unfolding checked system_of
  get_current_system name h =
      (system_of name (checked "could not get job" (w.systems h)), get_systems ∷ h)

  unfoldable pub get_user_name : Exec String
  unfolding checked
  get_user_name h = (checked "could not get user info" (w.user_name h), get_user_info ∷ h)

  unfoldable pub mkdir : String → Bool → Exec (Unit {0})
  unfolding checked
  mkdir path parents h =
      (checked "could not run mkdir" (w.made_dir h path parents), make_dir path parents ∷ h)

  unfoldable pub chmod : String → String → Exec (Unit {0})
  unfolding checked
  chmod path mode h =
      (checked "could not run chmod" (w.changed_mode h path mode), change_mode path mode ∷ h)

  unfoldable pub upload_file : String → String → String → Exec (Unit {0})
  unfolding no_content
  upload_file directory name contents h = (
    no_content "could not run uploadFile" (w.uploaded h directory name contents),
    upload directory name contents ∷ h,
  )

  unfoldable pub submit_job : JobDescription → Exec String
  unfolding checked job_id_of
  submit_job job h =
      (job_id_of (checked "could not submit job" (w.submitted h job)), submit job ∷ h)
