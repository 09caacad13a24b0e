-- ===== src/Remote/Firecrest.antt =====
-- The controller of a session on a cluster behind FirecREST (internal/remote/firecrest/controller.go)
-- and the file in which it keeps its state over a restart. The file system and encoding/json are
-- parameters.
pub mod Logs
pub mod Status
pub mod Recovery
pub mod Calls
pub mod Script
pub mod Environment
pub mod Start
use amalthea.Prelude.{
  ℕ, String, ◌⊎◌, inl, inr, Bool, Option, none, some, List, [], if◌then◌else◌, is_empty, Bytes,
}
use amalthea.Remote.Models.{RemoteSessionState, not_ready, RemoteError, failure}

-- A log file of the job: `stdoutPath`, `stdoutOffset` and `stdoutBuf`, or the same of stderr.
pub record LogFile : Type 0 where
  pub path : String
  pub offset : ℕ
  pub buf : Bytes

pub record FirecrestRemoteSessionController : Type 0 where
  pub job_id : String
  pub system_name : String
  pub partition : String
  pub current_status : RemoteSessionState
  pub current_status_error : Option RemoteError
  pub fake_start : Bool
  pub stdout : LogFile
  pub stderr : LogFile

pub record SavedState : Type 0 where
  pub job_id : String
  pub stdout_path : String
  pub stderr_path : String
  pub stdout_offset : ℕ
  pub stderr_offset : ℕ

-- The file system (package os); `F` stands for what it holds, `C` for the contents of a file.
pub record FileSystem (F C : Type 0) : Type 0 where
  pub mkdir_all : String → F → F × Option String
  pub read_file : String → F → C ⊎ String
  pub write_file : String → C → F → F × Option String
  pub remove : String → F → F × Option String

-- The pod of the controller: its file system, its environment, and the packages path and
-- encoding/json.
pub record Pod (F C : Type 0) : Type 0 where
  pub fs : FileSystem F C
  pub renku_mount_dir : String
  pub join : String → String → String
  pub marshal : SavedState → C ⊎ String
  pub unmarshal : C → SavedState ⊎ String

-- A line of a log that is printed, "[session/stream] text".
pub data Stream : Type 0 where
  out : Stream
  error : Stream

pub record Line : Type 0 where
  pub stream : Stream
  pub text : Bytes

-- The controller, the files of its pod, and what it has printed of the logs of the session.
pub record Session (F : Type 0) : Type 0 where
  pub controller : FirecrestRemoteSessionController
  pub files : F
  pub printed : List Line

-- The controller that `NewFirecrestRemoteSessionController` makes.
unfoldable pub new_controller : String → String → Bool → FirecrestRemoteSessionController
new_controller system_name partition fake_start = record {
  job_id = "";
  system_name = system_name;
  partition = partition;
  current_status = not_ready;
  current_status_error = none;
  fake_start = fake_start;
  stdout = record { path = ""; offset = 0; buf = [] };
  stderr = record { path = ""; offset = 0; buf = [] };
}

unfoldable pub state_to_save : FirecrestRemoteSessionController → SavedState
state_to_save c = record {
  job_id = c.job_id;
  stdout_path = c.stdout.path;
  stderr_path = c.stderr.path;
  stdout_offset = c.stdout.offset;
  stderr_offset = c.stderr.offset;
}

-- The controller takes what was saved; a job ID that is empty is not taken.
unfoldable pub restored :
    FirecrestRemoteSessionController → SavedState → FirecrestRemoteSessionController
restored c state = record c {
  job_id = if is_empty state.job_id then c.job_id else state.job_id;
  stdout = record { path = state.stdout_path; offset = state.stdout_offset; buf = c.stdout.buf };
  stderr = record { path = state.stderr_path; offset = state.stderr_offset; buf = c.stderr.buf };
}

unfoldable pub recover_from :
    FirecrestRemoteSessionController
    → SavedState ⊎ String
    → FirecrestRemoteSessionController × Option RemoteError
unfolding restored
recover_from c (inr e) = (c, some (failure e))
recover_from c (inl state) = (restored c state, none)

module _ {F C : Type 0} (pod : Pod F C) where
  unfoldable pub get_save_dir_path : String
  get_save_dir_path = pod.join pod.renku_mount_dir ".rsc"

  unfoldable pub get_save_path : String
  unfolding get_save_dir_path
  get_save_path = pod.join get_save_dir_path "state.json"

  unfoldable pub write_state : C ⊎ String → F → F × Option String
  unfolding get_save_path
  write_state (inr e) files = (files, some e)
  write_state (inl contents) files = pod.fs.write_file get_save_path contents files

  unfoldable pub write_in_dir : C ⊎ String → F × Option String → F × Option String
  unfolding write_state
  write_in_dir contents (files, some e) = (files, some e)
  write_in_dir contents (files, none) = write_state contents files

  unfoldable pub save_state : FirecrestRemoteSessionController → F → F × Option String
  unfolding write_in_dir get_save_dir_path state_to_save
  save_state c files =
      if is_empty c.job_id
      then (files, some "cannot save, job ID is not defined")
      else write_in_dir (pod.marshal (state_to_save c)) (pod.fs.mkdir_all get_save_dir_path files)

  unfoldable pub delete_saved_state : F → F × Option String
  unfolding get_save_path
  delete_saved_state files = pod.fs.remove get_save_path files

  -- A file that cannot be read is one that is not there.
  unfoldable pub recover_contents :
      FirecrestRemoteSessionController
      → C ⊎ String
      → FirecrestRemoteSessionController × Option RemoteError
  unfolding recover_from
  recover_contents c (inr e) = (c, none)
  recover_contents c (inl contents) = recover_from c (pod.unmarshal contents)

  unfoldable pub recover_state :
      FirecrestRemoteSessionController → F → FirecrestRemoteSessionController × Option RemoteError
  unfolding recover_contents get_save_path
  recover_state c files = recover_contents c (pod.fs.read_file get_save_path files)
