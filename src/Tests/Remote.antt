-- ===== src/Tests/Remote.antt =====
-- What the theorems on FirecREST sessions say of a concrete one.
use amalthea.Prelude.{
  ◌+◌, String, ◌<>◌, ◌≡◌, refl, sym, ◌↔◌, inl, inr, true, false, Option, none, some, [], ◌∷◌, arith,
  ℕ_eq, String_eq, Bytes, take, drop, newline, is_one_line, is_empty, length, StringMap, lookup,
  cut_prefix,
}
use mathlib.Core.List.{append-nil}
use mathlib.Core.Path.{subst}
use amalthea.Images.{References}
use amalthea.Remote.Models.{answered, RemoteError, checked}
use amalthea.Remote.Firecrest.{
  LogFile, SavedState, FileSystem, Pod, Stream, out, Session, new_controller, state_to_save,
  save_state, recover_state, recover_contents, write_in_dir, write_state,
  FirecrestRemoteSessionController,
}
use amalthea.Remote.Firecrest.Recovery.{IsFaithful}
use amalthea.Remote.Firecrest.Logs.{Cluster, output, refresh, flush}
use amalthea.Remote.Firecrest.Logs.Laws.{flush-terminates}
use amalthea.Remote.Firecrest.Logs.Following.{IsPiece}
use amalthea.Remote.Firecrest.Logs.Printed.{texts_of}
use amalthea.Remote.Firecrest.Logs.Followed.{IsServing}
use amalthea.Remote.Firecrest.Logs.Runs.{
  restart, round, start_again, Reachable, saves, before_saving,
}
use amalthea.Remote.Firecrest.Logs.Runs
use amalthea.Remote.Firecrest.Logs.Reference.{complete_lines}
use amalthea.Remote.Firecrest.Calls.{
  RemoteFileSystem, scratch, users, World, Calls, continue, submit_job, upload_file, getenv, mkdir,
  chmod, get_current_system, get_user_name, no_content, system_of, find_system, job_id_of,
}
use amalthea.Remote.Firecrest.Script.{
  get_preferred_scratch, preferred_scratch, last_where, is_default_scratch, is_scratch,
}
use amalthea.Remote.Firecrest.Environment.{
  collect_git_repositories, repositories_of, with_tunnel, git_env, copy_user_env, copy_env,
  with_enroot_image, with_git, job_env, has_prefix,
}
use amalthea.Remote.Firecrest.Environment.Laws.{job_env_lem, last_value}
use amalthea.Remote.Firecrest.Start.{
  lift, lift_error, scratch_path, saved_session, start, start_recovered, prepare, fill,
  upload_secret, upload_repositories, with_job, submitted_job,
}
use amalthea.Remote.Firecrest.Start.Order.{start-IsOrdered, is_ordered}
use amalthea.Remote.Firecrest.Start.Laws.{start-complete_lines, new_session, paths_in}
use amalthea.Remote.Server.{status_code}
use amalthea.Remote.Server.Laws.{HasRunningJob, refresh-status_code}

-- A disk with one file, which holds what is written to it.
abbrev pub a_file_system : {C : Type 0} → FileSystem (Option C) C
a_file_system = record {
  mkdir_all = λ path files. (files, none);
  read_file = λ path files. elim files [ none ↦ inr "no such file" | some c ↦ inl c ];
  write_file = λ path contents files. (some contents, none);
  remove = λ path files. (none, none);
}

abbrev a_pod : Pod (Option SavedState) SavedState
a_pod = record {
  fs = a_file_system;
  renku_mount_dir = "/work";
  join = λ a b. a <> "/" <> b;
  marshal = λ state. inl state;
  unmarshal = λ contents. inl contents;
}

a_pod-IsFaithful : IsFaithful a_pod
a_pod-IsFaithful = record {
  writes = λ path contents files fine. refl;
  reads = λ state contents made. sym made;
}

abbrev pub some_images : References
some_images = record {
  parse_docker_ref = λ image.
      inl (record { domain = "docker.io"; path = "library/python"; tag = some "3"; digest = none });
  familiar_string = λ named. "python:3";
}

abbrev a_scratch : RemoteFileSystem
a_scratch = record { path = "/scratch"; data_type = scratch; default_work_dir = some true }

abbrev a_home : RemoteFileSystem
a_home = record { path = "/users"; data_type = users; default_work_dir = none }

-- A world in which all is well.
abbrev a_world : World (Option SavedState) SavedState
a_world = record {
  pod = a_pod;
  environ = ("RENKU_PROJECT_PATH", "team/project") ∷ ("USER_ENV_RENKU_PROJECT_PATH", "other") ∷ [];
  images = some_images;
  session_script = "srun";
  read_dir = λ dir. inl [];
  read_lines = λ path. inr "no such file";
  branch_of = λ line. none;
  read_config = λ path. inr "no such file";
  systems = λ h.
      answered 200
        (some (record { name = "daint"; file_systems = some (a_home ∷ a_scratch ∷ []) } ∷ [])) none
        none;
  user_name = λ h. answered 200 (some "ada") none none;
  made_dir = λ h path parents. answered 201 (some tt) none none;
  changed_mode = λ h path mode. answered 200 (some tt) none none;
  uploaded = λ h dir name contents. answered 204 (some tt) none none;
  submitted = λ h job. answered 201 (some (some "42")) none none;
  metadata = λ h id. answered 200 (some none) none none;
  cancelled = λ h id. answered 503 none none (some "busy");
  is_abs = λ path. true;
  trim_suffix = λ text suffix. text;
  to_lower = λ text. text;
  replace_first = λ text old new. text;
  without_notes = λ text. text;
  hostname = λ url. inl "renku.org";
  encode_env = λ env. none;
}

abbrev a_start : (Session (Option SavedState) × Option RemoteError) × Calls
a_start = start a_world (new_session a_world "daint" "" none) []

start_is_fine : a_start.0.1 ≡ none
unfolding start start_recovered recover_state recover_contents prepare get_current_system checked
    system_of find_system get_user_name scratch_path get_preferred_scratch preferred_scratch
    last_where is_default_scratch is_scratch fill mkdir chmod upload_secret upload_file no_content
    getenv lookup collect_git_repositories repositories_of lift upload_repositories job_env
    with_tunnel git_env submit_job job_id_of submitted_job saved_session save_state write_in_dir
    write_state lift_error continue new_controller with_job
start_is_fine = refl

-- "ok", a newline and "b", of which the second line is not complete.
abbrev a_log : Stream → Bytes
a_log stream = b'o' ∷ b'k' ∷ newline ∷ b'b' ∷ []

abbrev a_cluster : Cluster
a_cluster = record {
  job = λ id. answered 200 (some (some ("RUNNING" ∷ []))) none none;
  view = λ path offset size. output (drop offset (a_log out));
}

a_cluster-IsServing : (path : Stream → String) → IsServing a_cluster path a_log
unfolding IsServing IsPiece
a_cluster-IsServing path stream offset = ([], sym (append-nil (drop offset (a_log out))))

abbrev a_read_session : Session (Option SavedState)
a_read_session = restart a_pod "daint" "" false (refresh a_pod a_cluster a_start.0.0)

it_saves : saves a_pod a_cluster a_start.0.0 ≡ true
unfolding saves before_saving save_state write_in_dir write_state start start_recovered
    new_controller continue
it_saves = refl

start-complete_lines_example :
    texts_of out a_read_session.printed
    ≡ complete_lines (
        take
          (a_read_session.controller.stdout.offset + length a_read_session.controller.stdout.buf)
          (a_log out))
start-complete_lines_example =
    start-complete_lines a_world "daint" "" none [] a_log a_read_session true a_pod-IsFaithful
      ("no such file", refl) start_is_fine
      (start_again "daint" "" false (
        subst
          (λ b.
            Reachable a_pod (paths_in a_world a_start.0.0) a_log a_start.0.0 b
              (refresh a_pod a_cluster a_start.0.0))
          it_saves
          (round a_cluster (a_cluster-IsServing (paths_in a_world a_start.0.0)) Runs.start)))
      out

abbrev a_file : LogFile
a_file = record { path = "/log"; offset = 3; buf = b'o' ∷ newline ∷ b'k' ∷ [] }

flush-terminates_example : is_one_line (flush 4 out a_file).0.buf ≡ true
flush-terminates_example = flush-terminates 4 out a_file (omega arith)

abbrev a_controller : FirecrestRemoteSessionController
a_controller = record (new_controller "daint" "" false) { job_id = "42"; stdout = a_file }

start-IsOrdered_example : (path : String) × (is_ordered path a_start.1 ≡ true)
start-IsOrdered_example = start-IsOrdered a_world (new_session a_world "daint" "" none)

-- What was saved by the controller above.
abbrev a_saved_session : Session (Option SavedState)
a_saved_session = record {
  controller = new_controller "daint" "" false;
  files = some (state_to_save a_controller);
  printed = [];
}

abbrev a_running_session : Session (Option SavedState)
a_running_session = record a_saved_session { controller = a_controller }

-- The environment of a job without repositories.
abbrev an_env : StringMap String
an_env = with_git a_world [] (
    copy_env "RENKU" a_world.environ (
      with_enroot_image a_world
        (copy_env "REMOTE_SESSION" a_world.environ (copy_user_env a_world.environ []))))

job_env_lem_example : lookup "RENKU_PROJECT_PATH" an_env ≡ some "team/project"
unfolding job_env with_tunnel git_env getenv lookup has_prefix cut_prefix last_value
job_env_lem_example =
    job_env_lem a_world "RENKU_PROJECT_PATH" "team/project" refl "/sessions/s" [] an_env refl refl

refresh-status_code_example :
    let c = (refresh a_pod a_cluster a_running_session).controller in
    (status_code (c.current_status, c.current_status_error) ≡ 200)
    ↔ ((is_empty "42" ≡ false) × HasRunningJob (checked "could not get job" (a_cluster.job "42")))
refresh-status_code_example = refresh-status_code a_pod a_cluster a_running_session
