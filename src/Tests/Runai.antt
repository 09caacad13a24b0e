-- ===== src/Tests/Runai.antt =====
-- What the theorems on Run:ai sessions say of a concrete one.
use amalthea.Prelude.{◌<>◌, ◌≡◌, refl, inl, false, Option, none, some, [], ◌∷◌, ℕ_eq, String_eq}
use amalthea.Remote.Runai.{RunaiSession, JobInfo}
use amalthea.Remote.Runai
use amalthea.Remote.Runai.Laws.{stop-start_again, refresh_status-status_code}
use amalthea.Remote.Server.{status_code}
use amalthea.Tests.Remote.{a_file_system}

abbrev a_runai_cluster : Runai.Cluster (Option JobInfo) JobInfo
a_runai_cluster = record {
  fs = a_file_system;
  join = λ a b. a <> "/" <> b;
  marshal = λ state. inl state;
  unmarshal = λ contents. inl contents;
  getenv = λ key. "";
  trim_suffix = λ text suffix. text;
  time_text = "20260102-03-04-05";
  projects = λ name. inl ("p-1" ∷ []);
  create = λ project name spec. inl "w-1";
  delete = λ id. none;
  workloads = none;
}

abbrev a_job_info : JobInfo
a_job_info = record { job_name = "amalthea-team-1"; job_id = "w-1" }

-- The session after a restart of its controller.
abbrev a_runai_session : RunaiSession (Option JobInfo)
a_runai_session =
    (Runai.start a_runai_cluster (record {
      controller = Runai.new_controller "team" false;
      files = some a_job_info;
      calls = [];
    })).0

stop-start_again_example :
    let again = Runai.start a_runai_cluster (record {
      controller = Runai.new_controller "team" false;
      files = some a_job_info;
      calls = [];
    }) in
    (again.1 ≡ none)
    × (again.0.controller.job_name ≡ "amalthea-team-1")
    × (Runai.stop a_runai_cluster again.0 ≡ (again.0, none))
    × (again.0.files ≡ some a_job_info)
    × (again.0.calls ≡ [])
stop-start_again_example =
    stop-start_again a_runai_cluster "team" false a_job_info (some a_job_info) []
      (a_job_info, refl, refl) refl

refresh_status-status_code_example :
    let r = Runai.refresh_status a_runai_cluster a_runai_session.controller in
    status_code (r.current_status, r.current_status_error) ≡ 503
refresh_status-status_code_example =
    refresh_status-status_code a_runai_cluster a_runai_session.controller
