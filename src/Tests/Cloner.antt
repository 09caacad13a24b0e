-- ===== src/Tests/Cloner.antt =====
-- What the theorems on the cloner say of a concrete run.
use amalthea.Prelude.{
  ◌≡◌, refl, inl, inr, Bool, true, false, ◌&&◌, not, none, some, [], ◌∷◌, ◌==◌, ℕ_eq, String_eq,
  if◌then◌else◌, all,
}
use amalthea.GitProxy.TokenStore.{answered}
use amalthea.Cloner.{is_anonymous, Repository, CloneState, World}
use amalthea.Cloner.Run.{run}
use amalthea.Cloner.Run.Laws.{has_no_user, run-has_no_user}

abbrev a_repository : Repository
a_repository = record {
  url = "https://git.org/team/code.git";
  provider = "git";
  branch = none;
  clone_path = "/work/code";
}

-- One repository of a user without a token; git knows of a work tree exactly if `is_there`.
abbrev a_cloner : Bool → World
a_cloner is_there = record {
  config = record {
    lfs_auto_fetch = true;
    is_git_proxy_enabled = true;
    git_proxy_port = "65480";
    repositories = a_repository ∷ [];
    git_providers = record { id = "git"; access_token_url = "https://renku/token" } ∷ [];
  };
  user = record { email = ""; full_name = ""; renku_token = "" };
  remote_name = "origin";
  run_git = λ log command args.
      if command == "rev-parse" && not is_there then inr "not a repository" else inl "true";
  token = λ log url. answered 401 (inl "");
  write = λ path text. none;
  reads_true = λ answer. answer == "true";
  branch_in = λ remote ref. some "main";
  lfs_sizes = λ answer. inl (5 ∷ 7 ∷ []);
  free_space = λ path. inl (10, 512);
}

abbrev a_clean_state : CloneState
a_clean_state = record { username = ""; password = ""; log = [] }

run-has_no_user_example : all has_no_user (run (a_cloner false) a_clean_state).1.log ≡ true
unfolding is_anonymous
run-has_no_user_example = run-has_no_user (a_cloner false) refl
