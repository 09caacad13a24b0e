-- ===== src/Cloner/Run.antt =====
-- The work of the cloner (internal/cloner/cloner.go).
pub mod Laws
use amalthea.Prelude.{
  ℕ, String, ◌<>◌, ◌⊎◌, inl, inr, false, ◌||◌, not, Option, none, some, List, [], ◌∷◌, ltb, ◌==◌,
  ℕ_eq, String_eq, if◌then◌else◌, is_empty,
}
use Prim.Native.Nat.{◌*◌, ◌%◌, ◌^◌}
use amalthea.GitProxy.TokenStore.{HttpAnswer, TokenError, body_of}
use amalthea.Cloner.{
  User, is_anonymous, GitProvider, Repository, CloneConfig, CloneCall, ask_token, write_file,
  CloneState, World, Exec, continue, recover, ◌>>=◌, ◌>>◌, pure, result, done, set_credentials,
  run_git,
}
use amalthea.Cloner.Repositories.{exists, default_branch, get_lfs_total_size_bytes}

module _ (w : World) where
  -- A command whose output is not used.
  command : String → List String → Exec (Unit {0})
  unfolding run_git
  command name args = do run_git w name args; pure tt

  unless_empty : String → Exec (Unit {0}) → Exec (Unit {0})
  unless_empty text m = if is_empty text then pure tt else m

  abbrev pub proxy_url : String
  proxy_url = "http://localhost:" <> w.config.git_proxy_port

  unfoldable pub setup_proxy : Exec (Unit {0})
  unfolding command continue
  setup_proxy = if not w.config.is_git_proxy_enabled then pure tt else (do
    command "config" ("http.proxy" ∷ proxy_url ∷ [])
    command "config" ("http.sslVerify" ∷ "false" ∷ []))

  unfoldable pub find_provider : String → List GitProvider → Option GitProvider
  find_provider id [] = none
  find_provider id (provider ∷ rest) =
      let later = find_provider id rest in if provider.id == id then some provider else later

  -- An error is logged only, and the token is then empty.
  token_or_empty : String ⊎ TokenError → String
  token_or_empty (inl token) = token
  token_or_empty (inr e) = ""

  token_from : Option GitProvider → Exec String
  unfolding token_or_empty body_of
  token_from none s = (inl "", s)
  token_from (some provider) s = (
    inl (token_or_empty (body_of (w.token s.log provider.access_token_url))),
    record s { log = ask_token provider.access_token_url w.user.renku_token ∷ s.log },
  )

  -- The token of the provider of a repository, or an empty text.
  unfoldable pub get_access_token : Repository → Exec String
  unfolding token_from find_provider
  get_access_token repository =
      if is_empty repository.provider
      then pure ""
      else token_from (find_provider repository.provider w.config.git_providers)

  unfoldable pub initialize_repository : Exec (Unit {0})
  unfolding command unless_empty continue
  initialize_repository = do
    command "init" ("--initial-branch" ∷ "main" ∷ [])
    unless_empty w.user.email (command "config" ("user.email" ∷ w.user.email ∷ []))
    unless_empty w.user.full_name (command "config" ("user.name" ∷ w.user.full_name ∷ []))
    command "config" ("push.default" ∷ "simple" ∷ [])

  branch_of : Repository → Exec String
  unfolding default_branch
  branch_of repository s = elim repository.branch [
    | none ↦ default_branch w w.remote_name s
    | some branch ↦ pure branch s
  ]

  space_for : ℕ → (ℕ × ℕ) ⊎ String → (Unit {0}) ⊎ String
  space_for size (inr e) = inr e
  space_for size (inl (blocks, block_size)) =
      if ltb ((blocks * block_size) % 2 ^ 64) size then inr "not enough free space" else inl tt

  unfoldable pub fetch_lfs : Repository → Exec (Unit {0})
  unfolding command get_lfs_total_size_bytes space_for continue
  fetch_lfs repository = do
    size ← get_lfs_total_size_bytes w
    result (space_for size (w.free_space repository.clone_path))
    command "lfs" ("install" ∷ "--local" ∷ [])
    command "lfs" ("pull" ∷ [])

  unfoldable pub clone : Repository → Exec (Unit {0})
  unfolding command branch_of unless_empty fetch_lfs continue
  clone repository = do
    command "lfs" (
        "install"
        ∷ (if w.config.lfs_auto_fetch then "--local" ∷ [] else "--skip-smudge" ∷ "--local" ∷ []))
    command "remote" ("add" ∷ w.remote_name ∷ repository.url ∷ [])
    command "fetch" (w.remote_name ∷ [])
    branch ← branch_of repository
    unless_empty branch (command "checkout" (branch ∷ []))
    (if w.config.lfs_auto_fetch then fetch_lfs repository else pure tt)
    command "submodule" ("update" ∷ "--init" ∷ [])

  -- The file that tells the user that the repository was not cloned.
  unfoldable pub write_error : Repository → String → Exec (Unit {0})
  write_error repository e s =
      let path = repository.clone_path <> "/ERROR" in
      let contents = "Cannot clone " <> repository.url <> ":\n " <> e in
      (done (w.write path contents), record s { log = write_file path contents ∷ s.log })

  try_clone : Repository → Exec (Unit {0})
  unfolding clone recover write_error setup_proxy
  try_clone repository s =
      recover (clone repository s) (λ e. write_error repository e) (λ _. setup_proxy)

  unfoldable pub set_up : Repository → Exec (Unit {0})
  unfolding get_access_token initialize_repository set_credentials try_clone is_anonymous continue
  set_up repository = do
    token ← get_access_token repository
    initialize_repository
    set_credentials (if is_anonymous w.user || is_empty token then "" else "oauth2") token
    try_clone repository

  unfoldable pub execute : Repository → Exec (Unit {0})
  unfolding exists setup_proxy set_up continue
  execute repository = do is_there ← exists w; (if is_there then setup_proxy else set_up repository)

  -- Each repository has a client of its own, without credentials at first.
  unfoldable pub run_all : List Repository → Exec (Unit {0})
  unfolding execute continue set_credentials
  run_all [] = pure tt
  run_all (repository ∷ rest) = do set_credentials "" ""; execute repository; run_all rest

  unfoldable pub run : Exec (Unit {0})
  unfolding run_all
  run = run_all w.config.repositories
