-- ===== src/Cloner/Run/Laws.antt =====
-- What the cloner does not do: it gives no user name of an anonymous user to git, and it leaves a
-- repository that is there alone.
use amalthea.Prelude.{
  String, ◌<>◌, ◌≡◌, refl, ◌⊎◌, inl, inr, Bool, true, false, ◌||◌, not, Option, none, some, List,
  [], ◌∷◌, ◌==◌, ℕ_eq, String_eq, if◌then◌else◌, Option-cases, is_empty, all,
}
use amalthea.Cloner.{
  is_anonymous, GitProvider, Repository, CloneCall, git, ask_token, write_file, CloneState, World,
  Exec, continue, recover, ◌>>=◌, pure, result, set_credentials, run_git,
}
use amalthea.Cloner.Repositories.{exists, default_branch, get_lfs_total_size_bytes}
use amalthea.Cloner.Run.{
  command, unless_empty, setup_proxy, proxy_url, find_provider, token_from, get_access_token,
  initialize_repository, branch_of, fetch_lfs, clone, write_error, try_clone, set_up, execute,
  run_all, run,
}

-- A computation keeps what holds of a state, whether or not it ends in an error.
Keeps : {A : Type 0} → (CloneState → Type 0) → Exec A → Type 0
Keeps P m = (s : CloneState) → P s → P (m s).1

after-continue :
    {A B : Type 0} (P : CloneState → Type 0) (r : (A ⊎ String) × CloneState) (f : A → Exec B)
    → P r.1
    → ((a : A) → Keeps P (f a))
    → P (continue r f).1
unfolding continue Keeps
after-continue P (inl a, s) f p next = next a s p
after-continue P (inr e, s) f p next = p

bind-Keeps :
    {A B : Type 0} (P : CloneState → Type 0) (m : Exec A) (f : A → Exec B)
    → Keeps P m
    → ((a : A) → Keeps P (f a))
    → Keeps P (m >>= f)
unfolding Keeps
bind-Keeps P m f first next s p = after-continue P (m s) f (first s p) next

after-recover :
    {A B : Type 0} (P : CloneState → Type 0) (r : (A ⊎ String) × CloneState) (f : String → Exec B)
    (g : A → Exec B)
    → P r.1
    → ((e : String) → Keeps P (f e))
    → ((a : A) → Keeps P (g a))
    → P (recover r f g).1
unfolding recover Keeps
after-recover P (inl a, s) f g p other next = next a s p
after-recover P (inr e, s) f g p other next = other e s p

recover-Keeps :
    {A B : Type 0} (P : CloneState → Type 0) (m : Exec A) (f : String → Exec B) (g : A → Exec B)
    → Keeps P m
    → ((e : String) → Keeps P (f e))
    → ((a : A) → Keeps P (g a))
    → Keeps P (λ s. recover (m s) f g)
unfolding Keeps
recover-Keeps P m f g first other next s p = after-recover P (m s) f g (first s p) other next

result-Keeps : {A : Type 0} (P : CloneState → Type 0) (r : A ⊎ String) → Keeps P (result r)
unfolding Keeps
result-Keeps P r s p = p

either-Keeps :
    {A : Type 0} (P : CloneState → Type 0) (b : Bool) (m k : Exec A)
    → Keeps P m
    → Keeps P k
    → Keeps P (if b then m else k)
unfolding Keeps
either-Keeps P true m k p q = p
either-Keeps P false m k p q = q

pure-Keeps : {A : Type 0} (P : CloneState → Type 0) (a : A) → Keeps P (pure a)
unfolding Keeps
pure-Keeps P a s p = p

setup_proxy-Keeps :
    (w : World) (P : CloneState → Type 0)
    → ((args : List String) → Keeps P (command w "config" args))
    → Keeps P (setup_proxy w)
unfolding setup_proxy
setup_proxy-Keeps w P config =
    either-Keeps P (not w.config.is_git_proxy_enabled) (pure tt) _ (pure-Keeps P tt) (
      bind-Keeps P _ _ (config ("http.proxy" ∷ proxy_url w ∷ []))
        (λ a. config ("http.sslVerify" ∷ "false" ∷ [])))

-- What every command of git keeps, and what is said of the other calls, holds of the whole run.
module _ (w : World) (P : CloneState → Type 0)
    (runs : (name : String) (args : List String) → Keeps P (run_git w name args))
    (asks : (url token : String) (s : CloneState)
      → P s
      → P (record s { log = ask_token url token ∷ s.log }))
    (writes : (path text : String) (s : CloneState)
      → P s
      → P (record s { log = write_file path text ∷ s.log }))
    (sets : (token : String)
      → Keeps P
          (set_credentials (if is_anonymous w.user || is_empty token then "" else "oauth2") token))
    (clears : Keeps P (set_credentials "" "")) where
  command-Keeps : (name : String) (args : List String) → Keeps P (command w name args)
  unfolding command
  command-Keeps name args = bind-Keeps P _ _ (runs name args) (λ a. pure-Keeps P tt)

  unless_empty-Keeps :
      (text : String) (m : Exec (Unit {0})) → Keeps P m → Keeps P (unless_empty w text m)
  unfolding unless_empty
  unless_empty-Keeps text m k = either-Keeps P (is_empty text) (pure tt) m (pure-Keeps P tt) k

  exists-Keeps : Keeps P (exists w)
  unfolding exists
  exists-Keeps =
      recover-Keeps P _ _ _ (runs "rev-parse" ("--is-inside-work-tree" ∷ []))
        (λ e. pure-Keeps P false) (λ a. pure-Keeps P (w.reads_true a))

  default_branch-Keeps : (remote : String) → Keeps P (default_branch w remote)
  unfolding default_branch
  default_branch-Keeps remote =
      recover-Keeps P _ _ _ (runs "remote" ("set-head" ∷ remote ∷ "--auto" ∷ []))
        (λ e. pure-Keeps {A = String} P "")
        (λ a.
          bind-Keeps P _ _ (runs "symbolic-ref" (("refs/remotes/" <> remote <> "/HEAD") ∷ []))
            (λ ref. result-Keeps P _))

  branch_of-Keeps : (repository : Repository) → Keeps P (branch_of w repository)
  unfolding branch_of Keeps
  branch_of-Keeps repository s p = elim (Option-cases repository.branch) [
    | inl e ↦ rw e (default_branch-Keeps w.remote_name s p)
    | inr (b, e) ↦ rw e p
  ]

  token_from-Keeps : (o : Option GitProvider) → Keeps P (token_from w o)
  unfolding token_from Keeps
  token_from-Keeps none s p = p
  token_from-Keeps (some provider) s p = asks _ _ s p

  get_access_token-Keeps : (repository : Repository) → Keeps P (get_access_token w repository)
  unfolding get_access_token
  get_access_token-Keeps repository =
      either-Keeps P (is_empty repository.provider) _ _ (pure-Keeps {A = String} P "")
        (token_from-Keeps (find_provider w repository.provider w.config.git_providers))

  initialize_repository-Keeps : Keeps P (initialize_repository w)
  unfolding initialize_repository
  initialize_repository-Keeps =
      bind-Keeps P _ _ (command-Keeps "init" ("--initial-branch" ∷ "main" ∷ [])) (λ a.
        bind-Keeps P _ _ (unless_empty-Keeps w.user.email _ (command-Keeps "config" _)) (λ a.
          bind-Keeps P _ _ (unless_empty-Keeps w.user.full_name _ (command-Keeps "config" _))
            (λ a. command-Keeps "config" ("push.default" ∷ "simple" ∷ []))))

  fetch_lfs-Keeps : (repository : Repository) → Keeps P (fetch_lfs w repository)
  unfolding fetch_lfs get_lfs_total_size_bytes
  fetch_lfs-Keeps repository =
      bind-Keeps P _ _
        (recover-Keeps P _ _ _ (runs "lfs" ("ls-files" ∷ "--json" ∷ [])) (λ e. pure-Keeps P 0)
          (λ a. pure-Keeps P _))
        (λ size. bind-Keeps P _ _ (result-Keeps P _) (λ a.
          bind-Keeps P _ _ (command-Keeps "lfs" ("install" ∷ "--local" ∷ []))
            (λ a. command-Keeps "lfs" ("pull" ∷ []))))

  clone-Keeps : (repository : Repository) → Keeps P (clone w repository)
  unfolding clone
  clone-Keeps repository = bind-Keeps P _ _ (command-Keeps "lfs" _) (λ a.
      bind-Keeps P _ _ (command-Keeps "remote" _) (λ a.
        bind-Keeps P _ _ (command-Keeps "fetch" _) (λ a.
          bind-Keeps P _ _ (branch_of-Keeps repository) (λ branch.
            bind-Keeps P _ _ (unless_empty-Keeps branch _ (command-Keeps "checkout" (branch ∷ [])))
              (λ a.
                bind-Keeps P _ _
                  (either-Keeps P w.config.lfs_auto_fetch _ _ (fetch_lfs-Keeps repository)
                    (pure-Keeps P tt))
                  (λ a. command-Keeps "submodule" ("update" ∷ "--init" ∷ [])))))))

  write_error-Keeps : (repository : Repository) (e : String) → Keeps P (write_error w repository e)
  unfolding write_error Keeps
  write_error-Keeps repository e s p = writes _ _ s p

  set_up-Keeps : (repository : Repository) → Keeps P (set_up w repository)
  unfolding set_up try_clone
  set_up-Keeps repository = bind-Keeps P _ _ (get_access_token-Keeps repository) (λ token.
      bind-Keeps P _ _ initialize_repository-Keeps (λ a. bind-Keeps P _ _ (sets token) (λ a.
        recover-Keeps P _ _ _ (clone-Keeps repository) (write_error-Keeps repository)
          (λ a. setup_proxy-Keeps w P (command-Keeps "config")))))

  run_all-Keeps : (repositories : List Repository) → Keeps P (run_all w repositories)
  unfolding run_all execute
  run_all-Keeps [] = pure-Keeps P tt
  run_all-Keeps (repository ∷ rest) = bind-Keeps P _ _ clears (λ a.
      bind-Keeps P _ _
        (bind-Keeps P _ _ exists-Keeps (λ there.
          either-Keeps P there _ _ (setup_proxy-Keeps w P (command-Keeps "config"))
            (set_up-Keeps repository)))
        (λ a. run_all-Keeps rest))

-- A call that is not a command of git with a user name.
unfoldable pub has_no_user : CloneCall → Bool
has_no_user (git command args username password) = is_empty username
has_no_user (ask_token url token) = true
has_no_user (write_file path text) = true

abbrev Unnamed : CloneState → Type 0
Unnamed s = (is_empty s.username ≡ true) × (all has_no_user s.log ≡ true)

run_git-Unnamed :
    (w : World) (name : String) (args : List String) → Keeps Unnamed (run_git w name args)
unfolding run_git has_no_user Keeps
run_git-Unnamed w name args s (none_set, before) = (none_set, rw none_set before)

-- The cloner runs no command of git with a user name when the user is anonymous, so that git never
-- asks for a password with the script, whatever git and the services answer.
pub run-has_no_user :
    (w : World)
    → is_anonymous w.user ≡ true
    → all has_no_user (run w (record { username = ""; password = ""; log = [] })).1.log ≡ true
unfolding run Keeps set_credentials has_no_user
run-has_no_user w anonymous =
    (run_all-Keeps w Unnamed (run_git-Unnamed w) (λ url token s p. p) (λ path text s p. p)
      (λ token s p. rw anonymous (refl, p.1)) (λ s p. (refl, p.1)) w.config.repositories
      (record { username = ""; password = ""; log = [] }) (refl, refl)).1

-- A command of git that reads or that sets the configuration.
unfoldable pub leaves_files : CloneCall → Bool
leaves_files (git command args username password) = command == "rev-parse" || command == "config"
leaves_files (ask_token url token) = false
leaves_files (write_file path text) = false

abbrev Untouched : CloneState → Type 0
Untouched s = all leaves_files s.log ≡ true

config-Untouched : (w : World) (args : List String) → Keeps Untouched (command w "config" args)
unfolding command run_git leaves_files Keeps
config-Untouched w args =
    bind-Keeps Untouched (run_git w "config" args) _ (λ s p. p) (λ a. pure-Keeps Untouched tt)

-- Of a repository that is there already only the configuration is set: nothing is fetched or checked
-- out, no token is asked for and no file is written.
pub execute-leaves_files :
    (w : World) (repository : Repository) (answer : String) (s : CloneState)
    → w.run_git s.log "rev-parse" ("--is-inside-work-tree" ∷ []) ≡ inl answer
    → w.reads_true answer ≡ true
    → all leaves_files s.log ≡ true
    → all leaves_files (execute w repository s).1.log ≡ true
unfolding execute exists run_git recover continue leaves_files Keeps
execute-leaves_files w repository answer s found there before =
    rw (found, there)
      (setup_proxy-Keeps w Untouched (config-Untouched w)
        (record s {
          log = git "rev-parse" ("--is-inside-work-tree" ∷ []) s.username s.password ∷ s.log;
        })
        before)
