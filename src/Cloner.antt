-- ===== src/Cloner.antt =====
-- The cloner of the repositories of a session (internal/cloner): its configuration, the calls that it
-- makes and their log. git, the HTTP services, the file system and regular expressions are parameters.
pub mod Repositories
pub mod Run
use amalthea.Prelude.{ℕ, String, ◌⊎◌, inl, inr, Bool, Option, none, some, List, ◌∷◌, is_empty}
use amalthea.GitProxy.TokenStore.{HttpAnswer}

pub record User : Type 0 where
  pub email : String
  pub full_name : String
  pub renku_token : String

-- `IsAnonymous`
unfoldable pub is_anonymous : User → Bool
is_anonymous user = is_empty user.renku_token

pub record GitProvider : Type 0 where
  pub id : String
  pub access_token_url : String

pub record Repository : Type 0 where
  pub url : String
  pub provider : String
  pub branch : Option String
  pub clone_path : String

pub record CloneConfig : Type 0 where
  pub lfs_auto_fetch : Bool
  pub is_git_proxy_enabled : Bool
  pub git_proxy_port : String
  pub repositories : List Repository
  pub git_providers : List GitProvider

-- A command of git with its arguments, and the user name and the password that it is run with; a
-- request for a token; and a file that is written.
pub data CloneCall : Type 0 where
  git : String → List String → String → String → CloneCall
  ask_token : String → String → CloneCall
  write_file : String → String → CloneCall

-- The latest call is the first.
abbrev pub CloneLog : Type 0
CloneLog = List CloneCall

-- The credentials of the git client of a repository (GitCli), and the calls so far.
pub record CloneState : Type 0 where
  pub username : String
  pub password : String
  pub log : CloneLog

-- What is outside of the cloner. `reads_true` says whether an answer of git means yes, `branch_in`
-- finds the branch in the reference of the head of a remote, `lfs_sizes` reads the sizes of files,
-- and `free_space` gives the blocks that are free and the size of a block.
pub record World : Type 0 where
  pub config : CloneConfig
  pub user : User
  pub remote_name : String
  pub run_git : CloneLog → String → List String → String ⊎ String
  pub token : CloneLog → String → HttpAnswer String
  pub write : String → String → Option String
  pub reads_true : String → Bool
  pub branch_in : String → String → Option String
  pub lfs_sizes : String → (List ℕ) ⊎ String
  pub free_space : String → (ℕ × ℕ) ⊎ String

-- A computation that makes calls and may end in an error.
abbrev pub Exec : Type 0 → Type 0
Exec A = CloneState → (A ⊎ String) × CloneState

unfoldable pub continue :
    {A B : Type 0} → (A ⊎ String) × CloneState → (A → Exec B) → (B ⊎ String) × CloneState
continue (inl a, s) f = f a s
continue (inr e, s) f = (inr e, s)

-- Go's `if err != nil { … }`: the handler goes on with the error.
unfoldable pub recover :
    {A B : Type 0}
    → (A ⊎ String) × CloneState
    → (String → Exec B)
    → (A → Exec B)
    → (B ⊎ String) × CloneState
recover (inl a, s) f g = g a s
recover (inr e, s) f g = f e s

infixl 5 ◌>>=◌ ◌>>◌
abbrev pub ◌>>=◌ : {A B : Type 0} → Exec A → (A → Exec B) → Exec B
◌>>=◌ m f s = continue (m s) f

abbrev pub ◌>>◌ : {A B : Type 0} → Exec A → Exec B → Exec B
m >> k = m >>= λ _. k

abbrev pub pure : {A : Type 0} → A → Exec A
pure a s = (inl a, s)

abbrev pub result : {A : Type 0} → A ⊎ String → Exec A
result r s = (r, s)

abbrev pub done : Option String → (Unit {0}) ⊎ String
done none = inl tt
done (some e) = inr e

-- `SetCredentials`
unfoldable pub set_credentials : String → String → Exec (Unit {0})
set_credentials username password s =
    (inl tt, record s { username = username; password = password })

module _ (w : World) where
  -- A command of git (`GitCli.execute`).
  unfoldable pub run_git : String → List String → Exec String
  run_git command args s = (
    w.run_git s.log command args,
    record s { log = git command args s.username s.password ∷ s.log },
  )
