-- ===== src/Remote/Firecrest/Script.antt =====
-- The script of a job and the file systems of its cluster (renderSessionScript and
-- getPreferredScratch of internal/remote/firecrest/controller.go).
pub mod Laws
use amalthea.Prelude.{
  String, ◌<>◌, Bool, true, false, ◌&&◌, Option, none, some, List, [], ◌∷◌, ◌++◌, map, ◌==◌, ℕ_eq,
  String_eq, if◌then◌else◌, holds, is_empty,
}
use amalthea.Remote.Firecrest.Calls.{
  DataType, scratch, store, users, other_type, RemoteFileSystem, World, getenv,
}

-- `strings.Join(texts, separator)`
unfoldable pub join_texts : String → List String → String
join_texts separator [] = ""
join_texts separator (t ∷ []) = t
join_texts separator (t ∷ u ∷ rest) = t <> separator <> join_texts separator (u ∷ rest)

unfoldable pub is_scratch : RemoteFileSystem → Bool
is_scratch fs = elim fs.data_type [
  | scratch ↦ true
  | store ↦ false
  | users ↦ false
  | other_type ↦ false
]

unfoldable pub is_default_scratch : RemoteFileSystem → Bool
unfolding is_scratch
is_default_scratch fs = is_scratch fs && holds fs.default_work_dir (λ b. b)

-- The last file system that passes a test, or the one there was before.
unfoldable pub last_where :
    (RemoteFileSystem → Bool)
    → Option RemoteFileSystem
    → List RemoteFileSystem
    → Option RemoteFileSystem
last_where p found [] = found
last_where p found (fs ∷ rest) = last_where p (if p fs then some fs else found) rest

unfoldable pub preferred_scratch :
    List RemoteFileSystem → Option RemoteFileSystem → Option RemoteFileSystem
unfolding last_where is_scratch
preferred_scratch file_systems (some fs) = some fs
preferred_scratch file_systems none = last_where is_scratch none file_systems

unfoldable pub get_preferred_scratch : Option (List RemoteFileSystem) → Option RemoteFileSystem
unfolding preferred_scratch last_where is_default_scratch
get_preferred_scratch none = none
get_preferred_scratch (some file_systems) =
    preferred_scratch file_systems (last_where is_default_scratch none file_systems)

unfoldable pub paths_where : (RemoteFileSystem → Bool) → List RemoteFileSystem → List String
paths_where p [] = []
paths_where p (fs ∷ rest) = let kept = paths_where p rest in if p fs then fs.path ∷ kept else kept

unfoldable pub is_store : RemoteFileSystem → Bool
is_store fs = elim fs.data_type [
  | scratch ↦ false
  | store ↦ true
  | users ↦ false
  | other_type ↦ false
]

unfoldable pub is_home : RemoteFileSystem → Bool
is_home fs = elim fs.data_type [
  | scratch ↦ false
  | store ↦ false
  | users ↦ true
  | other_type ↦ false
]

home_mount : Option RemoteFileSystem → List String
home_mount none = []
home_mount (some home) = (home.path <> ":/home" <> home.path <> ":ro") ∷ []

-- What is mounted: the scratch file systems, the stores, the home, which cannot be written, and the
-- secrets, which cannot be written either.
unfoldable pub mounts : List RemoteFileSystem → String → List String
unfolding paths_where is_scratch is_store is_home last_where home_mount
mounts file_systems secrets_path =
    paths_where is_scratch file_systems
    ++ paths_where is_store file_systems
    ++ home_mount (last_where is_home none file_systems)
    ++ ((secrets_path <> ":/secrets:ro") ∷ [])

option_line : String → String → List String
option_line name value = if is_empty value then [] else (name <> value) ∷ []

module _ {F C : Type 0} (w : World F C) where
  resource_directives : List String
  unfolding getenv option_line
  resource_directives =
      let mem = getenv w "RSC_SESSION_MEMORY" in
      if w.to_lower (getenv w "RSC_FIRECREST_FORWARD_RESOURCE_VALUES") == "true"
      then option_line "#SBATCH --cpus-per-task=" (getenv w "RSC_SESSION_CPU")
        ++ (if is_empty mem then [] else ("#SBATCH --mem=" <> mem <> "M") ∷ [])
        ++ option_line "#SBATCH --gpus=" (getenv w "RSC_SESSION_GPUS")
      else []

  unfoldable pub directives : String → List String
  unfolding resource_directives getenv option_line
  directives partition =
      ("#SBATCH --nodes=1" ∷ "#SBATCH --ntasks-per-node=1" ∷ [])
      ++ option_line "#SBATCH --partition=" partition
      ++ option_line "#SBATCH --account=" (getenv w "USER_ENV_SLURM_ACCOUNT")
      ++ resource_directives

  unfoldable pub add_sbatch_directives_to_script : String → String → String
  unfolding directives join_texts
  add_sbatch_directives_to_script script partition =
      w.replace_first script "#{{SBATCH_DIRECTIVES_PLACEHOLDER}}"
        (join_texts "\n" (directives partition))

  unfoldable pub add_session_mounts_to_script :
      String → Option (List RemoteFileSystem) → String → String
  unfolding mounts join_texts
  add_session_mounts_to_script script none secrets_path =
      w.replace_first script "#{{SESSION_MOUNTS_PLACEHOLDER}}" ""
  add_session_mounts_to_script script (some file_systems) secrets_path =
      let quoted = map (λ m. "    \"" <> m <> "\",") (mounts file_systems secrets_path) in
      w.replace_first script "#{{SESSION_MOUNTS_PLACEHOLDER}}"
        ("mounts = [\n" <> join_texts "\n" quoted <> "\n]")

  unfoldable pub render_session_script :
      String → String → Option (List RemoteFileSystem) → String → String
  unfolding add_sbatch_directives_to_script add_session_mounts_to_script
  render_session_script script partition file_systems secrets_path =
      add_session_mounts_to_script
        (add_sbatch_directives_to_script (w.without_notes script) partition) file_systems
        secrets_path
