-- ===== src/Api/Cloning.antt =====
-- The init containers that clone the repositories of a session
-- (api/v1alpha1/code_repo_templates.go). Images and security contexts, which are the same for every
-- container, are left out. `show` is the format %d of Go's package fmt.
pub mod Laws
use amalthea.Prelude.{
  ℕ, zero, suc, ◌+◌, ◌-◌, ◌≤◌, ◌<◌, min, String, ◌<>◌, ◌≡◌, refl, sym, ap, ◌∙◌, ◌≢◌, ◌↔◌, ◌⊎◌, inl,
  inr, Bool, true, false, ◌&&◌, ◌||◌, not, Option, none, some, List, [], ◌∷◌, ◌++◌, map, arith, ltb,
  leb, Eq, ◌==◌, ℕ_eq, String_eq, eq_iff, Bytes, take, drop, index_byte, newline, is_one_line,
  unlines, length-append, unlines-append, drop-append, take-append, take-append-drop, IsSplit,
  index_byte-IsSplit, index_byte-none, if◌then◌else◌, ltb→lt, lt→ltb, leb→le, Bool-cases,
  Option-cases, is_some, holds, is_empty, length, any, all, count_if, count_if-le, All, StringMap,
  or_else, lookup, insert, lookup-insert, lookup-insert_same, copy, lookup-copy, is_empty-append,
  cut_prefix, append-cut_prefix, cut_prefix-append,
}
use amalthea.Api.{SessionSecretRef}
use amalthea.Api.Routing.{VolumeMount}
use amalthea.Api.Proxies.{SecretVolume}

-- The fields of CodeRepository that say what is cloned, and where to.
pub record CodeSource : Type 0 where
  pub remote : String
  pub clone_path : String
  pub revision : String
  pub cloning_config_secret_ref : Option SessionSecretRef

pub record CloneContainer : Type 0 where
  pub name : String
  pub volume_mounts : List VolumeMount
  pub working_dir : String
  pub args : List String

pub record CloneManifests : Type 0 where
  pub containers : List CloneContainer
  pub volumes : List SecretVolume

abbrev pub secret_mount_path : String
secret_mount_path = "/git-clone-secrets"

abbrev pub session_volume_name : String
session_volume_name = "amalthea-volume"

module _ (show : ℕ → String) (mount_path : String) where
  secret_volume_name : ℕ → String
  secret_volume_name i = "amalthea-git-clone-cred-volume-" <> show i

  volumes_for : ℕ → Option SessionSecretRef → List SecretVolume
  unfolding secret_volume_name
  volumes_for i none = []
  volumes_for i (some ref) = record { name = secret_volume_name i; secret_name = ref.name } ∷ []

  mounts_for : ℕ → Option SessionSecretRef → List VolumeMount
  unfolding secret_volume_name
  mounts_for i none = []
  mounts_for i (some ref) =
      record { name = secret_volume_name i; mount_path = secret_mount_path; sub_path = "" } ∷ []

  config_args : Option SessionSecretRef → List String
  config_args none = []
  config_args (some ref) = "--config" ∷ (secret_mount_path <> ("/" <> ref.key)) ∷ []

  args_of : CodeSource → List String
  unfolding config_args
  args_of repo =
      ("cloner"
        ∷ "clone"
        ∷ "--strategy"
        ∷ "notifexist"
        ∷ "--remote"
        ∷ repo.remote
        ∷ "--path"
        ∷ (mount_path <> ("/" <> repo.clone_path))
        ∷ [])
      ++ (config_args repo.cloning_config_secret_ref
          ++ (if is_empty repo.revision then [] else "--revision" ∷ repo.revision ∷ []))

  container_for : ℕ → List VolumeMount → CodeSource → CloneContainer
  unfolding args_of
  container_for i mounts repo = record {
    name = "git-clone-" <> show i;
    volume_mounts = mounts;
    working_dir = mount_path;
    args = args_of repo;
  }

  -- The loop at the index `i`, with the mounts so far.
  unfoldable pub clone_from : ℕ → List VolumeMount → List CodeSource → CloneManifests
  unfolding container_for mounts_for volumes_for
  clone_from i mounts [] = record { containers = []; volumes = [] }
  clone_from i mounts (repo ∷ rest) =
      let all_mounts = mounts ++ mounts_for i repo.cloning_config_secret_ref in
      let later = clone_from (suc i) all_mounts rest in
      record {
        containers = container_for i all_mounts repo ∷ later.containers;
        volumes = volumes_for i repo.cloning_config_secret_ref ++ later.volumes;
      }

  unfoldable pub clone_init : List CodeSource → CloneManifests
  unfolding clone_from
  clone_init repos =
      clone_from 0
        (record { name = session_volume_name; mount_path = mount_path; sub_path = "" } ∷ []) repos
