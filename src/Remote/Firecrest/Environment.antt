-- ===== src/Remote/Firecrest/Environment.antt =====
-- The repositories of a session and the environment of its job (collectGitRepositories and Start of
-- internal/remote/firecrest/controller.go). The order of Go's maps is that of the lists here.
pub mod Laws
use amalthea.Prelude.{
  String, ◌<>◌, ◌⊎◌, inl, inr, Bool, Option, none, some, List, [], ◌∷◌, map, if◌then◌else◌, is_some,
  is_empty, StringMap, lookup, insert, cut_prefix,
}
use amalthea.Images.{enroot_image_format}
use amalthea.Remote.Firecrest.Calls.{World, getenv, GitRepository}
use amalthea.Remote.Firecrest.Script.{join_texts}

unfoldable pub has_prefix : String → String → Bool
unfolding cut_prefix
has_prefix s prefix = is_some (cut_prefix s prefix)

-- A variable `USER_ENV_NAME` of the controller is the variable `NAME` of the job.
unfoldable pub copy_user_env : StringMap String → StringMap String → StringMap String
unfolding cut_prefix insert
copy_user_env [] env = env
copy_user_env ((key, value) ∷ rest) env =
    copy_user_env rest
      (elim (cut_prefix key "USER_ENV_") [ none ↦ env | some name ↦ insert name value env ])

-- The variables with a prefix.
unfoldable pub copy_env : String → StringMap String → StringMap String → StringMap String
unfolding has_prefix insert
copy_env prefix [] env = env
copy_env prefix ((key, value) ∷ rest) env =
    copy_env prefix rest (if has_prefix key prefix then insert key value env else env)

text_or_empty : Option String → String
text_or_empty none = ""
text_or_empty (some value) = value

tunnel_ingress_path_suffix : String
tunnel_ingress_path_suffix = "__amalthea__/tunnel"

module _ {F C : Type 0} (w : World F C) where
  first_branch : List String → String
  first_branch [] = ""
  first_branch (line ∷ rest) =
      let later = first_branch rest in
      elim (w.branch_of line) [
        | none ↦ later
        | some branch ↦ if is_empty branch then later else branch
      ]

  -- The directories that have a configuration of git that can be opened.
  unfoldable pub repositories_of : String → List (String × Bool) → StringMap GitRepository
  unfolding first_branch
  repositories_of dir [] = []
  repositories_of dir ((name, is_dir) ∷ rest) =
      let later = repositories_of dir rest in
      let config_path = w.pod.join (w.pod.join (w.pod.join dir name) ".git") "config" in
      if is_dir
      then elim (w.read_lines config_path) [
        | inr e ↦ later
        | inl lines ↦
            (name, record { branch = first_branch lines; config_path = config_path }) ∷ later
      ]
      else later

  unfoldable pub collect_git_repositories : String → StringMap GitRepository ⊎ String
  unfolding repositories_of
  collect_git_repositories dir = elim (w.read_dir dir) [
    | inr e ↦ inr e
    | inl entries ↦ inl (repositories_of dir entries)
  ]

  -- An image that cannot be put in the form of enroot is left as it is.
  unfoldable pub with_enroot_image : StringMap String → StringMap String
  unfolding enroot_image_format lookup insert text_or_empty
  with_enroot_image env =
      elim (enroot_image_format w.images (text_or_empty (lookup "REMOTE_SESSION_IMAGE" env))) [
        | inr e ↦ env
        | inl image ↦ insert "REMOTE_SESSION_IMAGE" image env
      ]

  unfoldable pub tunnel_env :
      String → StringMap String → String ⊎ String → StringMap String ⊎ String
  unfolding insert tunnel_ingress_path_suffix
  tunnel_env base_url_path env (inr e) = inr e
  tunnel_env base_url_path env (inl host) = inl (
      insert "WSTUNNEL_PATH_PREFIX" (base_url_path <> "/" <> tunnel_ingress_path_suffix)
        (insert "WSTUNNEL_SERVICE_PORT" "443" (insert "WSTUNNEL_SERVICE_ADDRESS" host env)))

  unfoldable pub with_tunnel : String → StringMap String → StringMap String ⊎ String
  unfolding getenv tunnel_env
  with_tunnel base_url_path env =
      let base_url = getenv w "RENKU_BASE_URL" in
      if is_empty base_url then inl env else tunnel_env base_url_path env (w.hostname base_url)

  unfoldable pub with_git : StringMap GitRepository → StringMap String → StringMap String
  unfolding insert join_texts
  with_git repositories env = insert "GIT_PROXY_HEALTH_PORT" "65481" (
      insert "GIT_PROXY_PORT" "65480" (
        insert "GIT_REPOSITORIES"
          (join_texts "\n" (map (λ r. r.0 <> "\t" <> r.1.branch) repositories)) env))

  unfoldable pub git_env :
      StringMap GitRepository → StringMap String ⊎ String → StringMap String ⊎ String
  unfolding with_git
  git_env repositories (inr e) = inr e
  git_env repositories (inl env) = inl (with_git repositories env)

  -- The environment of the job, or the error.
  unfoldable pub job_env : String → StringMap GitRepository → StringMap String ⊎ String
  unfolding copy_user_env copy_env with_enroot_image with_tunnel git_env
  job_env base_url_path repositories =
      let env =
        with_enroot_image (copy_env "REMOTE_SESSION" w.environ (copy_user_env w.environ [])) in
      git_env repositories (with_tunnel base_url_path (copy_env "RENKU" w.environ env))
