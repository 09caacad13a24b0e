-- ===== src/Api/Cloning/Laws.antt =====
-- What the containers that clone mount (api/v1alpha1/code_repo_templates.go).
use amalthea.Prelude.{
  ℕ, suc, ◌+◌, String, ◌≡◌, refl, sym, ap, ◌∙◌, false, Option, none, some, List, [], ◌∷◌, ◌++◌, map,
  arith, ◌==◌, ℕ_eq, String_eq, count_if,
}
use amalthea.Api.{SessionSecretRef}
use amalthea.Api.Routing.{VolumeMount}
use amalthea.Api.Cloning.{
  CodeSource, secret_mount_path, clone_from, clone_init, session_volume_name, mounts_for,
  container_for,
}

-- How many mounts have the path of the secrets.
abbrev pub at_secrets : List VolumeMount → ℕ
at_secrets = count_if (λ m. m.mount_path == secret_mount_path)

abbrev pub one_if_some : Option SessionSecretRef → ℕ
one_if_some none = 0
one_if_some (some ref) = 1

-- For each repository, how many up to it have a secret, counted from `n`.
unfoldable pub secrets_so_far : ℕ → List CodeSource → List ℕ
secrets_so_far n [] = []
secrets_so_far n (repo ∷ rest) =
    let here = n + one_if_some repo.cloning_config_secret_ref in here ∷ secrets_so_far here rest

at_secrets-append : (l m : List VolumeMount) → at_secrets (l ++ m) ≡ at_secrets l + at_secrets m
at_secrets-append [] m = omega arith
at_secrets-append (x ∷ l) m = ground (arith, at_secrets-append l m)

module _ (show : ℕ → String) (mount_path : String) where
  at_secrets-mounts_for :
      (i : ℕ) (o : Option SessionSecretRef)
      → at_secrets (mounts_for show mount_path i o) ≡ one_if_some o
  unfolding mounts_for
  at_secrets-mounts_for i none = refl
  at_secrets-mounts_for i (some ref) = refl

  clone_from-at_secrets :
      (i : ℕ) (mounts : List VolumeMount) (repos : List CodeSource)
      → map (λ c. at_secrets c.volume_mounts) (clone_from show mount_path i mounts repos).containers
        ≡ secrets_so_far (at_secrets mounts) repos
  unfolding clone_from secrets_so_far container_for
  clone_from-at_secrets i mounts [] = refl
  clone_from-at_secrets i mounts (repo ∷ rest) =
      let o = repo.cloning_config_secret_ref in
      let more = mounts ++ mounts_for show mount_path i o in
      let count : at_secrets more ≡ at_secrets mounts + one_if_some o =
        at_secrets-append mounts (mounts_for show mount_path i o)
        ∙ ap (λ k. at_secrets mounts + k) (at_secrets-mounts_for i o) in
      rw (sym count) (ap (λ l. at_secrets more ∷ l) (clone_from-at_secrets (suc i) more rest))

  -- The container of a repository mounts one volume at the path of the secrets for each repository
  -- up to it that has a secret, if the session does not mount its own volume there.
  pub clone_init-at_secrets :
      (repos : List CodeSource)
      → (mount_path == secret_mount_path) ≡ false
      → map (λ c. at_secrets c.volume_mounts) (clone_init show mount_path repos).containers
        ≡ secrets_so_far 0 repos
  unfolding clone_init
  clone_init-at_secrets repos other =
      let mounts =
        record { name = session_volume_name; mount_path = mount_path; sub_path = "" } ∷ [] in
      let none_yet : at_secrets mounts ≡ 0 = ground (arith, other) in
      rw none_yet at (clone_from-at_secrets 0 mounts repos)
