-- ===== src/Remote/Firecrest/Environment/Laws.antt =====
-- Which variables of the controller reach the job.
use mathlib.Core.Path.{subst}
use amalthea.Prelude.{
  String, ◌≡◌, refl, sym, ap, ◌∙◌, ◌⊎◌, inl, inr, true, false, Option, none, some, [], ◌∷◌, arith,
  ◌==◌, ℕ_eq, String_eq, eq_iff, if◌then◌else◌, Bool-cases, is_empty, StringMap, or_else, lookup,
  insert, lookup-insert, cut_prefix,
}
use amalthea.Remote.Firecrest.Calls.{World, getenv, GitRepository}
use amalthea.Remote.Firecrest.Environment.{
  has_prefix, copy_env, copy_user_env, with_enroot_image, with_tunnel, tunnel_env, with_git,
  git_env, job_env,
}

-- The value of the last entry of a key.
unfoldable pub last_value : String → StringMap String → Option String
last_value key [] = none
last_value key ((k, value) ∷ rest) =
    or_else (last_value key rest) (if k == key then some value else none)

or_else_assoc : (a b c : Option String) → or_else a (or_else b c) ≡ or_else (or_else a b) c
or_else_assoc none b c = refl
or_else_assoc (some a) b c = refl

lookup-copied :
    (key prefix k value : String) (env : StringMap String)
    → has_prefix key prefix ≡ true
    → lookup key (if has_prefix k prefix then insert k value env else env)
      ≡ or_else (if k == key then some value else none) (lookup key env)
lookup-copied key prefix k value env h = elim (Bool-cases (k == key)) [
  | inl e ↦
      let same : k ≡ key = ground (arith, eq_iff k key) in
      let fits : has_prefix k prefix ≡ true = rw same h in
      rw (fits, lookup-insert k key value env, e) refl
  | inr e ↦ elim (Bool-cases (has_prefix k prefix)) [
    | inl p ↦ rw (p, lookup-insert k key value env, e) refl
    | inr n ↦ rw (n, e) refl
  ]
]

lookup-copy_env :
    (key prefix : String) (environ env : StringMap String)
    → has_prefix key prefix ≡ true
    → lookup key (copy_env prefix environ env) ≡ or_else (last_value key environ) (lookup key env)
unfolding copy_env last_value
lookup-copy_env key prefix [] env h = refl
lookup-copy_env key prefix ((k, value) ∷ rest) env h =
    lookup-copy_env key prefix rest (if has_prefix k prefix then insert k value env else env) h
    ∙ ap (λ o. or_else (last_value key rest) o) (lookup-copied key prefix k value env h)
    ∙ or_else_assoc (last_value key rest) (if k == key then some value else none) (lookup key env)

-- A key that has the prefix is none of the keys that do not.
other_key :
    (key other : String)
    → has_prefix key "RENKU" ≡ true
    → has_prefix other "RENKU" ≡ false
    → (other == key) ≡ false
other_key key other h n = elim (Bool-cases (other == key)) [
  | inl e ↦
      let same : other ≡ key = ground (arith, eq_iff other key) in
      ground (arith, sym n ∙ ap (λ t. has_prefix t "RENKU") same ∙ h)
  | inr e ↦ e
]

lookup-insert_other :
    (key other value : String) (env : StringMap String)
    → has_prefix key "RENKU" ≡ true
    → has_prefix other "RENKU" ≡ false
    → lookup key (insert other value env) ≡ lookup key env
lookup-insert_other key other value env h n =
    rw (lookup-insert other key value env, other_key key other h n) refl

lookup-with_git :
    {F C : Type 0} (w : World F C) (key : String) (repositories : StringMap GitRepository)
    (env : StringMap String)
    → has_prefix key "RENKU" ≡ true
    → lookup key (with_git w repositories env) ≡ lookup key env
unfolding with_git has_prefix cut_prefix
lookup-with_git w key repositories env h =
    lookup-insert_other key "GIT_PROXY_HEALTH_PORT" _ _ h refl
    ∙ lookup-insert_other key "GIT_PROXY_PORT" _ _ h refl
    ∙ lookup-insert_other key "GIT_REPOSITORIES" _ _ h refl

-- The environment, if there is one, has the value for the key.
HasValue : String → String → StringMap String ⊎ String → Type 0
HasValue key value (inr e) = Unit
HasValue key value (inl env) = lookup key env ≡ some value

module _ {F C : Type 0} (w : World F C) (key value : String)
    (renku : has_prefix key "RENKU" ≡ true) where
  tunnel_env-HasValue :
      (path : String) (env : StringMap String) (host : String ⊎ String)
      → lookup key env ≡ some value
      → HasValue key value (tunnel_env w path env host)
  unfolding tunnel_env HasValue has_prefix cut_prefix
  tunnel_env-HasValue path env (inr e) h = tt
  tunnel_env-HasValue path env (inl host) h =
      lookup-insert_other key "WSTUNNEL_PATH_PREFIX" _ _ renku refl
      ∙ lookup-insert_other key "WSTUNNEL_SERVICE_PORT" _ _ renku refl
      ∙ lookup-insert_other key "WSTUNNEL_SERVICE_ADDRESS" _ _ renku refl
      ∙ h

  with_tunnel-HasValue :
      (path : String) (env : StringMap String)
      → lookup key env ≡ some value
      → HasValue key value (with_tunnel w path env)
  unfolding with_tunnel HasValue
  with_tunnel-HasValue path env h = elim (Bool-cases (is_empty (getenv w "RENKU_BASE_URL"))) [
    | inl e ↦ rw e h
    | inr e ↦ rw e (tunnel_env-HasValue path env (w.hostname (getenv w "RENKU_BASE_URL")) h)
  ]

  git_env-HasValue :
      (repositories : StringMap GitRepository) (r : StringMap String ⊎ String)
      → HasValue key value r
      → HasValue key value (git_env w repositories r)
  unfolding git_env HasValue
  git_env-HasValue repositories (inr e) h = tt
  git_env-HasValue repositories (inl env) h = lookup-with_git w key repositories env renku ∙ h

  -- A variable `RENKU…` of the controller reaches the job with its value, whatever the variables of
  -- the user and the repositories are.
  pub job_env_lem :
      (path : String) (repositories : StringMap GitRepository) (env : StringMap String)
      → last_value key w.environ ≡ some value
      → job_env w path repositories ≡ inl env
      → lookup key env ≡ some value
  unfolding job_env HasValue
  job_env_lem path repositories env given made =
      let before =
        with_enroot_image w (copy_env "REMOTE_SESSION" w.environ (copy_user_env w.environ [])) in
      let copied : lookup key (copy_env "RENKU" w.environ before) ≡ some value =
        lookup-copy_env key "RENKU" w.environ before renku
        ∙ ap (λ o. or_else o (lookup key before)) given in
      let whole : HasValue key value (job_env w path repositories) =
        git_env-HasValue repositories (with_tunnel w path (copy_env "RENKU" w.environ before))
          (with_tunnel-HasValue path (copy_env "RENKU" w.environ before) copied) in
      subst (HasValue key value) made whole
