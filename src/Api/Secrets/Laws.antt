-- ===== src/Api/Secrets/Laws.antt =====
-- Which secrets a session adopts, by the references in its specification.
use amalthea.Prelude.{
  ◌≡◌, refl, sym, ap, ◌↔◌, ◌⊎◌, inl, inr, true, Option, none, some, List, ◌++◌, arith, ℕ_eq,
  String_eq, Bool-cases,
}
use amalthea.Api.{
  AmaltheaSession, Spec, SessionSecretRef, CodeRepository, DataSource, Authentication, Ingress,
}
use amalthea.Api.Secrets.{
  SecretName, adopted, tls_secret, auth_secret, data_source_secrets, repository_secrets,
  pull_secrets, adopted_secrets,
}
use amalthea.Api.Secrets.Members.{
  In, IsAdoptedBy, reference-inj, In-append, In-left, In-right, Adopts, adopted-Adopts,
  Adopts-adopted, data-Adopts, Adopts-data, repository-Adopts, Adopts-repository, pull-Adopts,
  Adopts-pull,
}

-- A specification refers to a secret: for TLS, for an authentication that is enabled, for the remote
-- cluster, for a data source, for a repository (in two ways) or for the pulling of images.
pub data Refers (spec : Spec) (r : SessionSecretRef) : Type 0 where
  for_tls : {i : Ingress} → spec.ingress ≡ some i → i.tls_secret ≡ some r → Refers spec r
  for_authentication :
      {a : Authentication}
      → spec.authentication ≡ some a
      → a.enabled ≡ true
      → r ≡ a.secret_ref
      → Refers spec r
  for_remote : spec.session.remote_secret_ref ≡ some r → Refers spec r
  for_data : (ds : DataSource) → In ds spec.data_sources → ds.secret_ref ≡ some r → Refers spec r
  for_cloning :
      (c : CodeRepository)
      → In c spec.code_repositories
      → c.cloning_config_secret_ref ≡ some r
      → Refers spec r
  for_config :
      (c : CodeRepository)
      → In c spec.code_repositories
      → c.config_secret_ref ≡ some r
      → Refers spec r
  for_pulling : In r spec.image_pull_secrets → Refers spec r

module _ (cr : AmaltheaSession) (n : SecretName) where
  abbrev pub Referred : Type 0
  Referred = (r : SessionSecretRef) × Refers cr.spec r × IsAdoptedBy cr.namespace r n

  tls-Referred :
      (o : Option Ingress)
      → cr.spec.ingress ≡ o
      → In n (adopted cr.namespace (tls_secret o))
      → Referred
  unfolding tls_secret
  tls-Referred none e h = let (r, x, a) = adopted-Adopts cr.namespace n none h in ground arith
  tls-Referred (some i) e h =
      let (r, x, a) = adopted-Adopts cr.namespace n i.tls_secret h in (r, for_tls e x, a)

  auth-Referred :
      (o : Option Authentication)
      → cr.spec.authentication ≡ o
      → In n (adopted cr.namespace (auth_secret o))
      → Referred
  unfolding auth_secret
  auth-Referred none e h = let (r, x, a) = adopted-Adopts cr.namespace n none h in ground arith
  auth-Referred (some auth) e h = elim (Bool-cases auth.enabled) [
    | inl on ↦
        let (r, x, a) = adopted-Adopts cr.namespace n (some auth.secret_ref) (rw on at h) in
        (r, for_authentication e on (sym (reference-inj x)), a)
    | inr off ↦ let (r, x, a) = adopted-Adopts cr.namespace n none (rw off at h) in ground arith
  ]

  repositories-Referred :
      (c : CodeRepository)
      → In c cr.spec.code_repositories
      → Adopts cr.namespace n c.cloning_config_secret_ref
        ⊎ Adopts cr.namespace n c.config_secret_ref
      → Referred
  repositories-Referred c at (inl (r, e, a)) = (r, for_cloning c at e, a)
  repositories-Referred c at (inr (r, e, a)) = (r, for_config c at e, a)

  adopted_secrets-Referred : In n (adopted_secrets cr) → Referred
  unfolding adopted_secrets
  adopted_secrets-Referred h =
      elim (In-append n (adopted cr.namespace (tls_secret cr.spec.ingress)) _ h) [
        | inl m ↦ tls-Referred cr.spec.ingress refl m
        | inr m ↦
            elim (In-append n (adopted cr.namespace (auth_secret cr.spec.authentication)) _ m) [
              | inl m ↦ auth-Referred cr.spec.authentication refl m
              | inr m ↦
                  elim (In-append n (adopted cr.namespace cr.spec.session.remote_secret_ref) _ m) [
                    | inl m ↦
                        let (r, e, a) =
                          adopted-Adopts cr.namespace n cr.spec.session.remote_secret_ref m in
                        (r, for_remote e, a)
                    | inr m ↦ lists m
                  ]
            ]
      ]
    where
      lists :
          In n (
            data_source_secrets cr.namespace cr.spec.data_sources
            ++ (repository_secrets cr.namespace cr.spec.code_repositories
                ++ pull_secrets cr.namespace cr.spec.image_pull_secrets))
          → Referred
      lists h = elim (In-append n (data_source_secrets cr.namespace cr.spec.data_sources) _ h) [
        | inl m ↦
            let (ds, at, (r, e, a)) = data-Adopts cr.namespace n cr.spec.data_sources m in
            (r, for_data ds at e, a)
        | inr m ↦
            elim (In-append n (repository_secrets cr.namespace cr.spec.code_repositories) _ m) [
              | inl m ↦
                  let (c, at, a) = repository-Adopts cr.namespace n cr.spec.code_repositories m in
                  repositories-Referred c at a
              | inr m ↦
                  let (r, at, a) = pull-Adopts cr.namespace n cr.spec.image_pull_secrets m in
                  (r, for_pulling at, a)
            ]
      ]

  abbrev later : List SecretName
  later =
      data_source_secrets cr.namespace cr.spec.data_sources
      ++ (repository_secrets cr.namespace cr.spec.code_repositories
          ++ pull_secrets cr.namespace cr.spec.image_pull_secrets)

  later-adopted : In n later → In n (adopted_secrets cr)
  unfolding adopted_secrets
  later-adopted h = In-right n (adopted cr.namespace (tls_secret cr.spec.ingress)) _ (
      In-right n (adopted cr.namespace (auth_secret cr.spec.authentication)) _
        (In-right n (adopted cr.namespace cr.spec.session.remote_secret_ref) _ h))

  repository-later : In n (repository_secrets cr.namespace cr.spec.code_repositories) → In n later
  repository-later h =
      In-right n (data_source_secrets cr.namespace cr.spec.data_sources) _
        (In-left n (repository_secrets cr.namespace cr.spec.code_repositories) _ h)

  Referred-adopted_secrets :
      (r : SessionSecretRef)
      → Refers cr.spec r
      → IsAdoptedBy cr.namespace r n
      → In n (adopted_secrets cr)
  unfolding adopted_secrets tls_secret auth_secret
  Referred-adopted_secrets r (for_tls {i} e x) a =
      In-left n (adopted cr.namespace (tls_secret cr.spec.ingress)) _
        (rw e (Adopts-adopted cr.namespace n i.tls_secret r x a))
  Referred-adopted_secrets r (for_authentication {a = u} e on x) a =
      In-right n (adopted cr.namespace (tls_secret cr.spec.ingress)) _ (
        In-left n (adopted cr.namespace (auth_secret cr.spec.authentication)) _
          (rw (e, on) (Adopts-adopted cr.namespace n (some u.secret_ref) r (ap some (sym x)) a)))
  Referred-adopted_secrets r (for_remote e) a =
      In-right n (adopted cr.namespace (tls_secret cr.spec.ingress)) _ (
        In-right n (adopted cr.namespace (auth_secret cr.spec.authentication)) _ (
          In-left n (adopted cr.namespace cr.spec.session.remote_secret_ref) _
            (Adopts-adopted cr.namespace n cr.spec.session.remote_secret_ref r e a)))
  Referred-adopted_secrets r (for_data ds at e) a = later-adopted (
      In-left n (data_source_secrets cr.namespace cr.spec.data_sources) _ (
        Adopts-data cr.namespace n cr.spec.data_sources ds at
          (Adopts-adopted cr.namespace n ds.secret_ref r e a)))
  Referred-adopted_secrets r (for_cloning c at e) a = later-adopted (
      repository-later (
        Adopts-repository cr.namespace n cr.spec.code_repositories c at
          (inl (Adopts-adopted cr.namespace n c.cloning_config_secret_ref r e a))))
  Referred-adopted_secrets r (for_config c at e) a = later-adopted (
      repository-later (
        Adopts-repository cr.namespace n cr.spec.code_repositories c at
          (inr (Adopts-adopted cr.namespace n c.config_secret_ref r e a))))
  Referred-adopted_secrets r (for_pulling at) a = later-adopted (
      In-right n (data_source_secrets cr.namespace cr.spec.data_sources) _ (
        In-right n (repository_secrets cr.namespace cr.spec.code_repositories) _ (
          Adopts-pull cr.namespace n cr.spec.image_pull_secrets r at
            (Adopts-adopted cr.namespace n (some r) r refl a))))

  -- A secret is among those that a session adopts, and that are deleted with it, exactly when the
  -- specification refers to it with a name and the mark that it is adopted: for TLS, for an
  -- authentication that is enabled, for the remote cluster, for a data source, for a repository or
  -- for the pulling of images.
  pub adopted_secrets_lem :
      In n (adopted_secrets cr)
      ↔ ((r : SessionSecretRef) × Refers cr.spec r × IsAdoptedBy cr.namespace r n)
  adopted_secrets_lem =
      (adopted_secrets-Referred, λ (r, refers, a). Referred-adopted_secrets r refers a)
