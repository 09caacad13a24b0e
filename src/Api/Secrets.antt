-- ===== src/Api/Secrets.antt =====
-- The secrets that a session adopts, which are deleted with it (AdoptedSecrets in
-- api/v1alpha1/amaltheasession_children.go).
pub mod Members
pub mod Laws
use amalthea.Prelude.{
  ℕ, zero, suc, ◌+◌, ◌-◌, ◌≤◌, ◌<◌, min, String, ◌<>◌, ◌≡◌, refl, sym, ap, ◌∙◌, ◌≢◌, ◌↔◌, ◌⊎◌, inl,
  inr, Bool, true, false, ◌&&◌, ◌||◌, not, Option, none, some, List, [], ◌∷◌, ◌++◌, map, arith, ltb,
  leb, Eq, ◌==◌, ℕ_eq, String_eq, eq_iff, Bytes, take, drop, index_byte, newline, is_one_line,
  unlines, length-append, unlines-append, drop-append, take-append, take-append-drop, IsSplit,
  index_byte-IsSplit, index_byte-none, if◌then◌else◌, ltb→lt, lt→ltb, leb→le, Bool-cases,
  Option-cases, is_some, holds, is_empty, length, any, all, count_if, count_if-le, All, StringMap,
  or_else, lookup, insert, lookup-insert, lookup-insert_same, copy, lookup-copy, is_empty-append,
  cut_prefix, append-cut_prefix, cut_prefix-append,
}
use amalthea.Api.{
  AmaltheaSession, Spec, SessionSecretRef, CodeRepository, DataSource, Authentication, Ingress,
  is_adopted,
}

-- The identity of a secret, all that the operator gives for a deletion.
pub record SecretName : Type 0 where
  pub namespace : String
  pub name : String

-- The entry of a reference, if it is adopted.
unfoldable pub adopted : String → Option SessionSecretRef → List SecretName
adopted namespace none = []
adopted namespace (some ref) =
    if is_adopted (some ref) then record { namespace = namespace; name = ref.name } ∷ [] else []

pub tls_secret : Option Ingress → Option SessionSecretRef
tls_secret none = none
tls_secret (some ingress) = ingress.tls_secret

pub auth_secret : Option Authentication → Option SessionSecretRef
auth_secret none = none
auth_secret (some auth) = if auth.enabled then some auth.secret_ref else none

unfoldable pub data_source_secrets : String → List DataSource → List SecretName
unfolding adopted
data_source_secrets namespace [] = []
data_source_secrets namespace (pv ∷ pvs) =
    adopted namespace pv.secret_ref ++ data_source_secrets namespace pvs

unfoldable pub repository_secrets : String → List CodeRepository → List SecretName
unfolding adopted
repository_secrets namespace [] = []
repository_secrets namespace (r ∷ rs) =
    adopted namespace r.cloning_config_secret_ref
    ++ (adopted namespace r.config_secret_ref ++ repository_secrets namespace rs)

unfoldable pub pull_secrets : String → List SessionSecretRef → List SecretName
unfolding adopted
pull_secrets namespace [] = []
pull_secrets namespace (r ∷ rs) = adopted namespace (some r) ++ pull_secrets namespace rs

unfoldable pub adopted_secrets : AmaltheaSession → List SecretName
unfolding adopted tls_secret auth_secret data_source_secrets repository_secrets pull_secrets
    is_adopted
adopted_secrets cr =
    adopted cr.namespace (tls_secret cr.spec.ingress)
    ++ (adopted cr.namespace (auth_secret cr.spec.authentication)
        ++ (adopted cr.namespace cr.spec.session.remote_secret_ref
            ++ (data_source_secrets cr.namespace cr.spec.data_sources
                ++ (repository_secrets cr.namespace cr.spec.code_repositories
                    ++ pull_secrets cr.namespace cr.spec.image_pull_secrets))))
