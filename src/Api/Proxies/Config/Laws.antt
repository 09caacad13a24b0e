-- ===== src/Api/Proxies/Config/Laws.antt =====
-- When the secret cannot be made, and which secrets the proxies need (Secret in
-- api/v1alpha1/amaltheasession_children.go, auth in api/v1alpha1/auth_templates.go).
use amalthea.Prelude.{
  ℕ, String, ◌≡◌, sym, ◌∙◌, ◌↔◌, inl, inr, true, Option, none, some, arith, ◌==◌, ℕ_eq, String_eq,
  eq_iff, Option-cases, is_some, any, StringMap,
}
use text.Mathlib.TextLemmas.{append_cancel_left, append-nil, cons≢nil}
use amalthea.Kube.{Secret}
use amalthea.Api.{AmaltheaSession, Authentication}
use amalthea.Api.Address.{get_url}
use amalthea.Api.Workloads.{Template}
use amalthea.Api.Routing.{
  AuthenticationType, token, oauth_proxy, oidc, unknown_type, Network, is_authenticated,
}
use amalthea.Api.Proxies.{Manifests, needs_key, auth, auth_of, manifests_of, oidc_manifests}
use amalthea.Api.Proxies.Config.{
  internal_secret_name, SecretSources, secret, secret_of, secret_with, data_for, oidc_data,
}

module _ (w : SecretSources) (n : Network) (t : Template) (cr : AmaltheaSession) where
  data_for-none :
      (o : Option Authentication) (type : AuthenticationType)
      → (secret_of w t cr (data_for w n cr o type) ≡ none)
        ↔ ((is_some o ≡ true) × (type ≡ oidc) × (get_url w.urls w.https cr ≡ none))
  unfolding secret_of data_for oidc_data
  data_for-none none type = ground arith
  data_for-none (some a) oidc = elim (Option-cases (get_url w.urls w.https cr)) [
    | inl missing ↦ ground arith
    | inr (u, there) ↦ ground arith
  ]
  data_for-none (some a) token = ground arith
  data_for-none (some a) oauth_proxy = ground arith
  data_for-none (some a) (unknown_type type) = ground arith

  -- The secret cannot be made exactly when the session authenticates with OIDC, enabled or not, and
  -- has no address.
  pub secret_panics : (secret w n t cr ≡ none) ↔ (
      (is_some cr.spec.authentication ≡ true)
      × (n.authentication_type ≡ oidc)
      × (get_url w.urls w.https cr ≡ none))
  unfolding secret
  secret_panics = data_for-none cr.spec.authentication n.authentication_type

internal_secret_name-differs : (cr : AmaltheaSession) → ¬ (internal_secret_name cr ≡ cr.name)
unfolding internal_secret_name
internal_secret_name-differs cr h =
    let empty : "---internal" ≡ "" =
      append_cancel_left cr.name "---internal" "" (h ∙ sym (append-nil cr.name)) in
    cons≢nil empty

secret_of-name :
    (w : SecretSources) (t : Template) (cr : AmaltheaSession) (d : Option (StringMap String))
    (s : Secret)
    → secret_of w t cr d ≡ some s
    → s.metadata.name ≡ internal_secret_name cr
unfolding secret_of secret_with
secret_of-name w t cr d s k = ground arith

auth_of-oidc :
    (show : ℕ → String) (n : Network) (cr : AmaltheaSession) (o : Option Authentication)
    (m : Manifests)
    → n.authentication_type ≡ oidc
    → is_authenticated o ≡ true
    → auth_of show n cr o ≡ inl m
    → any (λ v. v.secret_name == cr.name) m.volumes ≡ true
unfolding auth_of is_authenticated manifests_of oidc_manifests needs_key
auth_of-oidc show n cr o m type on h = ground (arith, eq_iff cr.name cr.name)

-- The containers that authenticate with OIDC need a secret with the name of the session, and the
-- secret that the operator makes for them has another name.
pub oidc-other_secret :
    (show : ℕ → String) (w : SecretSources) (n : Network) (t : Template) (cr : AmaltheaSession)
    (m : Manifests) (s : Secret)
    → n.authentication_type ≡ oidc
    → is_authenticated cr.spec.authentication ≡ true
    → auth show n cr ≡ inl m
    → secret w n t cr ≡ some s
    → (any (λ v. v.secret_name == cr.name) m.volumes ≡ true) × ¬ (s.metadata.name ≡ cr.name)
unfolding auth secret
oidc-other_secret show w n t cr m s type on h k = (
  auth_of-oidc show n cr cr.spec.authentication m type on h,
  λ same. internal_secret_name-differs cr (
      sym (secret_of-name w t cr (data_for w n cr cr.spec.authentication n.authentication_type) s k)
      ∙ same),
)
