-- ===== src/Api/Proxies.antt =====
-- The containers that authenticate the requests of a session (api/v1alpha1/auth_templates.go).
-- Images, resources and security contexts, which are the same for every session, are left out.
-- `show` is the format %d of Go's package fmt.
pub mod Config
pub mod Laws
use amalthea.Prelude.{
  ℕ, zero, suc, ◌+◌, ◌-◌, ◌≤◌, ◌<◌, min, String, ◌<>◌, ◌≡◌, refl, sym, ap, ◌∙◌, ◌≢◌, ◌↔◌, ◌⊎◌, inl,
  inr, Bool, true, false, ◌&&◌, ◌||◌, not, Option, none, some, List, [], ◌∷◌, ◌++◌, map, arith, ltb,
  leb, Eq, ◌==◌, ℕ_eq, String_eq, eq_iff, Bytes, take, drop, index_byte, newline, is_one_line,
  unlines, length-append, unlines-append, drop-append, take-append, take-append-drop, IsSplit,
  index_byte-IsSplit, index_byte-none, if◌then◌else◌, ltb→lt, lt→ltb, leb→le, Bool-cases,
  Option-cases, is_some, holds, is_empty, length, any, all, count_if, count_if-le, All, StringMap,
  or_else, lookup, insert, lookup-insert, lookup-insert_same, copy, lookup-copy, is_empty-append,
  cut_prefix, append-cut_prefix, cut_prefix-append,
}
use amalthea.Api.{AmaltheaSession, Authentication}
use amalthea.Api.Address.{slashed}
use amalthea.Api.Routing.{
  AuthenticationType, token, oauth_proxy, oidc, unknown_type, VolumeMount, Network,
  authenticated_port, auth_proxy_meta_port, second_proxy_port,
}

-- `probe_port` is the port of both probes; `env_from` is a secret.
pub record ProxyContainer : Type 0 where
  pub name : String
  pub args : List String
  pub env : List (String × String)
  pub env_from : Option String
  pub volume_mounts : List VolumeMount
  pub probe_path : String
  pub probe_port : ℕ

pub record SecretVolume : Type 0 where
  pub name : String
  pub secret_name : String

pub record Manifests : Type 0 where
  pub containers : List ProxyContainer
  pub volumes : List SecretVolume

abbrev pub no_manifests : Manifests
no_manifests = record { containers = []; volumes = [] }

unfoldable pub needs_key : AuthenticationType → Bool
needs_key token = true
needs_key oauth_proxy = true
needs_key oidc = false
needs_key (unknown_type type) = false

-- `string(auth.Type)`
type_string : AuthenticationType → String
type_string token = "token"
type_string oauth_proxy = "oauth2proxy"
type_string oidc = "oidc"
type_string (unknown_type type) = type

abbrev pub proxy_volume : String
proxy_volume = "amalthea-proxy-configuration-secret"

abbrev pub fixed_config_volume : String
fixed_config_volume = "amalthea--fixed-proxy-configuration-secret"

abbrev pub authorized_emails_volume : String
authorized_emails_volume = "amalthea--authorized-emails-secret"

abbrev pub local_address : String
local_address = "http://127.0.0.1:"

module _ (show : ℕ → String) where
  stripped_prefix : Network → AmaltheaSession → List (String × String)
  unfolding slashed
  stripped_prefix n cr =
      if n.strip_url_path
      then ("AUTHPROXY_STRIP_PATH_PREFIX", slashed cr.spec.session.url_path) ∷ []
      else []

  unfoldable pub get_rewrite_authn_proxy : Network → AmaltheaSession → ℕ → ℕ → ℕ → ProxyContainer
  unfolding stripped_prefix
  get_rewrite_authn_proxy n cr listen_port meta_listen_port remote_port = record {
    name = "authproxy";
    args = "proxy" ∷ "serve" ∷ "--verbose" ∷ [];
    env =
        ("AUTHPROXY_PORT", show listen_port)
        ∷ ("AUTHPROXY_META_PORT", show meta_listen_port)
        ∷ ("AUTHPROXY_REMOTE", local_address <> show remote_port)
        ∷ stripped_prefix n cr;
    env_from = none;
    volume_mounts = [];
    probe_path = "/__amalthea__/health";
    probe_port = listen_port;
  }

  same_site : Network → String
  same_site n = "--cookie-samesite=" <> (if n.same_site_none then "none" else "strict")

  unfoldable pub oauth_proxy_manifests : Network → AmaltheaSession → Authentication → Manifests
  unfolding get_rewrite_authn_proxy same_site
  oauth_proxy_manifests n cr auth = record {
    volumes = record { name = proxy_volume; secret_name = auth.secret_ref.name } ∷ [];
    containers =
        record {
          name = "oauth2-proxy";
          args =
              ("--upstream=" <> (local_address <> show second_proxy_port))
              ∷ ("--http-address=:" <> show authenticated_port)
              ∷ "--silence-ping-logging"
              ∷ ("--config=/etc/oauth2-proxy/" <> auth.secret_ref.key)
              ∷ same_site n
              ∷ [];
          env = [];
          env_from = none;
          volume_mounts =
              record { name = proxy_volume; mount_path = "/etc/oauth2-proxy"; sub_path = "" }
              ∷ n.extra_volume_mounts;
          probe_path = "/ping";
          probe_port = authenticated_port;
        }
        ∷ get_rewrite_authn_proxy n cr second_proxy_port auth_proxy_meta_port n.port
        ∷ [];
  }

  token_manifests : Network → AmaltheaSession → Authentication → Manifests
  unfolding get_rewrite_authn_proxy
  token_manifests n cr auth = record {
    volumes = record { name = proxy_volume; secret_name = auth.secret_ref.name } ∷ [];
    containers =
        record (get_rewrite_authn_proxy n cr authenticated_port auth_proxy_meta_port n.port) {
          args = "proxy" ∷ "serve" ∷ "--config" ∷ ("/etc/authproxy/" <> auth.secret_ref.key) ∷ [];
          volume_mounts =
              record { name = proxy_volume; mount_path = "/etc/authproxy"; sub_path = "" }
              ∷ n.extra_volume_mounts;
        }
        ∷ [];
  }

  unfoldable pub oidc_manifests : Network → AmaltheaSession → Authentication → Manifests
  unfolding get_rewrite_authn_proxy same_site
  oidc_manifests n cr auth = record {
    volumes =
        record { name = fixed_config_volume; secret_name = cr.name }
        ∷ record { name = authorized_emails_volume; secret_name = auth.secret_ref.name }
        ∷ [];
    containers =
        record {
          name = "oauth2-proxy";
          args =
              "--silence-ping-logging"
              ∷ "--alpha-config=/etc/oauth2-proxy/oauth2-proxy-alpha-config.yaml"
              ∷ "--config=/etc/oauth2-proxy/oauth2-proxy-config.yaml"
              ∷ same_site n
              ∷ [];
          env = [];
          env_from = some auth.secret_ref.name;
          volume_mounts =
              record { name = fixed_config_volume; mount_path = "/etc/oauth2-proxy"; sub_path = "" }
              ∷ record {
                name = authorized_emails_volume;
                mount_path = "/authorized_emails";
                sub_path = "AUTHORIZED_EMAILS";
              }
              ∷ n.extra_volume_mounts;
          probe_path = "/ping";
          probe_port = authenticated_port;
        }
        ∷ get_rewrite_authn_proxy n cr second_proxy_port auth_proxy_meta_port n.port
        ∷ [];
  }

  manifests_of :
      Network → AmaltheaSession → Authentication → AuthenticationType → Manifests ⊎ String
  unfolding oauth_proxy_manifests token_manifests oidc_manifests
  manifests_of n cr a oauth_proxy = inl (oauth_proxy_manifests n cr a)
  manifests_of n cr a token =
      if n.same_site_none
      then inr "cannot set the same site cookie parameter for anonymous sessions"
      else inl (token_manifests n cr a)
  manifests_of n cr a oidc = inl (oidc_manifests n cr a)
  manifests_of n cr a (unknown_type type) = inr (
      "unexpected authentication type "
      <> (type <> " when trying to template authentication containers"))

  auth_of : Network → AmaltheaSession → Option Authentication → Manifests ⊎ String
  unfolding manifests_of needs_key type_string
  auth_of n cr none = inl no_manifests
  auth_of n cr (some a) =
      if not a.enabled
      then inl no_manifests
      else if needs_key n.authentication_type && is_empty a.secret_ref.key
      then inr (
          "the authentication secret key has to be defined when using "
          <> (type_string n.authentication_type <> " authentication"))
      else manifests_of n cr a n.authentication_type

  unfoldable pub auth : Network → AmaltheaSession → Manifests ⊎ String
  unfolding auth_of
  auth n cr = auth_of n cr cr.spec.authentication
