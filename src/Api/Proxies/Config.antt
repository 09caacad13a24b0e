-- ===== src/Api/Proxies/Config.antt =====
-- The secret that configures the proxy for OIDC and the tunnel (InternalSecretName and Secret in
-- api/v1alpha1/amaltheasession_children.go). The parts of the configuration that are the same for
-- every session are left out.
pub mod Laws
use amalthea.Prelude.{
  ℕ, zero, suc, ◌+◌, ◌-◌, ◌≤◌, ◌<◌, min, String, ◌<>◌, ◌≡◌, refl, sym, ap, ◌∙◌, ◌≢◌, ◌↔◌, ◌⊎◌, inl,
  inr, Bool, true, false, ◌&&◌, ◌||◌, not, Option, none, some, List, [], ◌∷◌, ◌++◌, map, arith, ltb,
  leb, Eq, ◌==◌, ℕ_eq, String_eq, eq_iff, Bytes, take, drop, index_byte, newline, is_one_line,
  unlines, length-append, unlines-append, drop-append, take-append, take-append-drop, IsSplit,
  index_byte-IsSplit, index_byte-none, if◌then◌else◌, ltb→lt, lt→ltb, leb→le, Bool-cases,
  Option-cases, is_some, holds, is_empty, length, any, all, count_if, count_if-le, All, StringMap,
  or_else, lookup, insert, lookup-insert, lookup-insert_same, copy, lookup-copy, is_empty-append,
  cut_prefix, append-cut_prefix, cut_prefix-append,
}
use amalthea.Kube.{ObjectMeta, Secret}
use amalthea.Api.{AmaltheaSession, Authentication}
use amalthea.Api.Address.{Url, UrlLibrary, get_url}
use amalthea.Api.Workloads.{Template}
use amalthea.Api.Routing.{
  AuthenticationType, token, oauth_proxy, oidc, unknown_type, Network, authenticated_port,
  second_proxy_port, ingress_path_prefix, metadata_with,
}
use amalthea.Api.Proxies.{local_address}

unfoldable pub internal_secret_name : AmaltheaSession → String
internal_secret_name cr = cr.name <> "---internal"

-- The configuration of the OIDC proxy that depends on the session.
pub record AlphaConfig : Type 0 where
  pub upstream_path : String
  pub upstream_uri : String
  pub bind_address : String

unfoldable pub alpha_config : (ℕ → String) → AmaltheaSession → AlphaConfig
unfolding ingress_path_prefix
alpha_config show cr = record {
  upstream_path = ingress_path_prefix cr.spec.ingress;
  upstream_uri = local_address <> show second_proxy_port;
  bind_address = "0.0.0.0:" <> show authenticated_port;
}

-- What Secret needs of the libraries: `marshal` writes YAML, `callback` adds oauth2/callback to an
-- address and prints it, and the other two are random texts.
pub record SecretSources : Type 0 where
  pub urls : UrlLibrary
  pub show : ℕ → String
  pub marshal : AlphaConfig → String
  pub callback : Url → String
  pub cookie_secret : String
  pub tunnel_secret : String
  pub https : Bool

-- `strings.Join(lines, "\n")`
unfoldable pub join_lines : List String → String
join_lines [] = ""
join_lines (line ∷ []) = line
join_lines (line ∷ next ∷ rest) = line <> ("\n" <> join_lines (next ∷ rest))

module _ (w : SecretSources) where
  unfoldable pub old_config_lines : AmaltheaSession → Url → List String
  unfolding ingress_path_prefix
  old_config_lines cr session_url =
      let path_prefix = ingress_path_prefix cr.spec.ingress in
      "session_cookie_minimal = true"
      ∷ "skip_provider_button = true"
      ∷ ("redirect_url = \""
          <> (w.callback (record {
            scheme = session_url.scheme;
            host = session_url.host;
            path = path_prefix;
            query = "";
            fragment = "";
          })
              <> "\""))
      ∷ ("cookie_path = \"" <> (path_prefix <> "\""))
      ∷ ("proxy_prefix = \"" <> (path_prefix <> "oauth2\""))
      ∷ "authenticated_emails_file = \"/authorized_emails\""
      ∷ ("cookie_secret = \"" <> (w.cookie_secret <> "\""))
      ∷ []

  -- The secret of the tunnel is there if the session is remote and it is not empty.
  tunnel_data : Network → StringMap String
  tunnel_data n =
      if n.is_remote && not (is_empty w.tunnel_secret)
      then ("WSTUNNEL_SECRET", w.tunnel_secret) ∷ []
      else []

  unfoldable pub secret_with : Template → AmaltheaSession → StringMap String → Secret
  unfolding metadata_with internal_secret_name
  secret_with t cr string_data = record {
    metadata = record (metadata_with t.annotations t cr) { name = internal_secret_name cr };
    content = none;
    string_data = string_data;
  }

  -- A session without an address makes the code follow a nil pointer.
  oidc_data : Network → AmaltheaSession → Option Url → Option (StringMap String)
  unfolding old_config_lines tunnel_data alpha_config join_lines
  oidc_data n cr none = none
  oidc_data n cr (some session_url) = some (
      ("oauth2-proxy-alpha-config.yaml", w.marshal (alpha_config w.show cr))
      ∷ ("oauth2-proxy-config.yaml", join_lines (old_config_lines cr session_url))
      ∷ tunnel_data n)

  data_for :
      Network
      → AmaltheaSession
      → Option Authentication
      → AuthenticationType
      → Option (StringMap String)
  unfolding oidc_data tunnel_data get_url
  data_for n cr (some a) oidc = oidc_data n cr (get_url w.urls w.https cr)
  data_for n cr (some a) _ = some (tunnel_data n)
  data_for n cr none _ = some (tunnel_data n)

  secret_of : Template → AmaltheaSession → Option (StringMap String) → Option Secret
  unfolding secret_with
  secret_of t cr none = none
  secret_of t cr (some string_data) = some (secret_with t cr string_data)

  -- `Secret`, none where it panics.
  unfoldable pub secret : Network → Template → AmaltheaSession → Option Secret
  unfolding data_for secret_of
  secret n t cr = secret_of t cr (data_for n cr cr.spec.authentication n.authentication_type)
