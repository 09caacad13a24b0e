-- ===== src/Tests/Routing.antt =====
-- What the theorems on the ways into a session say of concrete sessions.
use amalthea.Prelude.{
  ℕ, String, ◌<>◌, ◌≡◌, refl, ◌↔◌, ◌⊎◌, true, false, none, some, List, [], ◌∷◌, map, ◌==◌, ℕ_eq,
  String_eq, if◌then◌else◌, is_some, any, all, insert,
}
use amalthea.Kube.{Secret}
use amalthea.Api.{AmaltheaSession, Authentication}
use amalthea.Api.Address.{get_url}
use amalthea.Api.Workloads.{Template}
use amalthea.Api.Routing.{
  oauth_proxy, oidc, Network, from_int, from_string, http_target, service, IngressManifest, ingress,
  metadata_with, is_authenticated, ingress_path_prefix, authenticated_port,
}
use amalthea.Api.Routing.Laws.{routes, ingress-routes, IsSlashed}
use amalthea.Api.Proxies.{Manifests, auth, oauth_proxy_manifests, oidc_manifests}
use amalthea.Api.Proxies.Config.{
  SecretSources, secret, secret_with, old_config_lines, join_lines, alpha_config,
}
use amalthea.Api.Proxies.Laws.{IsChain, auth-IsChain}
use amalthea.Api.Proxies.Config.Laws.{secret_panics, oidc-other_secret}
use amalthea.Api.Cloning.{CodeSource, clone_init}
use amalthea.Api.Cloning.Laws.{at_secrets, secrets_so_far, clone_init-at_secrets}
use amalthea.Api.Mounts.{
  StorageSource, rclone, DataManifests, Agrees, is_usable_source, data_sources, data_sources_lem,
}
use amalthea.Tests.Fixtures.{a_session, a_spec, a_shared_ref, an_ingress}

abbrev a_template : Template
a_template = record { labels = []; annotations = ("team", "a") ∷ []; uid = "u-1" }

abbrev a_network : Network
a_network = record {
  port = 8_888;
  is_remote = true;
  strip_url_path = true;
  authentication_type = oauth_proxy;
  extra_volume_mounts = [];
  ingress_class_name = none;
  ingress_annotations = [];
  same_site_none = false;
}

abbrev an_oidc_network : Network
an_oidc_network = record a_network { authentication_type = oidc }

abbrev a_guarded_session : AmaltheaSession
a_guarded_session = record a_session {
  spec = record a_spec {
    authentication = some (record { enabled = true; secret_ref = a_shared_ref });
  };
}

-- A session with the authentication that has no ingress.
abbrev a_closed_session : AmaltheaSession
a_closed_session = record a_guarded_session {
  spec = record a_spec {
    authentication = some (record { enabled = false; secret_ref = a_shared_ref });
    ingress = none;
  };
}

-- Numbers that are printed as the ports that occur.
abbrev shown : ℕ → String
shown n = if n == authenticated_port then "65535" else if n == 8_888 then "8888" else "65533"

abbrev some_sources : SecretSources
some_sources = record {
  urls = record { parse = λ s. none; to_string = λ u. u.host };
  show = shown;
  marshal = λ c. c.upstream_uri;
  callback = λ u. u.host <> (u.path <> "oauth2/callback");
  cookie_secret = "cookie";
  tunnel_secret = "tunnel";
  https = true;
}

abbrev an_ingress_manifest : IngressManifest
an_ingress_manifest = record {
  metadata = metadata_with (("team", "a") ∷ []) a_template a_guarded_session;
  ingress_class_name = none;
  host = "example.org";
  paths =
      record { path = "/"; path_type = "Prefix"; service_name = "lab"; port_name = "amalthea-http" }
      ∷ record {
        path = "/__amalthea__/tunnel";
        path_type = "Prefix";
        service_name = "lab";
        port_name = "amalthea-tunnel";
      }
      ∷ [];
  tls = record { hosts = "example.org" ∷ []; secret_name = "shared" } ∷ [];
}

ingress-routes_example :
    (path : String) × IsSlashed "/" path
    × (an_ingress_manifest.host ≡ an_ingress.host)
    × (routes (service a_network a_template a_guarded_session) an_ingress_manifest
        ≡ (path, "Prefix", some (from_int 65_535))
          ∷ (path <> "__amalthea__/tunnel", "Prefix", some (from_string "amalthea-tunnel"))
          ∷ [])
unfolding ingress ingress_path_prefix insert
ingress-routes_example =
    ingress-routes a_network a_template a_guarded_session an_ingress an_ingress_manifest refl refl

abbrev an_authentication : Authentication
an_authentication = record { enabled = true; secret_ref = a_shared_ref }

abbrev some_manifests : Manifests
some_manifests = oauth_proxy_manifests shown a_network a_guarded_session an_authentication

auth-IsChain_example :
    IsChain shown (alpha_config shown a_guarded_session) 65_535 some_manifests.containers 8_888
unfolding auth http_target
auth-IsChain_example = auth-IsChain shown a_network a_guarded_session some_manifests refl

secret_panics_example : (secret some_sources an_oidc_network a_template a_closed_session ≡ none) ↔ (
    (is_some a_closed_session.spec.authentication ≡ true)
    × (an_oidc_network.authentication_type ≡ oidc)
    × (get_url some_sources.urls true a_closed_session ≡ none))
secret_panics_example = secret_panics some_sources an_oidc_network a_template a_closed_session

abbrev oidc_containers : Manifests
oidc_containers = oidc_manifests shown an_oidc_network a_guarded_session an_authentication

abbrev an_internal_secret : Secret
an_internal_secret = secret_with some_sources a_template a_guarded_session (
    ("oauth2-proxy-alpha-config.yaml", "http://127.0.0.1:65533")
    ∷ (
      "oauth2-proxy-config.yaml",
      join_lines (
          old_config_lines some_sources a_guarded_session (record {
            scheme = "https";
            host = "example.org";
            path = "/session/";
            query = "";
            fragment = "";
          })),
    )
    ∷ ("WSTUNNEL_SECRET", "tunnel")
    ∷ [])

oidc-other_secret_example :
    (any (λ v. v.secret_name == "lab") oidc_containers.volumes ≡ true)
    × ¬ (an_internal_secret.metadata.name ≡ "lab")
unfolding auth secret alpha_config get_url is_authenticated
oidc-other_secret_example =
    oidc-other_secret shown some_sources an_oidc_network a_template a_guarded_session
      oidc_containers an_internal_secret refl refl refl refl

-- A disabled OIDC authentication without an ingress is enough.
secret_test : secret some_sources an_oidc_network a_template a_closed_session ≡ none
unfolding secret get_url
secret_test = refl

abbrev a_source : CodeSource
a_source = record {
  remote = "https://example.org/a.git";
  clone_path = "a";
  revision = "main";
  cloning_config_secret_ref = some a_shared_ref;
}

abbrev a_public_source : CodeSource
a_public_source = record a_source { cloning_config_secret_ref = none }

-- The third of these containers has two volumes at one path.
clone_init-at_secrets_example :
    map
      (λ c. at_secrets c.volume_mounts)
      (clone_init shown "/work" (a_source ∷ a_public_source ∷ a_source ∷ [])).containers
    ≡ 1 ∷ 1 ∷ 2 ∷ []
unfolding secrets_so_far
clone_init-at_secrets_example =
    clone_init-at_secrets shown "/work" (a_source ∷ a_public_source ∷ a_source ∷ []) refl

abbrev a_storage : StorageSource
a_storage = record {
  type = rclone;
  access_mode = "ReadOnlyMany";
  mount_path = "/data";
  secret_ref = some a_shared_ref;
}

abbrev some_storages : List StorageSource
some_storages = a_storage ∷ record a_storage { secret_ref = none } ∷ []

data_sources_lem_example :
    ((all (λ ds. is_usable_source ds.type ds.secret_ref) some_storages ≡ true)
      × ((m : DataManifests) × (data_sources shown "csi" a_template a_session false some_storages
            ≡ some m)
          × Agrees m))
    ⊎ ((all (λ ds. is_usable_source ds.type ds.secret_ref) some_storages ≡ false)
        × (data_sources shown "csi" a_template a_session false some_storages ≡ none))
data_sources_lem_example = data_sources_lem shown "csi" a_template a_session some_storages

data_sources_test : data_sources shown "csi" a_template a_session false some_storages ≡ none
unfolding data_sources
data_sources_test = refl
