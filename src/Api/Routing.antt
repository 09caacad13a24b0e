-- ===== src/Api/Routing.antt =====
-- The service and the ingress of a session (Service and Ingress in
-- api/v1alpha1/amaltheasession_children.go). The protocol TCP, which is the same for every session, is
-- left out.
pub mod Laws
use amalthea.Prelude.{
  ℕ, zero, suc, ◌+◌, ◌-◌, ◌≤◌, ◌<◌, min, String, ◌<>◌, ◌≡◌, refl, sym, ap, ◌∙◌, ◌≢◌, ◌↔◌, ◌⊎◌, inl,
  inr, Bool, true, false, ◌&&◌, ◌||◌, not, Option, none, some, List, [], ◌∷◌, ◌++◌, map, arith, ltb,
  leb, Eq, ◌==◌, ℕ_eq, String_eq, eq_iff, Bytes, take, drop, index_byte, newline, is_one_line,
  unlines, length-append, unlines-append, drop-append, take-append, take-append-drop, IsSplit,
  index_byte-IsSplit, index_byte-none, if◌then◌else◌, ltb→lt, lt→ltb, leb→le, Bool-cases,
  Option-cases, is_some, holds, is_empty, length, any, all, count_if, count_if-le, All, StringMap,
  or_else, lookup, insert, lookup-insert, lookup-insert_same, copy, lookup-copy, is_empty-append,
  cut_prefix, append-cut_prefix, cut_prefix-append,
}
use amalthea.Kube.{ObjectMeta}
use amalthea.Api.{AmaltheaSession, Authentication, Ingress, SessionSecretRef}
use amalthea.Api.Address.{slashed}
use amalthea.Api.Workloads.{Template, child_labels, selector_labels}

pub data AuthenticationType : Type 0 where
  token oauth_proxy oidc : AuthenticationType
  unknown_type : String → AuthenticationType

pub record VolumeMount : Type 0 where
  pub name : String
  pub mount_path : String
  pub sub_path : String

-- What the specification has on the network besides the address and the secrets, and whether the
-- environment asks for cookies that any site may send (`useNoneSameSiteSessionCookie`).
pub record Network : Type 0 where
  pub port : ℕ
  pub is_remote : Bool
  pub strip_url_path : Bool
  pub authentication_type : AuthenticationType
  pub extra_volume_mounts : List VolumeMount
  pub ingress_class_name : Option String
  pub ingress_annotations : StringMap String
  pub same_site_none : Bool

abbrev pub authenticated_port : ℕ
authenticated_port = 65_535

abbrev pub auth_proxy_meta_port : ℕ
auth_proxy_meta_port = 65_534

abbrev pub second_proxy_port : ℕ
second_proxy_port = 65_533

abbrev pub tunnel_port : ℕ
tunnel_port = 65_531

abbrev pub service_port_name : String
service_port_name = "amalthea-http"

abbrev pub service_meta_port_name : String
service_meta_port_name = "amalthea-http-meta"

abbrev pub tunnel_service_name : String
tunnel_service_name = "amalthea-tunnel"

-- A port of the pod, by its number or by its name.
pub data TargetPort : Type 0 where
  from_int : ℕ → TargetPort
  from_string : String → TargetPort

pub record ServicePort : Type 0 where
  pub name : String
  pub port : ℕ
  pub target_port : TargetPort

pub record ServiceManifest : Type 0 where
  pub metadata : ObjectMeta
  pub selector : StringMap String
  pub ports : List ServicePort
  pub publish_not_ready_addresses : Bool

unfoldable pub is_authenticated : Option Authentication → Bool
is_authenticated none = false
is_authenticated (some auth) = auth.enabled

unfoldable pub metadata_with : StringMap String → Template → AmaltheaSession → ObjectMeta
unfolding child_labels
metadata_with annotations t cr = record {
  name = cr.name;
  namespace = cr.namespace;
  creation_timestamp = 0;
  deletion_timestamp = none;
  labels = child_labels t cr;
  annotations = annotations;
  owner_references = [];
}

unfoldable pub http_target : Network → AmaltheaSession → ℕ
unfolding is_authenticated
http_target n cr = if is_authenticated cr.spec.authentication then authenticated_port else n.port

tunnel_ports : Network → List ServicePort
tunnel_ports n =
    if n.is_remote
    then record {
      name = tunnel_service_name;
      port = tunnel_port;
      target_port = from_string tunnel_service_name;
    }
      ∷ []
    else []

unfoldable pub service : Network → Template → AmaltheaSession → ServiceManifest
unfolding metadata_with http_target tunnel_ports selector_labels
service n t cr = record {
  metadata = metadata_with t.annotations t cr;
  selector = selector_labels cr.name;
  ports =
      record { name = service_port_name; port = 80; target_port = from_int (http_target n cr) }
      ∷ record {
        name = service_meta_port_name;
        port = auth_proxy_meta_port;
        target_port = from_int auth_proxy_meta_port;
      }
      ∷ tunnel_ports n;
  publish_not_ready_addresses = n.is_remote;
}

-- `path_type` is networkingv1.PathType: a path of the type Prefix stands for all that is below it.
pub record IngressPath : Type 0 where
  pub path : String
  pub path_type : String
  pub service_name : String
  pub port_name : String

pub record IngressTls : Type 0 where
  pub hosts : List String
  pub secret_name : String

pub record IngressManifest : Type 0 where
  pub metadata : ObjectMeta
  pub ingress_class_name : Option String
  pub host : String
  pub paths : List IngressPath
  pub tls : List IngressTls

unfoldable pub ingress_path_prefix : Option Ingress → String
unfolding slashed
ingress_path_prefix none = "/"
ingress_path_prefix (some i) = slashed i.path_prefix

tls_of : Ingress → Option SessionSecretRef → List IngressTls
tls_of i none =
    if i.use_default_cluster_tls_cert then record { hosts = []; secret_name = "" } ∷ [] else []
tls_of i (some ref) =
    if is_empty ref.name then [] else record { hosts = i.host ∷ []; secret_name = ref.name } ∷ []

tunnel_paths : Network → String → AmaltheaSession → List IngressPath
tunnel_paths n prefix cr =
    if n.is_remote
    then record {
      path = prefix <> "__amalthea__/tunnel";
      path_type = "Prefix";
      service_name = cr.name;
      port_name = tunnel_service_name;
    }
      ∷ []
    else []

ingress_of : Network → Template → AmaltheaSession → Option Ingress → Option IngressManifest
unfolding metadata_with ingress_path_prefix tls_of tunnel_paths copy
ingress_of n t cr none = none
ingress_of n t cr (some i) = some (record {
  metadata = metadata_with (copy n.ingress_annotations (copy t.annotations [])) t cr;
  ingress_class_name = n.ingress_class_name;
  host = i.host;
  paths =
      record {
        path = ingress_path_prefix (some i);
        path_type = "Prefix";
        service_name = cr.name;
        port_name = service_port_name;
      }
      ∷ tunnel_paths n (ingress_path_prefix (some i)) cr;
  tls = tls_of i i.tls_secret;
})

unfoldable pub ingress : Network → Template → AmaltheaSession → Option IngressManifest
unfolding ingress_of
ingress n t cr = ingress_of n t cr cr.spec.ingress
