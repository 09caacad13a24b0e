-- ===== src/Api/Routing/Laws.antt =====
-- Where the requests of a session go (Service and Ingress in
-- api/v1alpha1/amaltheasession_children.go).
use amalthea.Prelude.{
  ℕ, String, ◌<>◌, ◌≡◌, refl, sym, ◌⊎◌, inl, inr, true, false, Option, none, some, List, [], ◌∷◌,
  map, arith, ◌==◌, ℕ_eq, String_eq, eq_iff, if◌then◌else◌, Bool-cases,
}
use amalthea.Api.{AmaltheaSession, Authentication, Ingress}
use amalthea.Api.Address.{ends_in_slash, slashed}
use amalthea.Api.Workloads.{Template}
use amalthea.Api.Routing.{
  Network, TargetPort, from_int, from_string, ServicePort, ServiceManifest, is_authenticated,
  http_target, service, IngressPath, IngressManifest, ingress_path_prefix, ingress_of, ingress,
  metadata_with, tunnel_ports, tunnel_paths,
}

-- The port of the pod behind a port of a service, as Kubernetes finds it.
unfoldable pub target_of : String → List ServicePort → Option TargetPort
target_of name [] = none
target_of name (p ∷ rest) =
    let later = target_of name rest in if p.name == name then some p.target_port else later

-- A path of an ingress, its type, and where it leads if it leads to the service.
unfoldable pub route : ServiceManifest → IngressPath → String × String × Option TargetPort
unfolding target_of
route s p = (
  p.path,
  p.path_type,
  (if p.service_name == s.metadata.name then target_of p.port_name s.ports else none),
)

unfoldable pub routes :
    ServiceManifest → IngressManifest → List (String × String × Option TargetPort)
unfolding route
routes s i = map (route s) i.paths

-- The port of the pod that requests have to reach: that of the proxy that authenticates them, if
-- there is one.
abbrev pub guarded_port : ℕ → Option Authentication → ℕ
guarded_port port none = port
guarded_port port (some auth) = if auth.enabled then 65_535 else port

-- A text, and it with one slash at its end.
abbrev pub IsSlashed : String → String → Type 0
IsSlashed text path =
    ((ends_in_slash text ≡ true) × (path ≡ text))
    ⊎ ((ends_in_slash text ≡ false) × (path ≡ text <> "/"))

slashed-IsSlashed : (text : String) → IsSlashed text (slashed text)
unfolding slashed
slashed-IsSlashed text = elim (Bool-cases (ends_in_slash text)) [
  | inl e ↦ inl (e, rw e refl)
  | inr e ↦ inr (e, rw e refl)
]

http_target-guarded_port :
    (n : Network) (cr : AmaltheaSession) (o : Option Authentication)
    → cr.spec.authentication ≡ o
    → http_target n cr ≡ guarded_port n.port o
unfolding http_target is_authenticated
http_target-guarded_port n cr none e = rw e refl
http_target-guarded_port n cr (some auth) e = rw e refl

ingress_of-routes :
    (n : Network) (t : Template) (cr : AmaltheaSession) (j : Ingress) (i : IngressManifest)
    → ingress_of n t cr (some j) ≡ some i
    → (i.host ≡ j.host)
      × (routes (service n t cr) i
          ≡ (slashed j.path_prefix, "Prefix", some (from_int (http_target n cr)))
            ∷ (if n.is_remote
                then (
                  slashed j.path_prefix <> "__amalthea__/tunnel",
                  "Prefix",
                  some (from_string "amalthea-tunnel"),
                )
                  ∷ []
                else []))
unfolding ingress_of service routes route target_of metadata_with tunnel_ports tunnel_paths
    ingress_path_prefix
ingress_of-routes n t cr j i h = ground (arith, eq_iff cr.name cr.name)

-- The ingress of a session has the host that is asked for. Its first path, of the type Prefix, is the
-- one that is asked for with a slash at its end; it leads to the port 65535 of the pod if the
-- authentication is enabled, else to the port of the session. That of a remote session has a second
-- one, below the first, which leads to the port of the tunnel. There are no other paths.
pub ingress-routes :
    (n : Network) (t : Template) (cr : AmaltheaSession) (j : Ingress) (i : IngressManifest)
    → cr.spec.ingress ≡ some j
    → ingress n t cr ≡ some i
    → (path : String) × IsSlashed j.path_prefix path
      × (i.host ≡ j.host)
      × (routes (service n t cr) i
          ≡ (path, "Prefix", some (from_int (guarded_port n.port cr.spec.authentication)))
            ∷ (if n.is_remote
                then (path <> "__amalthea__/tunnel", "Prefix", some (from_string "amalthea-tunnel"))
                  ∷ []
                else []))
unfolding ingress
ingress-routes n t cr j i e h =
    let (host, paths) = ingress_of-routes n t cr j i (rw e at h) in
    (
      slashed j.path_prefix,
      slashed-IsSlashed j.path_prefix,
      host,
      rw (sym (http_target-guarded_port n cr cr.spec.authentication refl)) paths,
    )
