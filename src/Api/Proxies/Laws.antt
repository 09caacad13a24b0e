-- ===== src/Api/Proxies/Laws.antt =====
-- Which ports the proxies of a session connect (api/v1alpha1/auth_templates.go).
use amalthea.Prelude.{
  ℕ, String, ◌<>◌, ◌≡◌, refl, sym, ◌⊎◌, inl, inr, Bool, true, Option, none, some, List, [], ◌∷◌,
  arith, ◌==◌, ℕ_eq, String_eq, eq_iff, if◌then◌else◌, Bool-cases, any, lookup,
}
use amalthea.Api.{AmaltheaSession, Authentication}
use amalthea.Api.Routing.{
  AuthenticationType, token, oauth_proxy, oidc, unknown_type, Network, authenticated_port,
  second_proxy_port, auth_proxy_meta_port, http_target, is_authenticated,
}
use amalthea.Api.Proxies.{
  ProxyContainer, Manifests, no_manifests, auth, auth_of, manifests_of, get_rewrite_authn_proxy,
  oauth_proxy_manifests, token_manifests, oidc_manifests, local_address,
}
use amalthea.Api.Proxies.Config.{AlphaConfig, alpha_config}

unfoldable pub contains : String → List String → Bool
contains text l = any (λ other. other == text) l

-- A container that listens on one port of the pod and passes what is let through to another one:
-- authproxy is told so by its environment, oauth2-proxy by its arguments or by a file.
unfoldable pub Connects : (ℕ → String) → AlphaConfig → ProxyContainer → ℕ → ℕ → Type 0
unfolding lookup
Connects show config c from to =
    ((lookup "AUTHPROXY_PORT" c.env ≡ some (show from))
      × (lookup "AUTHPROXY_REMOTE" c.env ≡ some (local_address <> show to)))
    ⊎ ((contains ("--http-address=:" <> show from) c.args ≡ true)
        × (contains ("--upstream=" <> (local_address <> show to)) c.args ≡ true))
    ⊎ ((contains "--alpha-config=/etc/oauth2-proxy/oauth2-proxy-alpha-config.yaml" c.args ≡ true)
        × (config.bind_address ≡ "0.0.0.0:" <> show from)
        × (config.upstream_uri ≡ local_address <> show to))

-- The containers in their order lead from one port to another.
pub data IsChain (show : ℕ → String) (config : AlphaConfig)
    : ℕ → List ProxyContainer → ℕ → Type 0 where
  arrived : {p : ℕ} → IsChain show config p [] p
  via :
      {p q r : ℕ} {c : ProxyContainer} {cs : List ProxyContainer}
      → Connects show config c p q
      → IsChain show config q cs r
      → IsChain show config p (c ∷ cs) r

module _ (show : ℕ → String) (n : Network) (cr : AmaltheaSession) where
  rewrite_proxy-Connects :
      (p meta q : ℕ)
      → Connects show (alpha_config show cr) (get_rewrite_authn_proxy show n cr p meta q) p q
  unfolding Connects lookup get_rewrite_authn_proxy
  rewrite_proxy-Connects p meta q = inl (refl, refl)

  contains_first : (text : String) (l : List String) → contains text (text ∷ l) ≡ true
  unfolding contains
  contains_first text l = ground (arith, eq_iff text text)

  contains_second :
      (text other : String) (l : List String) → contains text (other ∷ text ∷ l) ≡ true
  unfolding contains
  contains_second text other l = ground (arith, eq_iff text text)

  oauth_proxy-IsChain :
      (a : Authentication)
      → IsChain show
          (alpha_config show cr)
          authenticated_port
          (oauth_proxy_manifests show n cr a).containers
          n.port
  unfolding Connects oauth_proxy_manifests
  oauth_proxy-IsChain a =
      via (inr (inl (contains_second _ _ _, contains_first _ _)))
        (via (rewrite_proxy-Connects second_proxy_port auth_proxy_meta_port n.port) arrived)

  token-IsChain :
      (a : Authentication)
      → IsChain show
          (alpha_config show cr)
          authenticated_port
          (token_manifests show n cr a).containers
          n.port
  unfolding Connects lookup get_rewrite_authn_proxy token_manifests
  token-IsChain a = via (inl (refl, refl)) arrived

  oidc-IsChain :
      (a : Authentication)
      → IsChain show
          (alpha_config show cr)
          authenticated_port
          (oidc_manifests show n cr a).containers
          n.port
  unfolding Connects oidc_manifests alpha_config
  oidc-IsChain a =
      via (inr (inr (contains_second _ _ _, refl, refl)))
        (via (rewrite_proxy-Connects second_proxy_port auth_proxy_meta_port n.port) arrived)

  manifests_of-IsChain :
      (a : Authentication) (type : AuthenticationType) (m : Manifests)
      → manifests_of show n cr a type ≡ inl m
      → IsChain show (alpha_config show cr) authenticated_port m.containers n.port
  unfolding manifests_of
  manifests_of-IsChain a oauth_proxy m h =
      let same : oauth_proxy_manifests show n cr a ≡ m = ground arith in
      rw (sym same) (oauth_proxy-IsChain a)
  manifests_of-IsChain a token m h =
      let same : token_manifests show n cr a ≡ m = ground arith in rw (sym same) (token-IsChain a)
  manifests_of-IsChain a oidc m h =
      let same : oidc_manifests show n cr a ≡ m = ground arith in rw (sym same) (oidc-IsChain a)
  manifests_of-IsChain a (unknown_type type) m h = ground arith

  auth_of-IsChain :
      (o : Option Authentication) (m : Manifests)
      → auth_of show n cr o ≡ inl m
      → IsChain show
          (alpha_config show cr)
          (if is_authenticated o then authenticated_port else n.port)
          m.containers
          n.port
  unfolding auth_of is_authenticated
  auth_of-IsChain none m h = let same : no_manifests ≡ m = ground arith in rw (sym same) arrived
  auth_of-IsChain (some a) m h = elim (Bool-cases a.enabled) [
    | inr off ↦ (let same : no_manifests ≡ m = ground arith in rw (sym same) (rw off arrived))
    | inl on ↦
        (let made : manifests_of show n cr a n.authentication_type ≡ inl m = ground arith in
          rw on (manifests_of-IsChain a n.authentication_type m made))
  ]

  -- If there is no error then the port to which the service sends the requests of a session, the
  -- proxies of its authentication in their order, and the port of the session are connected to each
  -- other; without authentication the two ports are the same and there are no proxies.
  pub auth-IsChain :
      (m : Manifests)
      → auth show n cr ≡ inl m
      → IsChain show (alpha_config show cr) (http_target n cr) m.containers n.port
  unfolding auth http_target
  auth-IsChain m h = auth_of-IsChain cr.spec.authentication m h
