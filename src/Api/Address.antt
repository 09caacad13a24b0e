-- ===== src/Api/Address.antt =====
-- The address at which a session is reached (GetURL and GetURLString in
-- api/v1alpha1/amaltheasession_types.go). Go's package net/url is a parameter.
use Prim.Native.Char.{code}
use Prim.Native.String.{String}
use text.Mathlib.TextLemmas.{cons-append}
use text.Mathlib.TextLemmas.{cons-append}
use amalthea.Prelude.{
  ◌<>◌, ◌≡◌, refl, Bool, true, false, ◌||◌, not, Option, none, some, arith, ◌==◌, ℕ_eq, String_eq,
  if◌then◌else◌, holds, is_empty,
}
use amalthea.Api.{AmaltheaSession, Ingress}

pub record Url : Type 0 where
  pub scheme : String
  pub host : String
  pub path : String
  pub query : String
  pub fragment : String

-- net/url: `url.Parse`, none where it fails, and `u.String()`.
pub record UrlLibrary : Type 0 where
  pub parse : String → Option Url
  pub to_string : Url → String

-- `strings.HasSuffix(s, "/")`
unfoldable pub ends_in_slash : String → Bool
ends_in_slash String.[] = false
ends_in_slash (String.◌∷◌ c String.[]) = code c == b'/'
ends_in_slash (String.◌∷◌ c (String.◌∷◌ d s)) = ends_in_slash (String.◌∷◌ d s)

-- `https` is the environment's HTTPS_SESSION_INGRESS.
unfoldable pub url_scheme : Bool → Ingress → String
url_scheme https ingress =
    if holds ingress.tls_secret (λ s. not (is_empty s.name))
      || ingress.use_default_cluster_tls_cert
      || ingress.assume_https
      || https
    then "https"
    else "http"

-- The path of the session with a slash at its end.
unfoldable pub slashed : String → String
unfolding ends_in_slash
slashed path = if ends_in_slash path then path else path <> "/"

module _ (urls : UrlLibrary) (https : Bool) where
  url_of : Ingress → String → Option Url → Url
  unfolding url_scheme
  url_of ingress path none = record {
    scheme = url_scheme https ingress;
    host = ingress.host;
    path = path;
    query = "";
    fragment = "";
  }
  url_of ingress path (some u) = record u { scheme = url_scheme https ingress; host = ingress.host }

  get_url_in : AmaltheaSession → Option Ingress → Option Url
  unfolding url_of slashed
  get_url_in a none = none
  get_url_in a (some ingress) =
      let path = slashed a.spec.session.url_path in
      if is_empty ingress.host then none else some (url_of ingress path (urls.parse path))

  unfoldable pub get_url : AmaltheaSession → Option Url
  unfolding get_url_in
  get_url a = get_url_in a a.spec.ingress

  url_text : Option Url → String
  url_text none = "None"
  url_text (some u) = urls.to_string u

  unfoldable pub get_url_string : AmaltheaSession → String
  unfolding url_text get_url
  get_url_string a = url_text (get_url a)

ends_in_slash-append : (s : String) → ends_in_slash (s <> "/") ≡ true
unfolding ends_in_slash
ends_in_slash-append String.[] = refl
ends_in_slash-append (String.◌∷◌ c String.[]) = rw cons-append refl
ends_in_slash-append (String.◌∷◌ c (String.◌∷◌ d s)) =
    rw (cons-append, cons-append) (rw cons-append at (ends_in_slash-append (String.◌∷◌ d s)))

pub slashed-ends_in_slash : (path : String) → ends_in_slash (slashed path) ≡ true
unfolding slashed
slashed-ends_in_slash path = ground (arith, ends_in_slash-append path)

url_of-fields :
    (urls : UrlLibrary) (https : Bool) (i : Ingress) (path : String) (o : Option Url)
    → ((url_of urls https i path o).host ≡ i.host)
      × ((url_of urls https i path o).scheme ≡ url_scheme https i)
unfolding url_of
url_of-fields urls https i path none = (refl, refl)
url_of-fields urls https i path (some u) = (refl, refl)

-- A session whose ingress has a host has an address, whatever the session's path is: the host is
-- that of the ingress, and the scheme is the one that its TLS settings ask for.
pub get_url_lem :
    (urls : UrlLibrary) (https : Bool) (a : AmaltheaSession) (i : Ingress)
    → a.spec.ingress ≡ some i
    → is_empty i.host ≡ false
    → (u : Url) × (get_url urls https a ≡ some u)
      × (u.host ≡ i.host)
      × (u.scheme ≡ url_scheme https i)
unfolding get_url get_url_in
get_url_lem urls https a i e h =
    let path : String = slashed a.spec.session.url_path in
    let fields = url_of-fields urls https i path (urls.parse path) in
    (url_of urls https i path (urls.parse path), rw (e, get_url_in) (rw h), fields.0, fields.1)
