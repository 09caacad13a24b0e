-- ===== src/GitProxy/Proxy.antt =====
-- Which requests of a session get git credentials (internal/git-https-proxy/proxy/proxy.go). Hosts
-- and paths are lists of code points. The dispatch on hosts is goproxy's.
pub mod Laws
use amalthea.Prelude.{
  ℕ, String, ◌<>◌, ◌⊎◌, inl, inr, Bool, true, false, ◌&&◌, not, List, [], ◌∷◌, ◌++◌, ◌==◌, ℕ_eq,
  String_eq, if◌then◌else◌, is_empty,
}
use amalthea.Time.{Time}
use amalthea.GitProxy.TokenStore.{Services, TokenStore, TokenError, get_git_access_token}

-- The parts of an address, as net/url gives them.
pub record Address : Type 0 where
  pub scheme : String
  pub hostname : List ℕ
  pub port : String
  pub path : List ℕ

unfoldable pub same_text : List ℕ → List ℕ → Bool
same_text [] [] = true
same_text (x ∷ xs) (y ∷ ys) = x == y && same_text xs ys
same_text _ _ = false

-- `strings.HasPrefix(s, prefix)`, and the pattern `^prefix`
unfoldable pub has_prefix : List ℕ → List ℕ → Bool
has_prefix s [] = true
has_prefix [] (p ∷ ps) = false
has_prefix (c ∷ s) (p ∷ ps) = c == p && has_prefix s ps

-- `strings.TrimLeft(s, "/")`
unfoldable pub trim_slashes : List ℕ → List ℕ
trim_slashes [] = []
trim_slashes (c ∷ s) = let rest = trim_slashes s in if c == b'/' then rest else c ∷ s

-- "www."
abbrev pub www : List ℕ
www = b'w' ∷ b'w' ∷ b'w' ∷ b'.' ∷ []

unfoldable pub hosts_match : Address → Address → Bool
unfolding same_text has_prefix
hosts_match a b =
    let a_contains_www = has_prefix a.hostname www in
    let b_contains_www = has_prefix b.hostname www in
    if a_contains_www && not b_contains_www
    then same_text a.hostname (www ++ b.hostname)
    else if not a_contains_www && b_contains_www
    then same_text (www ++ a.hostname) b.hostname
    else same_text a.hostname b.hostname

unfoldable pub get_port : Address → String
get_port a =
    if is_empty a.port
    then if a.scheme == "http" then "80" else if a.scheme == "https" then "443" else a.port
    else a.port

-- The request is one for the repository.
unfoldable pub is_valid_git_request : Address → Address → Bool
unfolding hosts_match get_port has_prefix trim_slashes
is_valid_git_request request repository =
    request.scheme == repository.scheme
    && hosts_match request repository
    && get_port request == get_port repository
    && has_prefix (trim_slashes request.path) (trim_slashes repository.path)

-- What is done with a request: it is let through as it is, or with credentials, or answered.
pub data Reaction : Type 0 where
  let_through unauthorized : Reaction
  authorized : String → Reaction

reaction_to : TokenStore × (String ⊎ TokenError) → TokenStore × Reaction
reaction_to (s, inl token) = (s, authorized ("Basic " <> token))
reaction_to (s, inr e) = (s, unauthorized)

-- The handler of a repository.
unfoldable pub handle :
    Services → Time → Time → String → Address → Address → TokenStore → TokenStore × Reaction
unfolding reaction_to is_valid_git_request
handle w now later provider repository request s =
    if not (is_valid_git_request request repository)
    then (s, let_through)
    else reaction_to (get_git_access_token w now later provider true s)
