-- ===== src/GitProxy/Proxy/Laws.antt =====
-- Which hosts are the same, and when a request gets credentials.
use amalthea.Prelude.{
  ℕ, String, ◌<>◌, ◌≡◌, refl, sym, ap, ◌∙◌, ◌⊎◌, inl, inr, true, false, not, List, [], ◌∷◌, ◌++◌,
  arith, ◌==◌, ℕ_eq, String_eq, eq_iff, if◌then◌else◌, Bool-cases, is_empty, lookup,
}
use amalthea.Time.{Time}
use amalthea.GitProxy.TokenStore.{
  Services, TokenSet, body_of, provider_url, TokenStore, TokenError, git_token, has_valid_token,
}
use amalthea.GitProxy.TokenStore.Laws.{sent_as, get_git_access_token_lem, IsFreshAnswer}
use amalthea.GitProxy.Proxy.{
  Address, same_text, has_prefix, www, hosts_match, get_port, trim_slashes, is_valid_git_request,
  Reaction, let_through, unauthorized, authorized, reaction_to, handle,
}

-- A host without the prefix, if it has it.
unfoldable pub without_www : List ℕ → List ℕ
unfolding has_prefix
without_www host = if has_prefix host www then drop_four host else host
  where
    drop_four : List ℕ → List ℕ
    drop_four (a ∷ b ∷ c ∷ d ∷ rest) = rest
    drop_four other = other

-- A host without the prefix, or one with it.
IsPlain : List ℕ → Type 0
IsPlain host = (has_prefix host www ≡ false) × (without_www host ≡ host)

IsWww : List ℕ → List ℕ → Type 0
IsWww host rest = (host ≡ www ++ rest) × (has_prefix host www ≡ true) × (without_www host ≡ rest)

IsWww-cases : (host : List ℕ) → IsPlain host ⊎ ((rest : List ℕ) × IsWww host rest)
unfolding IsPlain IsWww without_www has_prefix
IsWww-cases [] = inl (refl, refl)
IsWww-cases (a ∷ []) = ground arith
IsWww-cases (a ∷ b ∷ []) = ground arith
IsWww-cases (a ∷ b ∷ c ∷ []) = ground arith
IsWww-cases (a ∷ b ∷ c ∷ d ∷ rest) = ground arith

-- Two hosts match exactly when they are the same once a prefix "www." is dropped from each that has
-- it.
pub hosts_match_lem :
    (a b : Address) → hosts_match a b ≡ same_text (without_www a.hostname) (without_www b.hostname)
unfolding hosts_match IsPlain IsWww same_text
hosts_match_lem a b = by_cases (IsWww-cases a.hostname) (IsWww-cases b.hostname)
  where
    by_cases :
        IsPlain a.hostname ⊎ ((rest : List ℕ) × IsWww a.hostname rest)
        → IsPlain b.hostname ⊎ ((rest : List ℕ) × IsWww b.hostname rest)
        → hosts_match a b ≡ same_text (without_www a.hostname) (without_www b.hostname)
    by_cases (inl p) (inl q) = ground arith
    by_cases (inl p) (inr (r, q)) = rw (p.0, q.1, p.1, q.2, q.0, same_text)
    by_cases (inr (r, p)) (inl q) = rw (p.1, q.0, p.2, q.1, p.0, same_text)
    by_cases (inr (r, p)) (inr (t, q)) = rw (p.1, q.1, p.2, q.2, p.0, q.0, same_text)

-- A request is answered as unauthorized and the git tokens stay as they are, or it gets a token
-- that the provider's address has just given for the Renku token of the store.
abbrev pub IsFreshReaction : Services → String → TokenStore → TokenStore × Reaction → Type 0
IsFreshReaction w provider s (s', reaction) =
    ((reaction ≡ unauthorized) × (s'.git_access_tokens ≡ s.git_access_tokens))
    ⊎ ((t : TokenSet) × (reaction ≡ authorized ("Basic " <> sent_as w true t.access_token))
        × (body_of (w.exchange (provider_url w (lookup provider w.providers)) s'.renku_access_token)
            ≡ inl t))

reaction_to-IsFreshReaction :
    (w : Services) (provider : String) (s : TokenStore) (r : TokenStore × (String ⊎ TokenError))
    → IsFreshAnswer w provider true s r
    → IsFreshReaction w provider s (reaction_to r)
unfolding reaction_to
reaction_to-IsFreshReaction w provider s (s', inr e) h = inl (refl, h)
reaction_to-IsFreshReaction w provider s (s', inl sent) (t, e, b, g) =
    inr (t, ap (λ x. authorized ("Basic " <> x)) e, b)

same_text-eq : (xs ys : List ℕ) → same_text xs ys ≡ true → xs ≡ ys
unfolding same_text
same_text-eq [] [] h = refl
same_text-eq [] (y ∷ ys) h = ground arith
same_text-eq (x ∷ xs) [] h = ground arith
same_text-eq (x ∷ xs) (y ∷ ys) h = ground (arith, same_text-eq xs ys)

same_text_refl : (xs : List ℕ) → same_text xs xs ≡ true
unfolding same_text
same_text_refl [] = refl
same_text_refl (x ∷ xs) = ground (arith, same_text_refl xs)

has_prefix-split :
    (s prefix : List ℕ) → has_prefix s prefix ≡ true → (rest : List ℕ) × (s ≡ prefix ++ rest)
unfolding has_prefix
has_prefix-split s [] h = (s, refl)
has_prefix-split [] (p ∷ ps) h = ground arith
has_prefix-split (c ∷ s) (p ∷ ps) h =
    let rest = has_prefix-split s ps (ground arith) in
    let same : c ≡ p = ground arith in
    (rest.0, ap (λ r. c ∷ r) rest.1 ∙ ap (λ x. x ∷ (ps ++ rest.0)) same)

has_prefix-append : (prefix rest : List ℕ) → has_prefix (prefix ++ rest) prefix ≡ true
unfolding has_prefix
has_prefix-append [] rest = refl
has_prefix-append (p ∷ ps) rest = ground (arith, has_prefix-append ps rest)

-- The port of an address: the one that it names, or the usual one of its scheme.
abbrev pub port_of : Address → String
port_of a =
    if not (is_empty a.port)
    then a.port
    else if a.scheme == "http"
    then "80"
    else if a.scheme == "https"
    then "443"
    else ""

-- A text that is empty.
is_empty-eq : (s : String) → is_empty s ≡ true → s ≡ ""
is_empty-eq String.[] h = refl
is_empty-eq (String.◌∷◌ c s) h = ground arith

get_port-port_of : (a : Address) → get_port a ≡ port_of a
unfolding get_port
get_port-port_of a =
    ground (arith, is_empty-eq a.port, eq_iff a.scheme "http", eq_iff a.scheme "https")

-- A request is for a repository: the scheme is the same, the hosts are but for a prefix "www.", the
-- ports are, and the path begins with that of the repository, but for the slashes that both begin
-- with.
pub record IsForRepository (request repository : Address) : Type 0 where
  pub scheme : request.scheme ≡ repository.scheme
  pub host : without_www request.hostname ≡ without_www repository.hostname
  pub port : port_of request ≡ port_of repository
  pub path : (rest : List ℕ) × (trim_slashes request.path ≡ trim_slashes repository.path ++ rest)

valid-IsForRepository :
    (request repository : Address)
    → is_valid_git_request request repository ≡ true
    → IsForRepository request repository
unfolding is_valid_git_request
valid-IsForRepository request repository h =
    let hosts : hosts_match request repository ≡ true = ground arith in
    let ports : (get_port request == get_port repository) ≡ true = ground arith in
    let paths : has_prefix (trim_slashes request.path) (trim_slashes repository.path) ≡ true =
      ground arith in
    record {
      scheme = ground (arith, eq_iff request.scheme repository.scheme);
      host = same_text-eq _ _ (sym (hosts_match_lem request repository) ∙ hosts);
      port =
          sym (get_port-port_of request)
          ∙ ground (arith, eq_iff (get_port request) (get_port repository))
          ∙ get_port-port_of repository;
      path = has_prefix-split _ _ paths;
    }

IsForRepository-valid :
    (request repository : Address)
    → IsForRepository request repository
    → is_valid_git_request request repository ≡ true
unfolding is_valid_git_request
IsForRepository-valid request repository h =
    let scheme = h.scheme in
    let hosts : hosts_match request repository ≡ true =
      hosts_match_lem request repository
      ∙ ap (λ x. same_text x (without_www repository.hostname)) h.host
      ∙ same_text_refl (without_www repository.hostname) in
    let ports : get_port request ≡ get_port repository =
      get_port-port_of request ∙ h.port ∙ sym (get_port-port_of repository) in
    let paths : has_prefix (trim_slashes request.path) (trim_slashes repository.path) ≡ true =
      rw (h.path.1) (has_prefix-append (trim_slashes repository.path) h.path.0) in
    ground (
      arith,
      eq_iff request.scheme repository.scheme,
      eq_iff (get_port request) (get_port repository),
    )

-- A request that is not for the repository, by scheme, host, port and path, is let through and
-- changes nothing. One that is for it never goes through without credentials: it gets the stored
-- token of the provider if that can still be used, and else a fresh one or the answer that it is
-- unauthorized.
pub handle_lem :
    (w : Services) (now later : Time) (provider : String) (repository request : Address)
    (s : TokenStore)
    → (¬ IsForRepository request repository
        → handle w now later provider repository request s ≡ (s, let_through))
      × (IsForRepository request repository
          → has_valid_token w now provider s ≡ true
          → handle w now later provider repository request s
            ≡ (s, authorized ("Basic " <> sent_as w true (git_token w provider s))))
      × (IsForRepository request repository
          → has_valid_token w now provider s ≡ false
          → IsFreshReaction w provider s (handle w now later provider repository request s))
unfolding handle
handle_lem w now later provider repository request s =
    let token = get_git_access_token_lem w now later provider true s in
    (
      λ other. elim (Bool-cases (is_valid_git_request request repository)) [
        | inl valid ↦ elim (other (valid-IsForRepository request repository valid)) [ ]
        | inr invalid ↦ rw invalid refl
      ],
      λ own v. rw (IsForRepository-valid request repository own) (ap reaction_to (token.0 v)),
      λ own v.
          rw (IsForRepository-valid request repository own)
            (reaction_to-IsFreshReaction w provider s _ (token.1 v)),
    )
