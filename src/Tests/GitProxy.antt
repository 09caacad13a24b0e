-- ===== src/Tests/GitProxy.antt =====
-- What the theorems on the git proxy say of a concrete store.
use amalthea.Prelude.{
  ◌<>◌, ◌≡◌, refl, inl, Bool, true, false, none, [], ◌∷◌, ◌++◌, ℕ_eq, String_eq, lookup,
}
use amalthea.Time.{pos}
use amalthea.GitProxy.TokenStore.{
  TokenSet, answered, Services, TokenStore, has_valid_token, git_token, get_git_access_token, tick,
}
use amalthea.GitProxy.TokenStore.Laws.{sent_as, IsFreshAnswer, get_git_access_token_lem}
use amalthea.GitProxy.TokenStore.Runs.{
  HasRefreshToken, start, after, request, round, Reachable-HasRefreshToken,
}
use amalthea.GitProxy.Proxy.{Address, is_valid_git_request, handle, let_through, authorized, www}
use amalthea.GitProxy.Proxy.Laws.{handle_lem, IsForRepository, IsFreshReaction}

abbrev a_token_set : TokenSet
a_token_set = record { access_token = "gl-1"; expires_at = pos 1_700_000_000 }

-- Services that know one provider, and give no new refresh token.
abbrev some_services : Bool → Services
some_services v2 = record {
  is_v2 = v2;
  providers = ("gitlab", "https://renku/token") ∷ [];
  expiration_leeway = pos 0;
  claims = λ t. inl none;
  refresh = λ t. answered 200 (inl (record { access_token = "access-2"; refresh_token = "" }));
  refresh_v2 = λ t. answered 200 (inl (record { access_token = "access-2"; refresh_token = "" }));
  bad_address = λ url. none;
  exchange = λ url t. answered 200 (inl a_token_set);
  base64 = λ s. s;
}

abbrev a_store : TokenStore
a_store = record {
  renku_access_token = "access-1";
  renku_refresh_token = "refresh-1";
  git_access_tokens = [];
}

get_git_access_token_lem_example :
    let w = some_services false in
    (has_valid_token w 100 "gitlab" a_store ≡ true
      → get_git_access_token w 100 200 "gitlab" true a_store
        ≡ (a_store, inl (sent_as w true (git_token w "gitlab" a_store))))
    × (has_valid_token w 100 "gitlab" a_store ≡ false
        → IsFreshAnswer w "gitlab" true a_store
            (get_git_access_token w 100 200 "gitlab" true a_store))
get_git_access_token_lem_example =
    get_git_access_token_lem (some_services false) 100 200 "gitlab" true a_store

Reachable-HasRefreshToken_example : HasRefreshToken (
    tick
      (some_services false)
      300
      (get_git_access_token (some_services false) 100 200 "gitlab" true a_store).0)
Reachable-HasRefreshToken_example =
    Reachable-HasRefreshToken (some_services false) refl a_store
      (tick (some_services false) 300
        (get_git_access_token (some_services false) 100 200 "gitlab" true a_store).0)
      refl (after (after start (request 100 200 "gitlab" true a_store)) (round 300 _))

-- https://git.org/team and https://www.git.org:443/team
abbrev a_repository : Address
a_repository = record {
  scheme = "https";
  hostname = b'g' ∷ b'i' ∷ b't' ∷ [];
  port = "";
  path = b'/' ∷ b'a' ∷ [];
}

abbrev a_request : Address
a_request = record a_repository { hostname = www ++ a_repository.hostname; port = "443" }

handle_lem_example :
    let w = some_services false in
    (¬ IsForRepository a_request a_repository
      → handle w 100 200 "gitlab" a_repository a_request a_store ≡ (a_store, let_through))
    × (IsForRepository a_request a_repository
        → has_valid_token w 100 "gitlab" a_store ≡ true
        → handle w 100 200 "gitlab" a_repository a_request a_store
          ≡ (a_store, authorized ("Basic " <> sent_as w true (git_token w "gitlab" a_store))))
    × (IsForRepository a_request a_repository
        → has_valid_token w 100 "gitlab" a_store ≡ false
        → IsFreshReaction w "gitlab" a_store
            (handle w 100 200 "gitlab" a_repository a_request a_store))
handle_lem_example =
    handle_lem (some_services false) 100 200 "gitlab" a_repository a_request a_store

-- Tests on concrete inputs.
is_valid_git_request_test : is_valid_git_request a_request a_repository ≡ true
unfolding is_valid_git_request
is_valid_git_request_test = refl

has_valid_token_test : has_valid_token (some_services false) 100 "gitlab" a_store ≡ false
unfolding has_valid_token lookup
has_valid_token_test = refl
