-- ===== src/Tests/Tokens.antt =====
-- What the theorems on tokens say of concrete ones.
use amalthea.Prelude.{◌≤◌, ◌≡◌, refl, inl, inr, false, ℕ_eq, String_eq}
use amalthea.Time.{pos}
use amalthea.GitProxy.TokenStore.{answered}
use amalthea.GitProxy.Expiry.{is_not_expired}
use amalthea.Remote.Tokens.{
  TokenResult, is_usable, TokenCache, checking, refreshing, Shared, runai_step,
}
use amalthea.Remote.Tokens.Laws.{Steps, runai_step-asks_once}
use amalthea.Remote.Tokens.Laws
use amalthea.Remote.Tokens.Renku.{Services, RenkuAuth, get_access_token, tick}
use amalthea.Remote.Tokens.Renku.Laws.{request, round, Reachable-refresh_token}
use amalthea.Remote.Tokens.Renku.Laws as RenkuLaws

abbrev a_result : TokenResult
a_result = record { access_token = "new"; expires_at = 100_000_000_000; refresh_token = "" }

abbrev an_empty_cache : TokenCache
an_empty_cache = record { access_token = ""; expires_at = 0 }

abbrev nothing_asked : Shared
nothing_asked = record { cache = an_empty_cache; requests = 0 }

-- Two callers look at the cache, and then both go on to refresh it.
abbrev both_asked : Shared
both_asked =
    let step = runai_step 1000 (inl a_result) in
    (step refreshing (step refreshing (step checking (step checking nothing_asked).1).1).1).1

runai_step-asks_once_example : both_asked.requests ≤ 1
unfolding is_usable is_not_expired
runai_step-asks_once_example =
    runai_step-asks_once 1000 a_result nothing_asked both_asked refl refl (
      Laws.after (Laws.after (Laws.after (Laws.after Laws.start checking) checking) refreshing)
        refreshing)

abbrev some_tokens : Services
some_tokens = record {
  is_v2 = false;
  claims = λ t. inr "not a JWT";
  firecrest = λ t.
      answered 200
        (inl (record { access_token = "hpc"; expires_in = pos 300; refresh_token = "" }));
  refresh = λ t. answered 200 (
      inl (record { access_token = "renku-2"; expires_in = pos 300; refresh_token = "refresh-2" }));
  refresh_v2 =
      λ t. answered 200 (inl (record { access_token = "renku-2"; refresh_token = "refresh-2" }));
}

abbrev an_auth : RenkuAuth
an_auth = record {
  renku = an_empty_cache;
  renku_refresh_token = "refresh-1";
  cache = an_empty_cache;
}

Reachable-refresh_token_example :
    (tick some_tokens 2000 (get_access_token some_tokens 1000 an_auth).0).renku_refresh_token
    ≡ "refresh-1"
Reachable-refresh_token_example =
    Reachable-refresh_token some_tokens refl an_auth
      (tick some_tokens 2000 (get_access_token some_tokens 1000 an_auth).0)
      (RenkuLaws.after (RenkuLaws.after RenkuLaws.start (request 1000 an_auth)) (round 2000 _))
