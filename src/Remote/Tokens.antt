-- ===== src/Remote/Tokens.antt =====
-- The tokens for the APIs of remote clusters (internal/remote/firecrest/auth and
-- internal/remote/runai/auth). The HTTP services and the parsing of tokens are parameters. A caller
-- holds the lock of a cache in one step, and callers take their steps in any order.
pub mod Renku
pub mod Laws
use amalthea.Prelude.{
  ℕ, suc, ◌+◌, ◌-◌, String, ◌⊎◌, inl, inr, Bool, false, ◌&&◌, ◌||◌, not, Option, none, some, ltb,
  leb, if◌then◌else◌, is_empty,
}
use Prim.Native.Nat.{◌*◌}
use amalthea.Time.{Time, ℤ, pos, negsuc, add, second}
use amalthea.GitProxy.Expiry.{is_not_expired}
use amalthea.GitProxy.TokenStore.{
  HttpAnswer, unreachable, answered, TokenError, failure, bad_status, body_of,
}

pub record TokenResponse : Type 0 where
  pub access_token : String
  pub expires_in : ℤ
  pub refresh_token : String

pub record TokenResult : Type 0 where
  pub access_token : String
  pub expires_at : Time
  pub refresh_token : String

-- A request fails, or the process panics.
pub data TokenFailure : Type 0 where
  failed : TokenError → TokenFailure
  panicked : TokenFailure

-- The body of an answer with a status from 200 to 299.
unfoldable pub success_body : {A : Type 0} → HttpAnswer A → A ⊎ TokenFailure
success_body (unreachable e) = inr (failed (failure e))
success_body (answered code body) =
    if ltb code 200 || leb 300 code
    then inr (failed (bad_status code))
    else elim body [ inl a ↦ inl a | inr e ↦ inr (failed (failure e)) ]

-- `time.Now().Add(time.Second * time.Duration(n))`
unfoldable pub in_seconds : Time → ℤ → Time
in_seconds now (pos n) = now + n * second
in_seconds now (negsuc n) = now - suc n * second

-- The expiry is the one that the token claims, or, where the token is no JWT, that of the answer; a
-- JWT that claims no expiry is a nil pointer that is followed.
unfoldable pub result_at :
    Time → TokenResponse → (Option Time) ⊎ String → TokenResult ⊎ TokenFailure
unfolding in_seconds
result_at now t (inl none) = inr panicked
result_at now t (inl (some expires_at)) = inl (record {
  access_token = t.access_token;
  expires_at = expires_at;
  refresh_token = t.refresh_token;
})
result_at now t (inr e) = inl (record {
  access_token = t.access_token;
  expires_at = in_seconds now t.expires_in;
  refresh_token = t.refresh_token;
})

unfoldable pub parsed_at :
    (String → (Option Time) ⊎ String)
    → Time
    → TokenResponse ⊎ TokenFailure
    → TokenResult ⊎ TokenFailure
unfolding result_at
parsed_at claims now (inr e) = inr e
parsed_at claims now (inl t) = result_at now t (claims t.access_token)

-- FirecREST's and Renku's services; `claims` reads the expiry that a token claims.
unfoldable pub request_new_access_token :
    (String → (Option Time) ⊎ String) → Time → HttpAnswer TokenResponse → TokenResult ⊎ TokenFailure
unfolding parsed_at success_body
request_new_access_token claims now answer = parsed_at claims now (success_body answer)

-- Run:ai's service, whose answer has the status 200 and whose tokens are not parsed.
unfoldable pub runai_result : Time → TokenResponse ⊎ TokenError → TokenResult ⊎ TokenFailure
unfolding in_seconds
runai_result now (inr e) = inr (failed e)
runai_result now (inl t) = inl (record {
  access_token = t.access_token;
  expires_at = in_seconds now t.expires_in;
  refresh_token = "";
})

-- The fields that a lock guards.
pub record TokenCache : Type 0 where
  pub access_token : String
  pub expires_at : Time

-- A token that is there and does not expire within ten seconds; one with no expiry is taken to last.
unfoldable pub is_usable : Time → TokenCache → Bool
unfolding is_not_expired
is_usable now cache =
    not (is_empty cache.access_token)
    && is_not_expired now cache.expires_at (pos (10 * second)) false

-- Where a caller of `GetAccessToken` is.
pub data Caller : Type 0 where
  checking : Caller
  refreshing : Caller
  reading : Caller
  finished : String ⊎ TokenFailure → Caller

-- The cache, and how often the service was asked.
pub record Shared : Type 0 where
  pub cache : TokenCache
  pub requests : ℕ

abbrev pub stored : TokenResult → TokenCache
stored t = record { access_token = t.access_token; expires_at = t.expires_at }

module _ (now : Time) (answer : TokenResult ⊎ TokenFailure) where
  checked_cache : Shared → Caller × Shared
  unfolding is_usable
  checked_cache sh =
      if is_usable now sh.cache
      then (finished (inl sh.cache.access_token), sh)
      else (refreshing, sh)

  firecrest_refresh : Shared → TokenResult ⊎ TokenFailure → Caller × Shared
  firecrest_refresh sh (inr e) = (finished (inr e), record sh { requests = sh.requests + 1 })
  firecrest_refresh sh (inl t) = (reading, record { cache = stored t; requests = sh.requests + 1 })

  -- One step of a caller of FirecREST's authentication.
  unfoldable pub firecrest_step : Caller → Shared → Caller × Shared
  unfolding checked_cache firecrest_refresh
  firecrest_step checking sh = checked_cache sh
  firecrest_step refreshing sh = firecrest_refresh sh answer
  firecrest_step reading sh = (finished (inl sh.cache.access_token), sh)
  firecrest_step (finished r) sh = (finished r, sh)

  runai_request : Shared → TokenResult ⊎ TokenFailure → Caller × Shared
  runai_request sh (inr e) = (finished (inr e), record sh { requests = sh.requests + 1 })
  runai_request sh (inl t) =
      (finished (inl t.access_token), record { cache = stored t; requests = sh.requests + 1 })

  -- One step of a caller of Run:ai's authentication, which looks again once it holds the lock.
  unfoldable pub runai_step : Caller → Shared → Caller × Shared
  unfolding checked_cache runai_request is_usable
  runai_step checking sh = checked_cache sh
  runai_step refreshing sh =
      if is_usable now sh.cache
      then (finished (inl sh.cache.access_token), sh)
      else runai_request sh answer
  runai_step reading sh = (finished (inl sh.cache.access_token), sh)
  runai_step (finished r) sh = (finished r, sh)
