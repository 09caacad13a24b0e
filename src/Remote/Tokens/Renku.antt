-- ===== src/Remote/Tokens/Renku.antt =====
-- The tokens that are had for a token of Renku (internal/remote/firecrest/auth/renku.go). An
-- operation runs as a whole.
pub mod Laws
use amalthea.Prelude.{String, ◌⊎◌, inl, inr, Bool, false, Option, none, some, if◌then◌else◌}
use Prim.Native.Nat.{◌*◌}
use amalthea.Time.{Time, pos, second}
use amalthea.GitProxy.Expiry.{verify_jwt_expires_at}
use amalthea.GitProxy.TokenStore.{HttpAnswer, TokenError, RenkuTokens, body_of}
use amalthea.Remote.Tokens.{
  TokenResponse, TokenResult, TokenFailure, failed, panicked, request_new_access_token, TokenCache,
  is_usable, stored,
}

-- The configuration, and what is outside. `firecrest` is asked with a token of Renku, `refresh` and
-- `refresh_v2` with a refresh token.
pub record Services : Type 0 where
  pub is_v2 : Bool
  pub claims : String → (Option Time) ⊎ String
  pub firecrest : String → HttpAnswer TokenResponse
  pub refresh : String → HttpAnswer TokenResponse
  pub refresh_v2 : String → HttpAnswer RenkuTokens

pub record RenkuAuth : Type 0 where
  pub renku : TokenCache
  pub renku_refresh_token : String
  pub cache : TokenCache

module _ (w : Services) where
  stored_renku : RenkuAuth → TokenResult ⊎ TokenFailure → RenkuAuth × Option TokenFailure
  stored_renku a (inr e) = (a, some e)
  stored_renku a (inl t) = (record a { renku = stored t }, none)

  -- The tokens are stored before the expiry is read.
  expiry_of : RenkuAuth → RenkuTokens → (Option Time) ⊎ String → RenkuAuth × Option TokenFailure
  expiry_of a t (inr e) = (
    record a {
      renku = record (a.renku) { access_token = t.access_token };
      renku_refresh_token = t.refresh_token;
    },
    some (failed (TokenError.failure e)),
  )
  expiry_of a t (inl none) = (
    record a {
      renku = record (a.renku) { access_token = t.access_token };
      renku_refresh_token = t.refresh_token;
    },
    some panicked,
  )
  expiry_of a t (inl (some expires_at)) = (
    record a {
      renku = record { access_token = t.access_token; expires_at = expires_at };
      renku_refresh_token = t.refresh_token;
    },
    none,
  )

  stored_renku_v2 : RenkuAuth → RenkuTokens ⊎ TokenError → RenkuAuth × Option TokenFailure
  unfolding expiry_of
  stored_renku_v2 a (inr e) = (a, some (failed e))
  stored_renku_v2 a (inl t) = expiry_of a t (w.claims t.access_token)

  unfoldable pub refresh_renku_access_token : Time → RenkuAuth → RenkuAuth × Option TokenFailure
  unfolding stored_renku stored_renku_v2 request_new_access_token body_of
  refresh_renku_access_token now a =
      if w.is_v2
      then stored_renku_v2 a (body_of (w.refresh_v2 a.renku_refresh_token))
      else stored_renku a (request_new_access_token w.claims now (w.refresh a.renku_refresh_token))

  renku_token_after : RenkuAuth × Option TokenFailure → RenkuAuth × (String ⊎ TokenFailure)
  renku_token_after (a, some e) = (a, inr e)
  renku_token_after (a, none) = (a, inl a.renku.access_token)

  unfoldable pub get_renku_access_token : Time → RenkuAuth → RenkuAuth × (String ⊎ TokenFailure)
  unfolding renku_token_after refresh_renku_access_token is_usable
  get_renku_access_token now a =
      if is_usable now a.renku
      then (a, inl a.renku.access_token)
      else renku_token_after (refresh_renku_access_token now a)

  stored_token : RenkuAuth → TokenResult ⊎ TokenFailure → RenkuAuth × (String ⊎ TokenFailure)
  stored_token a (inr e) = (a, inr e)
  stored_token a (inl t) = (record a { cache = stored t }, inl t.access_token)

  with_renku_token :
      Time → RenkuAuth × (String ⊎ TokenFailure) → RenkuAuth × (String ⊎ TokenFailure)
  unfolding stored_token request_new_access_token
  with_renku_token now (a, inr e) = (a, inr e)
  with_renku_token now (a, inl token) =
      stored_token a (request_new_access_token w.claims now (w.firecrest token))

  -- The clock is read once.
  unfoldable pub get_access_token : Time → RenkuAuth → RenkuAuth × (String ⊎ TokenFailure)
  unfolding with_renku_token get_renku_access_token is_usable
  get_access_token now a =
      if is_usable now a.cache
      then (a, inl a.cache.access_token)
      else with_renku_token now (get_renku_access_token now a)

  valid_or_error : Bool ⊎ String → Bool
  valid_or_error (inl is_valid) = is_valid
  valid_or_error (inr e) = false

  -- One round of `periodicTokenRefresh`; its errors are logged only.
  unfoldable pub tick : Time → RenkuAuth → RenkuAuth
  unfolding valid_or_error refresh_renku_access_token verify_jwt_expires_at
  tick now a =
      if valid_or_error
        (verify_jwt_expires_at w.claims now a.renku_refresh_token (pos (240 * second)) false)
      then a
      else (refresh_renku_access_token now a).0
