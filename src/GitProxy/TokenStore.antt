-- ===== src/GitProxy/TokenStore.antt =====
-- The tokens of the proxy (internal/git-https-proxy/tokenstore/tokenstore.go). The HTTP services and
-- the encodings are parameters. An operation runs as a whole: what two of them that run at the same
-- time can do between the locks of each other is not modelled.
pub mod Laws
pub mod Runs
use amalthea.Prelude.{
  ℕ, String, ◌<>◌, ◌⊎◌, inl, inr, Bool, false, not, Option, none, some, ◌==◌, ℕ_eq, String_eq,
  if◌then◌else◌, holds, is_empty, StringMap, lookup, insert,
}
use amalthea.Time.{Time, Duration, ℤ}
use amalthea.GitProxy.Expiry.{unix, is_not_expired, verify_jwt_expires_at}

pub record TokenSet : Type 0 where
  pub access_token : String
  pub expires_at : ℤ

-- The answer of a service: it cannot be asked, or it gives a status and a body, which may fail to be
-- decoded.
pub data HttpAnswer (A : Type 0) : Type 0 where
  unreachable : String → HttpAnswer A
  answered : ℕ → A ⊎ String → HttpAnswer A

pub data TokenError : Type 0 where
  failure : String → TokenError
  bad_status : ℕ → TokenError

pub record RenkuTokens : Type 0 where
  pub access_token : String
  pub refresh_token : String

-- The configuration, and what is outside of the store. `refresh` and `refresh_v2` are asked with a
-- refresh token, `exchange` with the address of a provider and an access token.
pub record Services : Type 0 where
  pub is_v2 : Bool
  pub providers : StringMap String
  pub expiration_leeway : Duration
  pub claims : String → (Option Time) ⊎ String
  pub refresh : String → HttpAnswer RenkuTokens
  pub refresh_v2 : String → HttpAnswer RenkuTokens
  pub bad_address : String → Option String
  pub exchange : String → String → HttpAnswer TokenSet
  pub base64 : String → String

-- The fields of the store that change.
pub record TokenStore : Type 0 where
  pub renku_access_token : String
  pub renku_refresh_token : String
  pub git_access_tokens : StringMap TokenSet

-- The decoded body of an answer with the status 200, or the error.
unfoldable pub body_of : {A : Type 0} → HttpAnswer A → A ⊎ TokenError
body_of (unreachable e) = inr (failure e)
body_of (answered code (inl a)) = if code == 200 then inl a else inr (bad_status code)
body_of (answered code (inr e)) = if code == 200 then inr (failure e) else inr (bad_status code)

module _ (w : Services) where
  -- The tokens of the first version: a refresh token that is not given is kept.
  store_renku : TokenStore → RenkuTokens ⊎ TokenError → TokenStore × Option TokenError
  store_renku s (inr e) = (s, some e)
  store_renku s (inl t) = (
    record s {
      renku_access_token = t.access_token;
      renku_refresh_token =
          if is_empty t.refresh_token then s.renku_refresh_token else t.refresh_token;
    },
    none,
  )

  store_renku_v2 : TokenStore → RenkuTokens ⊎ TokenError → TokenStore × Option TokenError
  store_renku_v2 s (inr e) = (s, some e)
  store_renku_v2 s (inl t) = (
    record s { renku_access_token = t.access_token; renku_refresh_token = t.refresh_token },
    none,
  )

  unfoldable pub refresh_renku_access_token_v2 : TokenStore → TokenStore × Option TokenError
  unfolding store_renku_v2 body_of
  refresh_renku_access_token_v2 s = store_renku_v2 s (body_of (w.refresh_v2 s.renku_refresh_token))

  unfoldable pub refresh_renku_access_token : TokenStore → TokenStore × Option TokenError
  unfolding store_renku body_of refresh_renku_access_token_v2
  refresh_renku_access_token s =
      if w.is_v2
      then refresh_renku_access_token_v2 s
      else store_renku s (body_of (w.refresh s.renku_refresh_token))

  access_token_after : TokenStore × Option TokenError → TokenStore × (String ⊎ TokenError)
  access_token_after (s, none) = (s, inl s.renku_access_token)
  access_token_after (s, some e) = (s, inr e)

  valid_access_token : TokenStore → Bool ⊎ String → TokenStore × (String ⊎ TokenError)
  unfolding access_token_after refresh_renku_access_token
  valid_access_token s (inr e) = (s, inr (failure e))
  valid_access_token s (inl is_valid) =
      if not is_valid
      then access_token_after (refresh_renku_access_token s)
      else (s, inl s.renku_access_token)

  unfoldable pub get_valid_renku_access_token :
      Time → TokenStore → TokenStore × (String ⊎ TokenError)
  unfolding valid_access_token verify_jwt_expires_at
  get_valid_renku_access_token now s =
      valid_access_token s
        (verify_jwt_expires_at w.claims now s.renku_access_token w.expiration_leeway false)

  store_git : String → TokenStore → TokenSet ⊎ TokenError → TokenStore × Option TokenError
  store_git provider s (inr e) = (s, some e)
  store_git provider s (inl t) =
      (record s { git_access_tokens = insert provider t s.git_access_tokens }, none)

  exchange_with :
      String → String → TokenStore × (String ⊎ TokenError) → TokenStore × Option TokenError
  unfolding store_git body_of
  exchange_with provider url (s, inr e) = (s, some e)
  exchange_with provider url (s, inl token) = store_git provider s (body_of (w.exchange url token))

  -- The address of a provider that is not known is empty.
  unfoldable pub provider_url : Option String → String
  provider_url none = ""
  provider_url (some url) = url

  request_git : Time → String → String → Option String → TokenStore → TokenStore × Option TokenError
  unfolding exchange_with get_valid_renku_access_token
  request_git now provider url (some e) s = (s, some (failure e))
  request_git now provider url none s =
      exchange_with provider url (get_valid_renku_access_token now s)

  unfoldable pub refresh_git_access_token :
      Time → String → TokenStore → TokenStore × Option TokenError
  unfolding request_git provider_url
  refresh_git_access_token now provider s =
      let url = provider_url (lookup provider w.providers) in
      request_git now provider url (w.bad_address url) s

  unfoldable pub encode_git_credentials : String → String
  encode_git_credentials token = w.base64 ("oauth2:" <> token)

  -- The access token of a provider; the zero value of a token that is not there is empty.
  unfoldable pub git_token : String → TokenStore → String
  unfolding lookup
  git_token provider s = elim (lookup provider s.git_access_tokens) [
    | none ↦ ""
    | some t ↦ t.access_token
  ]

  -- The token that the store has can be used at the time `now`.
  unfoldable pub has_valid_token : Time → String → TokenStore → Bool
  unfolding is_not_expired unix
  has_valid_token now provider s =
      holds (lookup provider s.git_access_tokens)
        (λ t. is_not_expired now (unix t.expires_at) w.expiration_leeway false)

  answer_with : Bool → String → TokenStore × Option TokenError → TokenStore × (String ⊎ TokenError)
  unfolding encode_git_credentials git_token
  answer_with encode provider (s, some e) = (s, inr e)
  answer_with encode provider (s, none) = (
    s,
    inl (if encode then encode_git_credentials (git_token provider s) else git_token provider s),
  )

  -- `now` is the reading of the clock for the git token, `later` that for the Renku token.
  unfoldable pub get_git_access_token :
      Time → Time → String → Bool → TokenStore → TokenStore × (String ⊎ TokenError)
  unfolding answer_with refresh_git_access_token has_valid_token
  get_git_access_token now later provider encode s = answer_with encode provider (
      if not (has_valid_token now provider s)
      then refresh_git_access_token later provider s
      else (s, none))

  is_valid_or_error : Bool ⊎ String → Bool
  is_valid_or_error (inl is_valid) = is_valid
  is_valid_or_error (inr e) = false

  -- One round of `periodicTokenRefresh`; its errors are logged only.
  unfoldable pub tick : Time → TokenStore → TokenStore
  unfolding is_valid_or_error refresh_renku_access_token verify_jwt_expires_at
  tick now s =
      if not (
        is_valid_or_error
          (verify_jwt_expires_at w.claims now s.renku_refresh_token w.expiration_leeway false))
      then (refresh_renku_access_token s).0
      else s
