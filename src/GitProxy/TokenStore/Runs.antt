-- ===== src/GitProxy/TokenStore/Runs.antt =====
-- The store over any sequence of requests and of rounds of the periodic refresh.
use amalthea.Prelude.{
  String, ◌≡◌, refl, ◌⊎◌, inl, inr, Bool, true, false, not, Option, none, some, ℕ_eq, String_eq,
  if◌then◌else◌, Bool-cases, is_empty, lookup,
}
use amalthea.Time.{Time}
use amalthea.GitProxy.TokenStore.{
  TokenSet, TokenError, RenkuTokens, Services, TokenStore, body_of, store_renku,
  refresh_renku_access_token, access_token_after, valid_access_token, get_valid_renku_access_token,
  store_git, exchange_with, provider_url, request_git, refresh_git_access_token, answer_with,
  get_git_access_token, tick, has_valid_token,
}

-- One operation of the store, whatever the clock shows.
pub data Step (w : Services) : TokenStore → TokenStore → Type 0 where
  request :
      (now later : Time) (provider : String) (encode : Bool) (s : TokenStore)
      → Step w s (get_git_access_token w now later provider encode s).0
  round : (now : Time) (s : TokenStore) → Step w s (tick w now s)

pub data Reachable (w : Services) (first : TokenStore) : TokenStore → Type 0 where
  start : Reachable w first first
  after : {s s' : TokenStore} → Reachable w first s → Step w s s' → Reachable w first s'

-- The store has a refresh token.
abbrev pub HasRefreshToken : TokenStore → Type 0
HasRefreshToken s = is_empty s.renku_refresh_token ≡ false

module _ (w : Services) (first_version : w.is_v2 ≡ false) where
  store_renku-HasRefreshToken :
      (s : TokenStore) (r : RenkuTokens ⊎ TokenError)
      → HasRefreshToken s
      → HasRefreshToken (store_renku w s r).0
  unfolding store_renku
  store_renku-HasRefreshToken s (inr e) h = h
  store_renku-HasRefreshToken s (inl t) h = elim (Bool-cases (is_empty t.refresh_token)) [
    | inl e ↦ rw e h
    | inr e ↦ rw e e
  ]

  refresh_renku-HasRefreshToken :
      (s : TokenStore) → HasRefreshToken s → HasRefreshToken (refresh_renku_access_token w s).0
  unfolding refresh_renku_access_token
  refresh_renku-HasRefreshToken s h =
      rw first_version (store_renku-HasRefreshToken s (body_of (w.refresh s.renku_refresh_token)) h)

  access_token_after-HasRefreshToken :
      (r : TokenStore × Option TokenError)
      → HasRefreshToken r.0
      → HasRefreshToken (access_token_after w r).0
  unfolding access_token_after
  access_token_after-HasRefreshToken (s, none) h = h
  access_token_after-HasRefreshToken (s, some e) h = h

  valid_access_token-HasRefreshToken :
      (s : TokenStore) (v : Bool ⊎ String)
      → HasRefreshToken s
      → HasRefreshToken (valid_access_token w s v).0
  unfolding valid_access_token
  valid_access_token-HasRefreshToken s (inr e) h = h
  valid_access_token-HasRefreshToken s (inl true) h = h
  valid_access_token-HasRefreshToken s (inl false) h =
      access_token_after-HasRefreshToken (refresh_renku_access_token w s)
        (refresh_renku-HasRefreshToken s h)

  store_git-HasRefreshToken :
      (provider : String) (s : TokenStore) (b : TokenSet ⊎ TokenError)
      → HasRefreshToken s
      → HasRefreshToken (store_git w provider s b).0
  unfolding store_git
  store_git-HasRefreshToken provider s (inl t) h = h
  store_git-HasRefreshToken provider s (inr e) h = h

  exchange_with-HasRefreshToken :
      (provider url : String) (r : TokenStore × (String ⊎ TokenError))
      → HasRefreshToken r.0
      → HasRefreshToken (exchange_with w provider url r).0
  unfolding exchange_with
  exchange_with-HasRefreshToken provider url (s, inr e) h = h
  exchange_with-HasRefreshToken provider url (s, inl token) h =
      store_git-HasRefreshToken provider s (body_of (w.exchange url token)) h

  request_git-HasRefreshToken :
      (now : Time) (provider url : String) (o : Option String) (s : TokenStore)
      → HasRefreshToken s
      → HasRefreshToken (request_git w now provider url o s).0
  unfolding request_git get_valid_renku_access_token
  request_git-HasRefreshToken now provider url (some e) s h = h
  request_git-HasRefreshToken now provider url none s h =
      exchange_with-HasRefreshToken provider url (get_valid_renku_access_token w now s)
        (valid_access_token-HasRefreshToken s _ h)

  answer_with-store :
      (encode : Bool) (provider : String) (r : TokenStore × Option TokenError)
      → (answer_with w encode provider r).0 ≡ r.0
  unfolding answer_with
  answer_with-store encode provider (s, none) = refl
  answer_with-store encode provider (s, some e) = refl

  either-HasRefreshToken :
      {A : Type 0} (b : Bool) (x y : TokenStore × A)
      → HasRefreshToken x.0
      → HasRefreshToken y.0
      → HasRefreshToken (if b then x else y).0
  either-HasRefreshToken true x y p q = p
  either-HasRefreshToken false x y p q = q

  chosen-HasRefreshToken :
      (b : Bool) (s s' : TokenStore)
      → HasRefreshToken s
      → HasRefreshToken s'
      → HasRefreshToken (if b then s else s')
  chosen-HasRefreshToken true s s' p q = p
  chosen-HasRefreshToken false s s' p q = q

  Step-HasRefreshToken : {s s' : TokenStore} → Step w s s' → HasRefreshToken s → HasRefreshToken s'
  unfolding get_git_access_token tick refresh_git_access_token
  Step-HasRefreshToken (request now later provider encode s) h =
      let url = provider_url w (lookup provider w.providers) in
      rw (answer_with-store encode provider _) (
        either-HasRefreshToken (not (has_valid_token w now provider s))
          (refresh_git_access_token w later provider s) (s, none)
          (request_git-HasRefreshToken later provider url (w.bad_address url) s h) h)
  Step-HasRefreshToken (round now s) h =
      chosen-HasRefreshToken _ (refresh_renku_access_token w s).0 s
        (refresh_renku-HasRefreshToken s h) h

  -- With the first version of the authentication a store that has a refresh token has one after any
  -- sequence of requests and rounds, whatever the services answer.
  pub Reachable-HasRefreshToken :
      (first s : TokenStore) → HasRefreshToken first → Reachable w first s → HasRefreshToken s
  Reachable-HasRefreshToken first s h start = h
  Reachable-HasRefreshToken first s h (after r step) =
      Step-HasRefreshToken step (Reachable-HasRefreshToken first _ h r)
