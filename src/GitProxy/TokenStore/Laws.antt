-- ===== src/GitProxy/TokenStore/Laws.antt =====
-- Which git token a request gets, and what happens to the tokens that are stored.
use amalthea.Prelude.{
  String, ◌≡◌, refl, ap, ◌∙◌, ◌⊎◌, inl, inr, Bool, true, false, Option, none, some, ℕ_eq, String_eq,
  if◌then◌else◌, Bool-cases, StringMap, lookup, insert, lookup-insert_same,
}
use amalthea.Time.{Time}
use amalthea.GitProxy.TokenStore.{
  TokenSet, TokenError, RenkuTokens, Services, TokenStore, body_of, store_renku, store_renku_v2,
  refresh_renku_access_token, refresh_renku_access_token_v2, access_token_after, valid_access_token,
  get_valid_renku_access_token, store_git, exchange_with, provider_url, request_git,
  refresh_git_access_token, encode_git_credentials, git_token, has_valid_token, answer_with,
  get_git_access_token,
}

-- What a token is sent as.
unfoldable pub sent_as : Services → Bool → String → String
unfolding encode_git_credentials
sent_as w encode token = if encode then encode_git_credentials w token else token

module _ (w : Services) where
  store_renku-git :
      (s : TokenStore) (r : RenkuTokens ⊎ TokenError)
      → ((store_renku w s r).0.git_access_tokens ≡ s.git_access_tokens)
        × ((store_renku_v2 w s r).0.git_access_tokens ≡ s.git_access_tokens)
  unfolding store_renku store_renku_v2
  store_renku-git s (inl t) = (refl, refl)
  store_renku-git s (inr e) = (refl, refl)

  refresh_renku-git :
      (s : TokenStore) → (refresh_renku_access_token w s).0.git_access_tokens ≡ s.git_access_tokens
  unfolding refresh_renku_access_token refresh_renku_access_token_v2
  refresh_renku-git s = elim (Bool-cases w.is_v2) [
    | inl e ↦ rw e ((store_renku-git s (body_of (w.refresh_v2 s.renku_refresh_token))).1)
    | inr e ↦ rw e ((store_renku-git s (body_of (w.refresh s.renku_refresh_token))).0)
  ]

  -- A valid Renku token is the one that the store then has; the git tokens stay as they are.
  IsRenkuToken : TokenStore → TokenStore × (String ⊎ TokenError) → Type 0
  IsRenkuToken s (s', inl token) =
      (s'.git_access_tokens ≡ s.git_access_tokens) × (token ≡ s'.renku_access_token)
  IsRenkuToken s (s', inr e) = s'.git_access_tokens ≡ s.git_access_tokens

  access_token_after-IsRenkuToken :
      (s : TokenStore) (r : TokenStore × Option TokenError)
      → r.0.git_access_tokens ≡ s.git_access_tokens
      → IsRenkuToken s (access_token_after w r)
  unfolding access_token_after IsRenkuToken
  access_token_after-IsRenkuToken s (s', none) h = (h, refl)
  access_token_after-IsRenkuToken s (s', some e) h = h

  valid_access_token-IsRenkuToken :
      (s : TokenStore) (v : Bool ⊎ String) → IsRenkuToken s (valid_access_token w s v)
  unfolding valid_access_token IsRenkuToken
  valid_access_token-IsRenkuToken s (inr e) = refl
  valid_access_token-IsRenkuToken s (inl true) = (refl, refl)
  valid_access_token-IsRenkuToken s (inl false) =
      access_token_after-IsRenkuToken s (refresh_renku_access_token w s) (refresh_renku-git s)

  -- What a refresh of a git token leaves: on success, a token that the address of the provider gave
  -- for the Renku token of the store; after an error, the git tokens that were there.
  abbrev pub IsExchanged : String → String → TokenStore → TokenStore × Option TokenError → Type 0
  IsExchanged provider url s (s', some e) = s'.git_access_tokens ≡ s.git_access_tokens
  IsExchanged provider url s (s', none) =
      (t : TokenSet) × (body_of (w.exchange url s'.renku_access_token) ≡ inl t)
      × (s'.git_access_tokens ≡ insert provider t s.git_access_tokens)

  store_git-IsExchanged :
      (provider url : String) (s s' : TokenStore) (b : TokenSet ⊎ TokenError)
      → s'.git_access_tokens ≡ s.git_access_tokens
      → body_of (w.exchange url s'.renku_access_token) ≡ b
      → IsExchanged provider url s (store_git w provider s' b)
  unfolding store_git
  store_git-IsExchanged provider url s s' (inr e) h k = h
  store_git-IsExchanged provider url s s' (inl t) h k = (t, k, ap (insert provider t) h)

  exchange_with-IsExchanged :
      (provider url : String) (s : TokenStore) (r : TokenStore × (String ⊎ TokenError))
      → IsRenkuToken s r
      → IsExchanged provider url s (exchange_with w provider url r)
  unfolding exchange_with IsRenkuToken
  exchange_with-IsExchanged provider url s (s', inr e) h = h
  exchange_with-IsExchanged provider url s (s', inl token) h = rw h.1 (
      store_git-IsExchanged provider url s s' (body_of (w.exchange url s'.renku_access_token)) h.0
        refl)

  refresh_git-IsExchanged :
      (now : Time) (provider : String) (s : TokenStore)
      → IsExchanged provider
          (provider_url w (lookup provider w.providers))
          s
          (refresh_git_access_token w now provider s)
  unfolding refresh_git_access_token request_git get_valid_renku_access_token
  refresh_git-IsExchanged now provider s = from (w.bad_address _)
    where
      from :
          (o : Option String)
          → IsExchanged provider
              (provider_url w (lookup provider w.providers))
              s
              (request_git w now provider (provider_url w (lookup provider w.providers)) o s)
      from none = exchange_with-IsExchanged provider _ s _ (valid_access_token-IsRenkuToken s _)
      from (some e) = refl

  -- What a request for a git token gives: an error, and then the git tokens are as before; or the
  -- token as it is sent, which is one that the provider's address gave in exchange for the Renku
  -- token of the store, and which is then stored for that provider alone.
  abbrev pub IsFreshAnswer :
      String → Bool → TokenStore → TokenStore × (String ⊎ TokenError) → Type 0
  IsFreshAnswer provider encode s (s', inr e) = s'.git_access_tokens ≡ s.git_access_tokens
  IsFreshAnswer provider encode s (s', inl sent) =
      (t : TokenSet) × (sent ≡ sent_as w encode t.access_token)
      × (body_of (w.exchange (provider_url w (lookup provider w.providers)) s'.renku_access_token)
          ≡ inl t)
      × (s'.git_access_tokens ≡ insert provider t s.git_access_tokens)

  git_token-insert :
      (provider : String) (s : TokenStore) (t : TokenSet) (m : StringMap TokenSet)
      → s.git_access_tokens ≡ insert provider t m
      → git_token w provider s ≡ t.access_token
  unfolding git_token
  git_token-insert provider s t m h =
      let stored : lookup provider s.git_access_tokens ≡ some t =
        ap (lookup provider) h ∙ lookup-insert_same provider t m in
      rw (stored, git_token) refl

  answer_with-IsFreshAnswer :
      (provider : String) (encode : Bool) (s : TokenStore) (r : TokenStore × Option TokenError)
      → IsExchanged provider (provider_url w (lookup provider w.providers)) s r
      → IsFreshAnswer provider encode s (answer_with w encode provider r)
  unfolding answer_with sent_as
  answer_with-IsFreshAnswer provider encode s (s', some e) h = h
  answer_with-IsFreshAnswer provider encode s (s', none) (t, b, g) =
      (t, ap (sent_as w encode) (git_token-insert provider s' t s.git_access_tokens g), b, g)

  -- A request for a git token whose stored token can still be used answers with that token and
  -- changes nothing; every other request gives an error and keeps the git tokens, or gives the
  -- token that the provider's address has just given for the Renku token, and stores it.
  pub get_git_access_token_lem :
      (now later : Time) (provider : String) (encode : Bool) (s : TokenStore)
      → (has_valid_token w now provider s ≡ true
          → get_git_access_token w now later provider encode s
            ≡ (s, inl (sent_as w encode (git_token w provider s))))
        × (has_valid_token w now provider s ≡ false
            → IsFreshAnswer provider encode s (get_git_access_token w now later provider encode s))
  unfolding get_git_access_token answer_with sent_as
  get_git_access_token_lem now later provider encode s = (
    λ h. rw h,
    λ h. rw h (
        answer_with-IsFreshAnswer provider encode s (refresh_git_access_token w later provider s)
          (refresh_git-IsExchanged later provider s)),
  )
