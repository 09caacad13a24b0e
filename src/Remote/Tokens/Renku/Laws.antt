-- ===== src/Remote/Tokens/Renku/Laws.antt =====
-- What requests and rounds do to the tokens that are stored.
use amalthea.Prelude.{
  String, ◌≡◌, refl, ap, ◌∙◌, ◌⊎◌, inl, inr, Bool, true, false, Option, none, some, ℕ_eq, String_eq,
  if◌then◌else◌,
}
use amalthea.Time.{Time}
use amalthea.Remote.Tokens.{TokenResult, TokenFailure, is_usable, stored, request_new_access_token}
use amalthea.Remote.Tokens.Renku.{
  Services, RenkuAuth, stored_renku, refresh_renku_access_token, renku_token_after,
  get_renku_access_token, stored_token, with_renku_token, get_access_token, tick,
}

-- The Renku token of `b` is the one of `a`, if that can be used, or it is had by a refresh now.
abbrev pub HasRenkuToken : Services → Time → RenkuAuth → RenkuAuth → Type 0
HasRenkuToken w now a b =
    ((is_usable now a.renku ≡ true) × (b ≡ a))
    ⊎ ((is_usable now a.renku ≡ false) × (refresh_renku_access_token w now a ≡ (b, none)))

-- A token that is given is one that FirecREST's token service gives now for such a Renku token, and it
-- is stored with its expiry; an error leaves the cache as it was.
unfoldable pub IsFreshlyAnswered :
    Services → Time → RenkuAuth → RenkuAuth × (String ⊎ TokenFailure) → Type 0
IsFreshlyAnswered w now a (c, inl token) =
    (b : RenkuAuth) × HasRenkuToken w now a b
    × ((t : TokenResult) × (request_new_access_token w.claims now (w.firecrest b.renku.access_token)
          ≡ inl t)
        × (token ≡ t.access_token)
        × (c ≡ record b { cache = stored t }))
IsFreshlyAnswered w now a (c, inr e) = c.cache ≡ a.cache

-- A Renku token that is given is the one that is stored.
unfoldable IsRenkuAnswer :
    Services → Time → RenkuAuth → RenkuAuth × (String ⊎ TokenFailure) → Type 0
IsRenkuAnswer w now a (b, inl token) = HasRenkuToken w now a b × (b.renku.access_token ≡ token)
IsRenkuAnswer w now a (b, inr e) = Unit

-- A choice keeps a field that both of its branches keep.
either_field :
    {A B : Type 0} (field : RenkuAuth → A) (old : A) (b : Bool) (x y : RenkuAuth × B)
    → field x.0 ≡ old
    → field y.0 ≡ old
    → field (if b then x else y).0 ≡ old
either_field field old true x y p q = p
either_field field old false x y p q = q

module _ (w : Services) where
  renku_token_after-auth : (r : RenkuAuth × Option TokenFailure) → (renku_token_after w r).0 ≡ r.0
  unfolding renku_token_after
  renku_token_after-auth (a, none) = refl
  renku_token_after-auth (a, some e) = refl

-- One operation, whatever the clock shows.
pub data Step (w : Services) : RenkuAuth → RenkuAuth → Type 0 where
  request : (now : Time) (a : RenkuAuth) → Step w a (get_access_token w now a).0
  round : (now : Time) (a : RenkuAuth) → Step w a (tick w now a)

pub data Reachable (w : Services) (first : RenkuAuth) : RenkuAuth → Type 0 where
  start : Reachable w first first
  after : {a b : RenkuAuth} → Reachable w first a → Step w a b → Reachable w first b

module _ (w : Services) (first_version : w.is_v2 ≡ false) where
  stored_renku-token :
      (a : RenkuAuth) (r : TokenResult ⊎ TokenFailure)
      → (stored_renku w a r).0.renku_refresh_token ≡ a.renku_refresh_token
  unfolding stored_renku
  stored_renku-token a (inl t) = refl
  stored_renku-token a (inr e) = refl

  refresh_renku-token :
      (now : Time) (a : RenkuAuth)
      → (refresh_renku_access_token w now a).0.renku_refresh_token ≡ a.renku_refresh_token
  unfolding refresh_renku_access_token
  refresh_renku-token now a = rw first_version (stored_renku-token a _)

  get_renku-token :
      (now : Time) (a : RenkuAuth)
      → (get_renku_access_token w now a).0.renku_refresh_token ≡ a.renku_refresh_token
  unfolding get_renku_access_token
  get_renku-token now a =
      either_field (λ x. x.renku_refresh_token) a.renku_refresh_token (is_usable now a.renku) _ _
        refl
        (ap (λ x. x.renku_refresh_token)
            (renku_token_after-auth w (refresh_renku_access_token w now a))
          ∙ refresh_renku-token now a)

  stored_token-token :
      (a : RenkuAuth) (r : TokenResult ⊎ TokenFailure)
      → (stored_token w a r).0.renku_refresh_token ≡ a.renku_refresh_token
  unfolding stored_token
  stored_token-token a (inl t) = refl
  stored_token-token a (inr e) = refl

  with_renku_token-token :
      (now : Time) (r : RenkuAuth × (String ⊎ TokenFailure))
      → (with_renku_token w now r).0.renku_refresh_token ≡ r.0.renku_refresh_token
  unfolding with_renku_token
  with_renku_token-token now (a, inr e) = refl
  with_renku_token-token now (a, inl token) = stored_token-token a _

  Step-token : {a b : RenkuAuth} → Step w a b → b.renku_refresh_token ≡ a.renku_refresh_token
  unfolding get_access_token tick
  Step-token (request now a) =
      either_field (λ x. x.renku_refresh_token) a.renku_refresh_token (is_usable now a.cache) _ _
        refl (with_renku_token-token now (get_renku_access_token w now a) ∙ get_renku-token now a)
  Step-token (round now a) = chosen _ (refresh_renku-token now a)
    where
      chosen :
          (b : Bool)
          → (refresh_renku_access_token w now a).0.renku_refresh_token ≡ a.renku_refresh_token
          → (if b then a else (refresh_renku_access_token w now a).0).renku_refresh_token
            ≡ a.renku_refresh_token
      chosen true h = refl
      chosen false h = h

  -- With the first version of the authentication the refresh token of Renku stays the first one over
  -- any sequence of requests and rounds, also when the answers bring new ones.
  pub Reachable-refresh_token :
      (first a : RenkuAuth)
      → Reachable w first a
      → a.renku_refresh_token ≡ first.renku_refresh_token
  Reachable-refresh_token first a start = refl
  Reachable-refresh_token first a (after r step) =
      Step-token step ∙ Reachable-refresh_token first _ r
