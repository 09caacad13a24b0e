-- ===== src/Remote/Tokens/Laws.antt =====
-- How often a service is asked for a token, and what is kept of the answers.
use amalthea.Prelude.{
  ◌+◌, ◌≤◌, ◌≡◌, refl, ◌⊎◌, inl, inr, Bool, true, false, arith, ℕ_eq, String_eq, if◌then◌else◌,
}
use amalthea.Time.{Time}
use amalthea.Remote.Tokens.{
  TokenResult, is_usable, Caller, checking, refreshing, reading, finished, Shared, stored,
  checked_cache, firecrest_refresh, firecrest_step, runai_request, runai_step,
}

-- The cache after any number of callers have taken steps in any order; each can stand anywhere.
pub data Steps (step : Caller → Shared → Caller × Shared) (first : Shared) : Shared → Type 0 where
  start : Steps step first first
  after :
      {sh : Shared} → Steps step first sh → (caller : Caller) → Steps step first (step caller sh).1

-- The service was not asked, or it was asked once and its token can be used.
AskedOnce : Time → Shared → Type 0
AskedOnce now sh = (sh.requests ≡ 0) ⊎ ((sh.requests ≡ 1) × (is_usable now sh.cache ≡ true))

either-AskedOnce :
    (now : Time) (b : Bool) (x y : Caller × Shared)
    → (b ≡ true → AskedOnce now x.1)
    → (b ≡ false → AskedOnce now y.1)
    → AskedOnce now (if b then x else y).1
either-AskedOnce now true x y p q = p refl
either-AskedOnce now false x y p q = q refl

fresh-AskedOnce :
    (now : Time) (t : TokenResult) (sh : Shared)
    → is_usable now (stored t) ≡ true
    → AskedOnce now sh
    → is_usable now sh.cache ≡ false
    → AskedOnce now (runai_request now (inl t) sh (inl t)).1
unfolding AskedOnce runai_request
fresh-AskedOnce now t sh usable (inl never) stale = inr (ground (arith, never), usable)
fresh-AskedOnce now t sh usable (inr (once, good)) stale = ground (arith, good, stale)

runai_step-AskedOnce :
    (now : Time) (t : TokenResult) (caller : Caller) (sh : Shared)
    → is_usable now (stored t) ≡ true
    → AskedOnce now sh
    → AskedOnce now (runai_step now (inl t) caller sh).1
unfolding runai_step checked_cache
runai_step-AskedOnce now t checking sh usable h =
    either-AskedOnce now (is_usable now sh.cache) _ _ (λ e. h) (λ e. h)
runai_step-AskedOnce now t refreshing sh usable h =
    either-AskedOnce now (is_usable now sh.cache) _ _ (λ e. h) (fresh-AskedOnce now t sh usable h)
runai_step-AskedOnce now t reading sh usable h = h
runai_step-AskedOnce now t (finished r) sh usable h = h

Steps-AskedOnce :
    (now : Time) (t : TokenResult) (first sh : Shared)
    → is_usable now (stored t) ≡ true
    → AskedOnce now first
    → Steps (runai_step now (inl t)) first sh
    → AskedOnce now sh
Steps-AskedOnce now t first sh usable h start = h
Steps-AskedOnce now t first sh usable h (after r caller) =
    runai_step-AskedOnce now t caller _ usable (Steps-AskedOnce now t first _ usable h r)

-- However many callers want a token of Run:ai at one time and in whatever order they take their
-- steps, the service is asked once at most if the token that it gives can be used.
pub runai_step-asks_once :
    (now : Time) (t : TokenResult) (first sh : Shared)
    → is_usable now (stored t) ≡ true
    → first.requests ≡ 0
    → Steps (runai_step now (inl t)) first sh
    → sh.requests ≤ 1
unfolding AskedOnce
runai_step-asks_once now t first sh usable none_yet r =
    bound (Steps-AskedOnce now t first sh usable (inl none_yet) r)
  where
    bound : AskedOnce now sh → sh.requests ≤ 1
    bound (inl e) = omega arith
    bound (inr (e, good)) = omega arith

-- Two callers of FirecREST's authentication that have both found that the token cannot be used ask
-- the service twice, although the second finds a token that can be used.
pub firecrest_step-asks_twice :
    (now : Time) (t : TokenResult) (sh : Shared)
    → is_usable now sh.cache ≡ false
    → is_usable now (stored t) ≡ true
    → let step = firecrest_step now (inl t) in
      let once = (step refreshing sh).1 in
      (step checking sh ≡ (refreshing, sh))
      × (is_usable now once.cache ≡ true)
      × ((step refreshing once).1.requests ≡ sh.requests + 2)
unfolding firecrest_step checked_cache firecrest_refresh
firecrest_step-asks_twice now t sh stale usable =
    (rw (stale, checked_cache) refl, usable, ground arith)
