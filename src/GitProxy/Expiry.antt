-- ===== src/GitProxy/Expiry.antt =====
-- Whether a token has expired (internal/utils/token.go). The clock is an argument `now`; the parsing
-- of tokens is a parameter.
use Prim.Native.Nat.{◌*◌}
use amalthea.Prelude.{
  suc, ◌+◌, ◌-◌, String, ◌⊎◌, inl, inr, Bool, not, Option, none, some, ltb, ℕ_eq, String_eq,
  if◌then◌else◌,
}
use amalthea.Time.{Time, Duration, ℤ, pos, negsuc, is_zero, add, second}

-- `time.Unix(seconds, 0)`: the seconds since 1970, which began this many seconds after Go's zero
-- time. A time before that is taken for the zero time.
unfoldable pub unix : ℤ → Time
unix (pos n) = 62_135_596_800 * second + n * second
unix (negsuc n) = 62_135_596_800 * second - suc n * second

unfoldable pub is_not_expired : Time → Time → Duration → Bool → Bool
is_not_expired now expires_at margin required =
    let deadline = add now margin in
    if is_zero expires_at then not required else ltb deadline expires_at

-- The expiry that a token claims, if it claims one.
unfoldable pub verify_expires_at_claim : Time → Option Time → Duration → Bool → Bool
unfolding is_not_expired
verify_expires_at_claim now none margin required = not required
verify_expires_at_claim now (some expires_at) margin required =
    is_not_expired now expires_at margin required

-- `claims` reads the expiry that a token claims, or the error.
unfoldable pub verify_jwt_expires_at :
    (String → (Option Time) ⊎ String) → Time → String → Duration → Bool → Bool ⊎ String
unfolding verify_expires_at_claim
verify_jwt_expires_at claims now token margin required = elim (claims token) [
  | inr e ↦ inr e
  | inl expiry ↦ inl (verify_expires_at_claim now expiry margin required)
]
