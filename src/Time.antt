-- ===== src/Time.antt =====
-- Go's `time.Time` and `time.Duration` (and their wrappers in metav1) as the operator uses them: a
-- time is the number of nanoseconds since Go's zero time, which is the time 0; a duration is a
-- signed number of nanoseconds. The subtraction of two times saturates, as in Go.
use amalthea.Prelude.{
  ℕ, suc, ◌+◌, ◌-◌, ◌<◌, min, ◌≡◌, Bool, true, false, arith, ltb, leb, ℕ_eq, String_eq,
  if◌then◌else◌,
}

-- `negsuc n` is -(n + 1).
pub data ℤ : Type 0 where
  pos : ℕ → ℤ
  negsuc : ℕ → ℤ

abbrev pub Time : Type 0
Time = ℕ

abbrev pub Duration : Type 0
Duration = ℤ

-- `t.IsZero()`
abbrev pub is_zero : Time → Bool
is_zero t = leb t 0

-- The greatest `time.Duration`, 2^63 - 1 nanoseconds.
abbrev pub max_duration : ℕ
max_duration = 9_223_372_036_854_775_807

-- `t.Add(d)`
abbrev pub add : Time → Duration → Time
add t (pos d) = t + d
add t (negsuc d) = t - suc d

-- `now.Sub(t)`, and so `time.Since(t)` at the time `now`
abbrev pub since : Time → Time → Duration
since now t =
    if leb t now then pos (min (now - t) max_duration) else negsuc (min (t - now - 1) max_duration)

-- `a < b` on durations, and on other signed numbers
abbrev pub less : ℤ → ℤ → Bool
less (pos a) (pos b) = ltb a b
less (pos a) (negsuc b) = false
less (negsuc a) (pos b) = true
less (negsuc a) (negsuc b) = ltb b a

abbrev pub is_positive : Duration → Bool
is_positive d = less (pos 0) d

abbrev pub second : ℕ
second = 1_000_000_000

-- After a time that is set, more than `d` has passed exactly when the time `d` after it is gone by,
-- where Go's durations reach.
pub less-since :
    (now t d : ℕ) → d < max_duration → (less (pos d) (since now t) ≡ true) → t + d < now
less-since now t d h e = ground arith
