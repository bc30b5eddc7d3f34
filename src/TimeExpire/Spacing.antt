-- ===== src/TimeExpire/Spacing.antt =====
-- How often the timer of connclient/src/time_expire.cpp fires.
use defold_connclient.Prelude.{
  ℕ, suc, ◌+◌, ◌*◌, ◌<◌, ◌≤◌, ◌≡◌, List, [], ◌∷◌, ltb, if◌then◌else◌, pos, arith, tests, Bool-cases,
  length, inl, inr,
}
use defold_connclient.TimeExpire.{TimeExpire, try_expire, after}

-- The times at which a series of calls returns true.
pub fired : TimeExpire → List ℕ → List ℕ
fired e [] = []
fired e (now ∷ later) =
    let rest = fired (try_expire now e).1 later in if (try_expire now e).0 then now ∷ rest else rest

-- Each time lies more than `d` after the one before it, the first after `last`.
abbrev pub Spaced : ℕ → ℕ → List ℕ → Type 0
Spaced d last [] = Unit {0}
Spaced d last (t ∷ ts) = (last + d < t) × Spaced d t ts

abbrev pub AllBelow : ℕ → List ℕ → Type 0
AllBelow horizon [] = Unit {0}
AllBelow horizon (t ∷ ts) = (t ≤ horizon) × AllBelow horizon ts

-- Whenever the timer is asked, it fires more than `expire_long` after it last fired.
pub fired-Spaced :
    (e : TimeExpire) (times : List ℕ) → Spaced e.expire_long e.last_time (fired e times)
unfolding fired try_expire
fired-Spaced e [] = tt
fired-Spaced e (now ∷ later) = elim (Bool-cases (ltb (e.last_time + e.expire_long) now)) [
  | inl yes' ↦
      rw (yes', fired, try_expire)
        (omega tests, fired-Spaced (record { last_time = now; expire_long = e.expire_long }) later)
  | inr not_yet ↦ rw (not_yet, fired, try_expire) (fired-Spaced e later)
]

Spaced-length :
    (d last horizon : ℕ) (ts : List ℕ)
    → Spaced d last ts
    → last ≤ horizon
    → AllBelow horizon ts
    → length ts * (d + 1) + last ≤ horizon
Spaced-length d last horizon [] s h b = omega arith
Spaced-length d last horizon (t ∷ ts) s h b =
    omega (arith, Spaced-length d t horizon ts s.1 b.0 b.1)

fired_below :
    (horizon : ℕ) (e : TimeExpire) (times : List ℕ)
    → AllBelow horizon times
    → AllBelow horizon (fired e times)
unfolding fired
fired_below horizon e [] b = tt
fired_below horizon e (now ∷ later) b =
    ground (arith, fired_below horizon (try_expire now e).1 later)

-- Asked at times up to a horizon, the timer fires a bounded number of times: every firing uses up
-- more than `expire_long` of the span from `last_time` to the horizon.
pub fired_count :
    (e : TimeExpire) (times : List ℕ) (horizon : ℕ)
    → e.last_time ≤ horizon
    → AllBelow horizon times
    → length (fired e times) * (e.expire_long + 1) + e.last_time ≤ horizon
fired_count e times horizon h b =
    Spaced-length e.expire_long e.last_time horizon (fired e times) (fired-Spaced e times) h
      (fired_below horizon e times b)

-- After `After(ms)` with a positive delay, or `Reset`, the timer next fires only past the delay.
pub after_delay :
    (ms now later : ℕ) (e : TimeExpire)
    → (try_expire later (after (pos (suc ms)) now e)).0 ≡ ltb (now + suc ms) later
unfolding try_expire after
after_delay ms now later e = ground arith
