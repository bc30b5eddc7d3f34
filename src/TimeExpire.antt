-- ===== src/TimeExpire.antt =====
-- connclient/src/time_expire.h and time_expire.cpp: the timer of the pings. Times are milliseconds
-- that are not negative; `expire_long_` is set to positive values only.
pub mod Spacing
use defold_connclient.Prelude.{
  ℕ, zero, suc, ◌+◌, Bool, true, false, ltb, if◌then◌else◌, ℤ, pos, negsuc,
}

pub record TimeExpire : Type 0 where
  pub last_time : ℕ
  pub expire_long : ℕ

unfoldable pub init : ℕ → TimeExpire
init expire_long = record { last_time = 0; expire_long = expire_long }

unfoldable pub try_expire : ℕ → TimeExpire → Bool × TimeExpire
try_expire now_ms e =
    if ltb (e.last_time + e.expire_long) now_ms
    then (true, record e { last_time = now_ms })
    else (false, e)

unfoldable pub after : ℤ → ℕ → TimeExpire → TimeExpire
after (negsuc n) now_ms e = e
after (pos zero) now_ms e = record e { last_time = 0 }
after (pos (suc ms)) now_ms e = record e { last_time = now_ms; expire_long = suc ms }

unfoldable pub reset : ℕ → TimeExpire → TimeExpire
reset now_ms e = record e { last_time = now_ms }
