-- ===== src/Observability/LogLimiter.antt =====
-- internal/observability/loglimit.go. Times are nanoseconds of the monotonic clock, and a zero `last`
-- is `none`. The mutex is left out: a call is one critical section.
pub mod Lines
mod Tests
use apt_cacher_ultra.Base.{
  ℕ, ◌+◌, ◌-◌, Bool, true, false, Option, none, some, List, [], ◌∷◌, ltb, if◌then◌else◌,
}

pub record LogLimiter : Type 0 where
  pub last : Option ℕ
  pub suppressed : ℕ

abbrev pub new_limiter : LogLimiter
new_limiter = record { last = none; suppressed = 0 }

-- `!l.last.IsZero() && now.Sub(l.last) < every`, on a clock that never goes back.
unfoldable pub too_soon : Option ℕ → ℕ → ℕ → Bool
too_soon none now every = false
too_soon (some last) now every = ltb (now - last) every

-- The new state, `ok` and `suppressed`.
unfoldable pub allow : LogLimiter → ℕ → ℕ → LogLimiter × Bool × ℕ
allow l now every =
    if too_soon l.last now every
    then (record l { suppressed = l.suppressed + 1 }, false, 0)
    else (record { last = some now; suppressed = 0 }, true, l.suppressed)
