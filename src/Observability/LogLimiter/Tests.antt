-- ===== src/Observability/LogLimiter/Tests.antt =====
-- A run of the limiter, and its theorem at concrete times.
use apt_cacher_ultra.Base.{ℕ, ◌+◌, ◌≡◌, refl, List, [], ◌∷◌, length, some}
use apt_cacher_ultra.Observability.LogLimiter.{new_limiter, allow, too_soon}
use apt_cacher_ultra.Observability.LogLimiter.Lines.{limit, limit_lem, AreApart, hidden_by}

abbrev calls : List ℕ
calls = 5 ∷ 9 ∷ 14 ∷ 15 ∷ 16 ∷ []

limit_run : limit new_limiter 10 calls ≡ (
  record { last = some 15; suppressed = 1 },
  record { at = 5; hidden = 0 } ∷ record { at = 15; hidden = 2 } ∷ [],
)
unfolding limit allow too_soon
limit_run = refl

limit_lem_example :
    AreApart 10 (new_limiter.last) (limit new_limiter 10 calls).1
    × (length (limit new_limiter 10 calls).1
          + hidden_by (limit new_limiter 10 calls).1
          + (limit new_limiter 10 calls).0.suppressed
        ≡ 5)
limit_lem_example = limit_lem new_limiter 10 calls
