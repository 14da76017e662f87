-- ===== src/Freshness/Retry.antt =====
-- internal/freshness/retry.go: the delay behind a streak of failures, in nanoseconds. A count below
-- 1 of the source is 0 here. The digests of contentKey and the jitter, which is a floating-point
-- number, are left out.
pub mod Delays
mod Tests
use apt_cacher_ultra.Base.{ℕ, ◌-◌, ◌*◌, ◌^◌, ◌%◌, ltb, min, if◌then◌else◌}

abbrev pub retry_base_delay : ℕ
retry_base_delay = 120_000_000_000

abbrev pub retry_max_delay : ℕ
retry_max_delay = 3_600_000_000_000

-- The shift wraps around at the 64 bits of an int64; one into its sign bit is beyond what is asked.
unfoldable pub shifted : ℕ → ℕ
shifted count = retry_base_delay * 2 ^ (count - 1) % 2 ^ 64

unfoldable pub backoff_delay : ℕ → ℕ
backoff_delay count =
    if ltb count 1
    then 0
    else if ltb 6 count
    then retry_max_delay
    else min (shifted count) retry_max_delay

unfoldable pub check_backoff : ℕ → ℕ
check_backoff fail_count = backoff_delay fail_count
