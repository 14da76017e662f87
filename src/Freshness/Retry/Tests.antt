-- ===== src/Freshness/Retry/Tests.antt =====
-- The delays at concrete streaks.
use apt_cacher_ultra.Base.{◌≡◌, min}
use apt_cacher_ultra.Freshness.Retry.{retry_max_delay, backoff_delay}
use apt_cacher_ultra.Freshness.Retry.Delays.{doubled, backoff_delay-doubled}

backoff_delay-doubled_example : backoff_delay 7 ≡ min (doubled 6) retry_max_delay
backoff_delay-doubled_example = backoff_delay-doubled 6
