-- ===== src/Freshness/Retry/Delays.antt =====
-- The delays against the formula of the comment, and how they grow.
use apt_cacher_ultra.Base.{ℕ, zero, suc, ◌+◌, ◌*◌, ◌≤◌, ◌≡◌, refl, min, arith}
use apt_cacher_ultra.Freshness.Retry.{retry_base_delay, retry_max_delay, shifted, backoff_delay}

-- The delay without a limit: two minutes, doubled for every failure behind the first.
unfoldable pub doubled : ℕ → ℕ
doubled zero = retry_base_delay
doubled (suc n) = 2 * doubled n

doubled-pos : (n : ℕ) → retry_base_delay ≤ doubled n
unfolding doubled
doubled-pos zero = omega arith
doubled-pos (suc n) = ground (arith, doubled-pos n)

-- The shift does not wrap around for the streaks that it is taken for.
small : (n : ℕ) → n ≤ 5 → shifted (n + 1) ≡ doubled n
unfolding shifted doubled
small zero h = refl
small (suc zero) h = refl
small (suc (suc zero)) h = refl
small (suc (suc (suc zero))) h = refl
small (suc (suc (suc (suc zero)))) h = refl
small (suc (suc (suc (suc (suc zero))))) h = refl
small (suc (suc (suc (suc (suc (suc n)))))) h = absurd (omega arith)

large : (n : ℕ) → 5 ≤ n → retry_max_delay ≤ doubled n
unfolding doubled
large zero h = absurd (omega arith)
large (suc zero) h = absurd (omega arith)
large (suc (suc zero)) h = absurd (omega arith)
large (suc (suc (suc zero))) h = absurd (omega arith)
large (suc (suc (suc (suc zero)))) h = absurd (omega arith)
large (suc (suc (suc (suc (suc zero))))) h = omega arith
large (suc (suc (suc (suc (suc (suc n)))))) h =
    ground (arith, large (suc (suc (suc (suc (suc n))))))

-- The shortcut for long streaks changes nothing and the shift never wraps around: the delay behind
-- a streak of failures is two minutes, doubled for each failure after the first, and one hour at
-- most.
pub backoff_delay-doubled : (n : ℕ) → backoff_delay (n + 1) ≡ min (doubled n) retry_max_delay
unfolding backoff_delay
backoff_delay-doubled n = ground (arith, small n, large n)

doubled_mono : (m n : ℕ) → m ≤ n → doubled m ≤ doubled n
unfolding doubled
doubled_mono zero n h = doubled-pos n
doubled_mono (suc m) zero h = absurd (omega arith)
doubled_mono (suc m) (suc n) h = ground (arith, doubled_mono m n)

-- A longer streak never has a shorter delay.
pub backoff_delay_mono : (m n : ℕ) → m ≤ n → backoff_delay m ≤ backoff_delay n
backoff_delay_mono zero n h = unfold backoff_delay in omega arith
backoff_delay_mono (suc m) zero h = absurd (omega arith)
backoff_delay_mono (suc m) (suc n) h =
    ground (arith, backoff_delay-doubled m, backoff_delay-doubled n, doubled_mono m n)
