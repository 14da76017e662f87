-- ===== src/Freshness/SuiteLock/Tests.antt =====
-- Two goroutines that ask for the lock of one suite.
use apt_cacher_ultra.Base.{ℕ, ◌≡◌, refl, codes, Bytes, bytes_eq}
use apt_cacher_ultra.Freshness.SuiteLock.{
  leaving, Locks, no_locks, load_entry, load_at, load, try_mutex, try_at, try_lock, is_mutex,
  validate_at, validate, drop_at, drop_entry, leave_at, leave,
}
use apt_cacher_ultra.Freshness.SuiteLock.Exclusion.{starts, loads, tries, validates, holding_once}

abbrev suite : Bytes
suite = codes "http|deb.debian.org|/debian/dists/sid"

abbrev both_loaded : Locks
both_loaded = load (load no_locks 0 suite) 1 suite

-- The first goroutine has the lock; the second found the mutex busy.
abbrev locked : Locks
locked = validate (try_lock (try_lock both_loaded 0) 1) 0

holding_once_example : ◌≡◌ {A = ℕ} 0 0
unfolding validate try_lock load validate_at try_at load_at load_entry try_mutex is_mutex bytes_eq
holding_once_example =
    holding_once locked 0 0 suite 0 0
      (validates (try_lock (try_lock both_loaded 0) 1) 0 (
        tries (try_lock both_loaded 0) 1 (
          tries both_loaded 0
            (loads (load no_locks 0 suite) 1 suite (loads no_locks 0 suite starts)))))
      refl refl

-- The first goroutine drops the entry and unlocks.
abbrev gone : Locks
gone = leave (drop_entry (validate (try_lock both_loaded 0) 0) 0) 0

-- A goroutine that loaded the mutex before the drop, and takes it behind the unlock, finds it stale.
stale : (validate (try_lock gone 1) 1).place 1 ≡ leaving suite 0
unfolding validate try_lock load validate_at try_at load_at load_entry try_mutex is_mutex bytes_eq
    drop_entry drop_at leave leave_at
stale = refl
