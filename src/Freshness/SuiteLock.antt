-- ===== src/Freshness/SuiteLock.antt =====
-- internal/freshness/suite_lock.go: the lock of each suite. A goroutine is a number, a mutex the
-- place where it was made. Each function is one atomic step of one goroutine, so that any
-- interleaving of goroutines is a sequence of calls. A mutex records the goroutine that has locked
-- it, which Go's mutex does not, but no step reads who it is. The drops of the checker's other
-- per-suite maps and the flip gate's purge are left out.
pub mod Frame
pub mod Exclusion
mod Tests
use apt_cacher_ultra.Base.{
  ℕ, suc, ◌+◌, Bool, true, false, Option, none, some, ◌==◌, if◌then◌else◌, Bytes, bytes_eq,
}

-- Where a goroutine is: outside; with the loaded mutex of a suite's key; behind its TryLock, before
-- the map is read again; with the lock; and before the last unlock, behind the drop of the map's
-- entry or with a mutex that the map no longer has.
pub data Place : Type 0 where
  outside : Place
  loaded : Bytes → ℕ → Place
  tried : Bytes → ℕ → Place
  holding : Bytes → ℕ → Place
  leaving : Bytes → ℕ → Place

pub record Locks : Type 0 where
  pub entry : Bytes → Option ℕ
  pub owner : ℕ → Option ℕ
  pub place : ℕ → Place
  pub next_mutex : ℕ

abbrev pub no_locks : Locks
no_locks = record { entry = λ k. none; owner = λ m. none; place = λ t. outside; next_mutex = 0 }

abbrev pub set_place : (ℕ → Place) → ℕ → Place → ℕ → Place
set_place f t p u = if t == u then p else f u

abbrev pub set_owner : (ℕ → Option ℕ) → ℕ → Option ℕ → ℕ → Option ℕ
set_owner f m o n = if m == n then o else f n

abbrev pub set_entry : (Bytes → Option ℕ) → Bytes → Option ℕ → Bytes → Option ℕ
set_entry f k e j = if bytes_eq k j then e else f j

-- `c.locks.LoadOrStore(key, &sync.Mutex{})`.
unfoldable pub load_entry : Locks → ℕ → Bytes → Option ℕ → Locks
load_entry s t key (some m) = record s { place = set_place s.place t (loaded key m) }
load_entry s t key none = record s {
  entry = set_entry s.entry key (some s.next_mutex);
  place = set_place s.place t (loaded key s.next_mutex);
  next_mutex = suc s.next_mutex;
}

-- A goroutine outside starts lockSuite.
unfoldable pub load_at : Locks → ℕ → Bytes → Place → Locks
load_at s t key outside = load_entry s t key (s.entry key)
load_at s t key _ = s

unfoldable pub load : Locks → ℕ → Bytes → Locks
load s t key = load_at s t key (s.place t)

-- `mu.TryLock()`: lockBusy when some goroutine has the mutex.
unfoldable pub try_mutex : Locks → ℕ → Bytes → ℕ → Option ℕ → Locks
try_mutex s t key m (some u) = record s { place = set_place s.place t outside }
try_mutex s t key m none = record s {
  owner = set_owner s.owner m (some t);
  place = set_place s.place t (tried key m);
}

unfoldable pub try_at : Locks → ℕ → Place → Locks
try_at s t (loaded key m) = try_mutex s t key m (s.owner m)
try_at s t _ = s

unfoldable pub try_lock : Locks → ℕ → Locks
try_lock s t = try_at s t (s.place t)

-- `cur == entry` of what the map has now.
unfoldable pub is_mutex : Option ℕ → ℕ → Bool
is_mutex none m = false
is_mutex (some n) m = n == m

abbrev pub unlocked : Locks → ℕ → ℕ → Locks
unlocked s t m = record s { owner = set_owner s.owner m none; place = set_place s.place t outside }

-- The re-validation: lockOK, or lockStale once the mutex is unlocked.
unfoldable pub validate_at : Locks → ℕ → Place → Locks
validate_at s t (tried key m) =
    if is_mutex (s.entry key) m
    then record s { place = set_place s.place t (holding key m) }
    else record s { place = set_place s.place t (leaving key m) }
validate_at s t _ = s

unfoldable pub validate : Locks → ℕ → Locks
validate s t = validate_at s t (s.place t)

-- release(false), or the end of a check: only the unlock.
unfoldable pub unlock_at : Locks → ℕ → Place → Locks
unlock_at s t (holding key m) = unlocked s t m
unlock_at s t _ = s

unfoldable pub unlock : Locks → ℕ → Locks
unlock s t = unlock_at s t (s.place t)

-- unlockDropped's first step: `c.locks.CompareAndDelete(key, mu)`.
unfoldable pub drop_at : Locks → ℕ → Place → Locks
drop_at s t (holding key m) = record s {
  entry = if is_mutex (s.entry key) m then set_entry s.entry key none else s.entry;
  place = set_place s.place t (leaving key m);
}
drop_at s t _ = s

unfoldable pub drop_entry : Locks → ℕ → Locks
drop_entry s t = drop_at s t (s.place t)

-- The unlock of lockStale, and unlockDropped's last step.
unfoldable pub leave_at : Locks → ℕ → Place → Locks
leave_at s t (leaving key m) = unlocked s t m
leave_at s t _ = s

unfoldable pub leave : Locks → ℕ → Locks
leave s t = leave_at s t (s.place t)
