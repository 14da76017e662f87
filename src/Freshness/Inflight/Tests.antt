-- ===== src/Freshness/Inflight/Tests.antt =====
-- One adoption, and one request that waits for it.
use apt_cacher_ultra.Base.{◌≡◌, refl, true, false, some, codes, Bytes, elem_at, bytes_eq}
use apt_cacher_ultra.Freshness.Inflight.{
  blocked, leaving, WaitCall, HostAdoptions, new_host_adoptions, begin_adoption, end_adoption,
  wake_waiters, in_flight, wait, wait_on, start_call, wake, move,
}
use apt_cacher_ultra.Freshness.Inflight.Runs.{Reach, starts, begins, ends, waits, woken_when_idle}

abbrev host : Bytes
host = codes "deb.debian.org"

abbrev one_waits : HostAdoptions
one_waits = wait (begin_adoption new_host_adoptions host) host 15_000_000_000

one_waits-Reach : Reach one_waits
one_waits-Reach =
    waits (begin_adoption new_host_adoptions host) host 15_000_000_000
      (begins new_host_adoptions host starts)

abbrev adopted : HostAdoptions
adopted = end_adoption one_waits host

abbrev waiter : WaitCall
waiter = record { host = host; channel = 0; phase = blocked; result = false }

still_there : elem_at 0 adopted.callers ≡ some waiter
unfolding end_adoption wake_waiters wait wait_on start_call begin_adoption elem_at bytes_eq
still_there = refl

none_left : in_flight adopted host ≡ false
unfolding end_adoption wake_waiters wait wait_on start_call begin_adoption in_flight bytes_eq
none_left = refl

woken_when_idle_example :
    elem_at 0 (move wake adopted 0).callers
    ≡ some (record waiter { phase = leaving; result = true })
woken_when_idle_example =
    woken_when_idle adopted 0 waiter (ends one_waits host one_waits-Reach) still_there refl
      none_left
