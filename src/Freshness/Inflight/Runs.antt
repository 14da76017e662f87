-- ===== src/Freshness/Inflight/Runs.antt =====
-- Adoptions and waits in whatever order they begin, end and wake.
use apt_cacher_ultra.Base.{
  ℕ, ◌≤◌, ◌≡◌, refl, sym, inl, inr, true, false, some, arith, Bytes, elem_at, count_if,
  elem_at-put_at_self, subst,
}
use apt_cacher_ultra.Freshness.Inflight.{
  blocked, leaving, WaitCall, HostAdoptions, strict_waiters_per_host, new_host_adoptions,
  begin_adoption, end_adoption, in_flight, wait, set_phase, Move, wake, move_phase, move_at, move,
}
use apt_cacher_ultra.Freshness.Inflight.Kept.{waits_on, IsKept}
use apt_cacher_ultra.Freshness.Inflight.Steps.{begin_adoption-IsKept, end_adoption-IsKept}
use apt_cacher_ultra.Freshness.Inflight.Joins.{wait-IsKept}
use apt_cacher_ultra.Freshness.Inflight.Moves.{move-IsKept}

pub data Reach : HostAdoptions → Type 0 where
  starts : Reach new_host_adoptions
  begins : (s : HostAdoptions) (host : Bytes) → Reach s → Reach (begin_adoption s host)
  ends : (s : HostAdoptions) (host : Bytes) → Reach s → Reach (end_adoption s host)
  waits : (s : HostAdoptions) (host : Bytes) (max_wait : ℕ) → Reach s → Reach (wait s host max_wait)
  moves : (m : Move) (s : HostAdoptions) (t : ℕ) → Reach s → Reach (move m s t)

pub Reach-IsKept : (s : HostAdoptions) → Reach s → IsKept s
unfolding count_if elem_at
Reach-IsKept _ starts = record {
  counted = λ h. refl;
  bound = λ h. omega arith;
  woken = λ t c e w. cc e;
  awaited = λ h i e. cc e;
  one_host = λ h g i e f. cc e;
  made = λ h i e. cc e;
}
Reach-IsKept _ (begins s host r) = begin_adoption-IsKept s host (Reach-IsKept s r)
Reach-IsKept _ (ends s host r) = end_adoption-IsKept s host (Reach-IsKept s r)
Reach-IsKept _ (waits s host max_wait r) = wait-IsKept s host max_wait (Reach-IsKept s r)
Reach-IsKept _ (moves m s t r) = move-IsKept m s t (Reach-IsKept s r)

-- In whatever order adoptions begin and end and requests start to wait, wake, time out, are cancelled and
-- return: once a host has no adoption in flight, every request that is still in its select on that host can
-- be woken, and then leaves it with the answer that its lookup may be run again.
pub woken_when_idle :
    (s : HostAdoptions) (t : ℕ) (c : WaitCall)
    → Reach s
    → elem_at t s.callers ≡ some c
    → c.phase ≡ blocked
    → in_flight s c.host ≡ false
    → elem_at t (move wake s t).callers ≡ some (record c { phase = leaving; result = true })
unfolding move move_at move_phase set_phase in_flight
woken_when_idle s t c r at_t w over =
    let k = Reach-IsKept s r in
    let closed : s.closed c.channel ≡ true = elim (k.woken t c at_t w) [
      | inl a ↦ a
      | inr e ↦ absurd (ground (arith, k.awaited c.host c.channel e, over))
    ] in
    rw at_t (
      subst
        (λ p.
          elem_at t (move_phase wake p s t c).callers
          ≡ some (record c { phase = leaving; result = true }))
        (sym w)
        (rw closed
          (elem_at-put_at_self t s.callers c (record c { phase = leaving; result = true }) at_t)))

-- In whatever order those steps come, the count of a host is that of the requests inside their waits on it,
-- and no host has more than 64.
pub waiters_counted :
    (s : HostAdoptions) (host : Bytes)
    → Reach s
    → (s.waiters host ≡ count_if (waits_on host) s.callers)
      × (count_if (waits_on host) s.callers ≤ strict_waiters_per_host)
waiters_counted s host r =
    let k = Reach-IsKept s r in (k.counted host, omega (arith, k.counted host, k.bound host))
