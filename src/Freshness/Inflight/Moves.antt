-- ===== src/Freshness/Inflight/Moves.antt =====
-- What ends a wait keeps the books.
use apt_cacher_ultra.Base.{
  ℕ, ◌-◌, ◌≡◌, ◌≢◌, refl, ap, inl, inr, Bool, true, false, some, arith, Bool-cases, Option-cases,
  Bytes, bytes_eq, bytes_eq_iff, elem_at, put_at, count_if-put_at,
}
use apt_cacher_ultra.Freshness.Inflight.{
  Phase, blocked, leaving, returned, WaitCall, HostAdoptions, put, set_phase, Move, wake, time_out,
  cancel, leave, move_phase, move_at, move,
}
use apt_cacher_ultra.Freshness.Inflight.Kept.{is_inside, waits_on, IsKept, put-count, woken_after}
use apt_cacher_ultra.Freshness.Inflight.Joins.{not_blocked}

set_phase-IsKept :
    (s : HostAdoptions) (t : ℕ) (c : WaitCall) (p : Phase) (b : Bool)
    → IsKept s
    → elem_at t s.callers ≡ some c
    → is_inside c.phase ≡ is_inside p
    → p ≢ blocked
    → IsKept (set_phase s t c p b)
unfolding set_phase
set_phase-IsKept s t c p b k at_t same other = record {
  counted = λ h. ground (
    arith,
    k.counted h,
    count_if-put_at (waits_on h) t s.callers c (record c { phase = p; result = b }) at_t,
    same,
  );
  bound = k.bound;
  woken = woken_after s.closed s.idle s.callers t c p b k.woken other;
  awaited = k.awaited;
  one_host = k.one_host;
  made = k.made;
}

leave-IsKept :
    (s : HostAdoptions) (t : ℕ) (c : WaitCall)
    → IsKept s
    → elem_at t s.callers ≡ some c
    → c.phase ≡ leaving
    → IsKept (
        set_phase
          (record s { waiters = put s.waiters c.host (s.waiters c.host - 1) })
          t
          c
          returned
          c.result)
unfolding set_phase
leave-IsKept s t c k at_t w =
    let d : WaitCall = record c { phase = returned } in
    let moved = λ (h : Bytes). count_if-put_at (waits_on h) t s.callers c d at_t in
    let itself = (bytes_eq_iff c.host c.host).1 refl in
    let inside : is_inside c.phase ≡ true = ap is_inside w in
    record {
      counted =
          put-count s.waiters c.host (s.waiters c.host - 1) s.callers (put_at t d s.callers)
            k.counted (ground (arith, k.counted c.host, moved c.host, itself, inside))
            (λ h other. ground (arith, moved h, other));
      bound = λ h. elim (Bool-cases (bytes_eq c.host h)) [
        | inl a ↦ rw a (omega (arith, k.bound c.host))
        | inr a ↦ rw a (k.bound h)
      ];
      woken =
          woken_after s.closed s.idle s.callers t c returned c.result k.woken
            (not_blocked returned tt);
      awaited = k.awaited;
      one_host = k.one_host;
      made = k.made;
    }

move_phase-IsKept :
    (m : Move) (p : Phase) (s : HostAdoptions) (t : ℕ) (c : WaitCall)
    → c.phase ≡ p
    → elem_at t s.callers ≡ some c
    → IsKept s
    → IsKept (move_phase m p s t c)
unfolding move_phase
move_phase-IsKept wake blocked s t c w at_t k = elim (Bool-cases (s.closed c.channel)) [
  | inl a ↦
      rw a (set_phase-IsKept s t c leaving true k at_t (ap is_inside w) (not_blocked leaving tt))
  | inr a ↦ rw a k
]
move_phase-IsKept time_out blocked s t c w at_t k =
    set_phase-IsKept s t c leaving true k at_t (ap is_inside w) (not_blocked leaving tt)
move_phase-IsKept cancel blocked s t c w at_t k =
    set_phase-IsKept s t c leaving false k at_t (ap is_inside w) (not_blocked leaving tt)
move_phase-IsKept leave leaving s t c w at_t k = leave-IsKept s t c k at_t w
move_phase-IsKept wake leaving s t c w at_t k = k
move_phase-IsKept wake returned s t c w at_t k = k
move_phase-IsKept time_out leaving s t c w at_t k = k
move_phase-IsKept time_out returned s t c w at_t k = k
move_phase-IsKept cancel leaving s t c w at_t k = k
move_phase-IsKept cancel returned s t c w at_t k = k
move_phase-IsKept leave blocked s t c w at_t k = k
move_phase-IsKept leave returned s t c w at_t k = k

pub move-IsKept : (m : Move) (s : HostAdoptions) (t : ℕ) → IsKept s → IsKept (move m s t)
unfolding move move_at
move-IsKept m s t k = elim (Option-cases (elem_at t s.callers)) [
  | inl e ↦ rw e k
  | inr (c, e) ↦ rw e (move_phase-IsKept m c.phase s t c refl e k)
]
