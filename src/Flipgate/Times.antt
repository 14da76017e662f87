-- ===== src/Flipgate/Times.antt =====
-- The gates that its critical sections lead to when time does not run backwards: each section reads
-- the clock under the mutex.
use apt_cacher_ultra.Base.{
  ℕ, ◌+◌, ◌-◌, ◌≤◌, ◌≡◌, refl, sym, ◌∙◌, inl, inr, Bool, true, false, some, ltb, leb, arith,
  Bool-cases, Bytes, Option-cases,
}
use apt_cacher_ultra.Flipgate.State.{Gate, new, max_quiet, max_waiters, update}
use apt_cacher_ultra.Flipgate.Quiet.{is_live}
use apt_cacher_ultra.Flipgate.Holds.{ask, give_up, end_hold, close, Cause}
use apt_cacher_ultra.Flipgate.Serves.{
  find, sweep, use_entry, entry, register, join_hold, serve_now, join_entry, join, anchor_released,
  done, purge,
}
use apt_cacher_ultra.Flipgate.Flip.{begin_flip, end_flip, abort, skip_hold, count_cut_short}
use apt_cacher_ultra.Flipgate.Runs.{
  Reach, opens, joins, leaves, serves_done, purges, begins, asks, gives_up, hold_ends, aborts,
  skips, cuts_short, flip_ends, closes,
}

-- A gate and the time of its last section.
pub data TimedReach : ℕ → Gate → Type 0 where
  opens_at : (quiet now : ℕ) (g : Gate) → new quiet ≡ some g → TimedReach now g
  joins_at :
      (clock now : ℕ) (g : Gate) (key : Bytes)
      → clock ≤ now
      → TimedReach clock g
      → TimedReach now (join g key now).0
  leaves_at :
      (clock now : ℕ) (g : Gate) (e h : ℕ) (left : Bool) (joined : ℕ)
      → clock ≤ now
      → TimedReach clock g
      → TimedReach now (anchor_released g e h left joined now).0
  serves_done_at :
      (clock now : ℕ) (g : Gate) (t : ℕ)
      → clock ≤ now
      → TimedReach clock g
      → TimedReach now (done g t now)
  purges_at :
      (clock now : ℕ) (g : Gate) (key : Bytes)
      → clock ≤ now
      → TimedReach clock g
      → TimedReach now (purge g key now).0
  begins_at :
      (clock now : ℕ) (g : Gate) (key : Bytes)
      → clock ≤ now
      → TimedReach clock g
      → TimedReach now (begin_flip g key now).0
  asks_at :
      (clock now : ℕ) (g : Gate) (e : ℕ)
      → clock ≤ now
      → TimedReach clock g
      → TimedReach now (ask g e now).0
  gives_up_at :
      (clock now : ℕ) (g : Gate) (w : ℕ) (cause : Cause)
      → clock ≤ now
      → TimedReach clock g
      → TimedReach now (give_up g w cause now).0
  hold_ends_at :
      (clock now : ℕ) (g : Gate) (h : ℕ) (expired : Bool)
      → clock ≤ now
      → TimedReach clock g
      → TimedReach now (end_hold g h expired now).0
  aborts_at : (clock : ℕ) (g : Gate) → TimedReach clock g → TimedReach clock (abort g)
  skips_at : (clock : ℕ) (g : Gate) → TimedReach clock g → TimedReach clock (skip_hold g)
  cuts_short_at : (clock : ℕ) (g : Gate) → TimedReach clock g → TimedReach clock (count_cut_short g)
  flip_ends_at :
      (clock now : ℕ) (g : Gate) (e : ℕ)
      → clock ≤ now
      → TimedReach clock g
      → TimedReach now (end_flip g e now)
  closes_at :
      (clock now : ℕ) (g : Gate) → clock ≤ now → TimedReach clock g → TimedReach now (close g now)

pub timed-Reach : (clock : ℕ) (g : Gate) → TimedReach clock g → Reach g
timed-Reach _ _ (opens_at quiet now g e) = opens quiet g e
timed-Reach _ _ (joins_at clock now g key l r) = joins g key now (timed-Reach clock g r)
timed-Reach _ _ (leaves_at clock now g e h left joined l r) =
    leaves g e h left joined now (timed-Reach clock g r)
timed-Reach _ _ (serves_done_at clock now g t l r) = serves_done g t now (timed-Reach clock g r)
timed-Reach _ _ (purges_at clock now g key l r) = purges g key now (timed-Reach clock g r)
timed-Reach _ _ (begins_at clock now g key l r) = begins g key now (timed-Reach clock g r)
timed-Reach _ _ (asks_at clock now g e l r) = asks g e now (timed-Reach clock g r)
timed-Reach _ _ (gives_up_at clock now g w cause l r) =
    gives_up g w cause now (timed-Reach clock g r)
timed-Reach _ _ (hold_ends_at clock now g h expired l r) =
    hold_ends g h expired now (timed-Reach clock g r)
timed-Reach _ _ (aborts_at clock g r) = aborts g (timed-Reach clock g r)
timed-Reach _ _ (skips_at clock g r) = skips g (timed-Reach clock g r)
timed-Reach _ _ (cuts_short_at clock g r) = cuts_short g (timed-Reach clock g r)
timed-Reach _ _ (flip_ends_at clock now g e l r) = flip_ends g e now (timed-Reach clock g r)
timed-Reach _ _ (closes_at clock now g l r) = closes g now (timed-Reach clock g r)

-- The quiet period is at most 15 s, the ends of the holds that held requests are past, and a running
-- hold has started behind them.
pub record IsTimed (clock : ℕ) (g : Gate) : Type 0 where
  pub short : g.quiet ≤ max_quiet
  pub last : g.last_end ≤ clock
  pub previous : g.prev_end ≤ clock
  pub started :
      (h : ℕ)
      → g.holder ≡ some h
      → (g.last_end ≤ (g.hold_at h).start) × (g.prev_end ≤ (g.hold_at h).start)

-- What an operation keeps that starts and ends no hold.
abbrev pub SameTimes : Gate → Gate → Type 0
SameTimes g g' =
    (g'.quiet ≡ g.quiet)
    × (g'.holder ≡ g.holder)
    × (g'.last_end ≡ g.last_end)
    × (g'.prev_end ≡ g.prev_end)
    × ((h : ℕ) → (g'.hold_at h).start ≡ (g.hold_at h).start)

pub SameTimes-IsTimed :
    (clock now : ℕ) (g g' : Gate) → clock ≤ now → SameTimes g g' → IsTimed clock g → IsTimed now g'
SameTimes-IsTimed clock now g g' l (q, p, a, b, s) k = record {
  short = omega (arith, q, k.short);
  last = omega (arith, a, k.last, l);
  previous = omega (arith, b, k.previous, l);
  started = λ h e.
      let (x, y) = k.started h (sym p ∙ e) in (omega (arith, a, s h, x), omega (arith, b, s h, y));
}

pub same_times : (g : Gate) → SameTimes g g
same_times g = (refl, refl, refl, refl, λ h. refl)

pub chained : (f g h : Gate) → SameTimes f g → SameTimes g h → SameTimes f h
chained f g h (q, p, a, b, s) (q', p', a', b', s') =
    (q' ∙ q, p' ∙ p, a' ∙ a, b' ∙ b, λ k. s' k ∙ s k)

set_hold :
    (g : Gate) (h waiting held_total : ℕ)
    → SameTimes g (record g {
      hold_at =
          update g.hold_at h (record (g.hold_at h) { waiting = waiting; held_total = held_total });
    })
set_hold g h waiting held_total = (refl, refl, refl, refl, λ k. ground arith)

sweep-SameTimes : (g : Gate) (now : ℕ) → SameTimes g (sweep g now)
unfolding sweep
sweep-SameTimes g now = elim (Bool-cases (ltb (now - g.last_sweep) g.quiet)) [
  | inl e ↦ rw e (same_times g)
  | inr e ↦ rw e (same_times g)
]

pub entry-SameTimes : (g : Gate) (key : Bytes) (now : ℕ) → SameTimes g (entry g key now).0
unfolding entry use_entry
entry-SameTimes g key now = elim (Option-cases (find key (sweep g now).entries)) [
  | inl e ↦ rw (entry, e) (sweep-SameTimes g now)
  | inr (i, e) ↦ rw (entry, e) (sweep-SameTimes g now)
]

pub join_entry-SameTimes : (g : Gate) (e now : ℕ) → SameTimes g (join_entry g e now).0
unfolding join_entry serve_now register join_hold
join_entry-SameTimes g e now = elim (Option-cases (g.entry_at e).hold) [
  | inl n ↦ rw (join_entry, n) (same_times g)
  | inr (h, n) ↦ elim (Bool-cases (leb max_waiters (g.hold_at h).waiting)) [
    | inl m ↦ rw (join_entry, n, m) (same_times g)
    | inr m ↦
        rw (join_entry, n, m)
          (set_hold g h ((g.hold_at h).waiting + 1) ((g.hold_at h).held_total + 1))
  ]
]

pub anchor_released-SameTimes :
    (g : Gate) (e h : ℕ) (left : Bool) (joined now : ℕ)
    → SameTimes g (anchor_released g e h left joined now).0
unfolding anchor_released register
anchor_released-SameTimes g e h true joined now =
    set_hold g h ((g.hold_at h).waiting - 1) (g.hold_at h).held_total
anchor_released-SameTimes g e h false joined now =
    set_hold g h ((g.hold_at h).waiting - 1) (g.hold_at h).held_total

pub done-SameTimes : (g : Gate) (t now : ℕ) → SameTimes g (done g t now)
unfolding done
done-SameTimes g t now = elim (Bool-cases (g.token_at t).done) [
  | inl e ↦ rw e (same_times g)
  | inr e ↦ rw e (same_times g)
]

pub purge-SameTimes : (g : Gate) (key : Bytes) (now : ℕ) → SameTimes g (purge g key now).0
unfolding purge
purge-SameTimes g key now = elim (Option-cases (find key g.entries)) [
  | inl e ↦ rw (purge, e) (same_times g)
  | inr (i, e) ↦ elim (Bool-cases (is_live (g.entry_at i) now g.quiet)) [
    | inl l ↦ rw (purge, e, l) (same_times g)
    | inr l ↦ rw (purge, e, l) (same_times g)
  ]
]
