-- ===== src/Flipgate/Decisions.antt =====
-- What the wait loops of Flip and runHold decide, and when.
use apt_cacher_ultra.Base.{
  ℕ, ◌+◌, ◌-◌, ◌≤◌, ◌<◌, ◌≡◌, refl, ◌⊎◌, inl, Bool, true, false, not, some, List, [], ◌∷◌,
  if◌then◌else◌, arith, All,
}
use apt_cacher_ultra.Flipgate.State.{
  Serve, Entry, Gate, max_quiet, hold_max, commit_margin, anchor_timeout,
}
use apt_cacher_ultra.Flipgate.Quiet.{youngest, local_quiet, other_end, other_holds_quiet, earliest}
use apt_cacher_ultra.Flipgate.Times.{TimedReach}
use apt_cacher_ultra.Flipgate.Starts.{TimedReach-IsTimed}
use apt_cacher_ultra.Flipgate.Flip.{PhaseB, commits, phase_b, wake_at}

-- A serve that the barrier no longer waits for.
abbrev pub IsAbandoned : ℕ → Serve → Type 0
IsAbandoned now s = (s.start ≡ 0) ⊎ (anchor_timeout ≤ now - s.start)

-- Long enough ago, or never.
abbrev pub IsPast : ℕ → ℕ → ℕ → Type 0
IsPast quiet now t = (t ≡ 0) ⊎ (quiet ≤ now - t)

youngest-le : (now found : ℕ) (ts : List Serve) → found ≤ youngest now found ts
unfolding youngest
youngest-le now found [] = omega arith
youngest-le now found (t ∷ ts) =
    ground (arith, youngest-le now found ts, youngest-le now t.start ts)

youngest-fresh :
    (now found : ℕ) (ts : List Serve)
    → (found ≡ 0) ⊎ (now - found < anchor_timeout)
    → (youngest now found ts ≡ 0) ⊎ (now - youngest now found ts < anchor_timeout)
unfolding youngest
youngest-fresh now found [] h = h
youngest-fresh now found (t ∷ ts) h =
    ground (arith, youngest-fresh now found ts h, youngest-fresh now t.start ts)

youngest-zero : (now : ℕ) (ts : List Serve) → youngest now 0 ts ≡ 0 → All (IsAbandoned now) ts
unfolding youngest
youngest-zero now [] e = tt
youngest-zero now (t ∷ ts) e = ground (arith, youngest-zero now ts, youngest-le now t.start ts)

-- A local quiet is what it says: no serve in flight that counts, and none that ended lately.
local_quiet_sound :
    (g : Gate) (e : Entry) (now : ℕ)
    → (local_quiet g e now).0 ≡ true
    → All (IsAbandoned now) e.inflight × IsPast g.quiet now e.last_done
unfolding local_quiet
local_quiet_sound g e now h = (youngest-zero now e.inflight (ground arith), ground arith)

-- The time to look again, if there is one, lies ahead.
abbrev Ahead : ℕ → ℕ → Type 0
Ahead now t = (t ≡ 0) ⊎ (now < t)

local_quiet-Ahead : (g : Gate) (e : Entry) (now : ℕ) → Ahead now (local_quiet g e now).1
unfolding local_quiet
local_quiet-Ahead g e now = ground (arith, youngest-fresh now 0 e.inflight (inl refl))

other_holds_quiet_sound :
    (g : Gate) (e now : ℕ)
    → (other_holds_quiet g e now).0 ≡ true
    → IsPast g.quiet now (other_end g e)
unfolding other_holds_quiet
other_holds_quiet_sound g e now h = ground arith

other_holds_quiet-Ahead : (g : Gate) (e now : ℕ) → Ahead now (other_holds_quiet g e now).1
unfolding other_holds_quiet
other_holds_quiet-Ahead g e now = ground arith

wake_at_bounds :
    (a b limit now : ℕ)
    → Ahead now a
    → Ahead now b
    → now < limit
    → (now < wake_at a b limit) × (wake_at a b limit ≤ limit)
unfolding wake_at earliest
wake_at_bounds a b limit now p q h = ground arith

other_end-le :
    (g : Gate) (e start : ℕ) → g.last_end ≤ start → g.prev_end ≤ start → other_end g e ≤ start
unfolding other_end
other_end-le g e start a b = ground (arith, a, b)

-- By the cut every other hold is far enough back.
other_holds_quiet_by :
    (g : Gate) (e start now : ℕ)
    → g.quiet ≤ max_quiet
    → other_end g e ≤ start
    → start + hold_max - commit_margin ≤ now
    → (other_holds_quiet g e now).0 ≡ true
unfolding other_holds_quiet
other_holds_quiet_by g e start now q o c = ground arith

-- In every gate that its critical sections lead to at times that do not run backwards: from its cut
-- on and before its bound, the hold that has the token commits at its next look, whatever is in
-- flight, unless the gate is closed.
pub phase_b_commits_by_cut :
    (clock : ℕ) (g : Gate) (e h now : ℕ)
    → TimedReach clock g
    → g.holder ≡ some h
    → g.closed ≡ false
    → (g.hold_at h).start + hold_max - commit_margin ≤ now
    → now < (g.hold_at h).start + hold_max
    → (cut_short : Bool) × (phase_b g e h now ≡ commits cut_short)
unfolding phase_b
phase_b_commits_by_cut clock g e h now r held open_gate c b =
    let t = TimedReach-IsTimed clock g r in
    let (last, previous) = t.started h held in
    let start = (g.hold_at h).start in
    let others = other_end-le g e start last previous in
    (
      not (local_quiet g (g.entry_at e) now).0,
      ground (arith, other_holds_quiet_by g e start now t.short others c),
    )

commits_parts :
    (g : Gate) (e h now : ℕ) (cut_short : Bool)
    → phase_b g e h now ≡ commits cut_short
    → (g.closed ≡ false)
      × (now < (g.hold_at h).start + hold_max)
      × ((other_holds_quiet g e now).0 ≡ true)
      × ((local_quiet g (g.entry_at e) now).0 ≡ not cut_short)
      × (cut_short ≡ true → (g.hold_at h).start + hold_max - commit_margin ≤ now)
unfolding phase_b
commits_parts g e h now cut_short p = ground arith

waits_parts :
    (g : Gate) (e h now t : ℕ)
    → phase_b g e h now ≡ PhaseB.waits_until t
    → (((other_holds_quiet g e now).0 ≡ false)
        ⊎ (now < (g.hold_at h).start + hold_max - commit_margin))
      × (now < (g.hold_at h).start + hold_max)
      × (now < (g.hold_at h).start + hold_max - commit_margin
          → t
            ≡ wake_at
                (local_quiet g (g.entry_at e) now).1
                (other_holds_quiet g e now).1
                ((g.hold_at h).start + hold_max - commit_margin))
unfolding phase_b
waits_parts g e h now t p = ground arith

-- A hold commits at an open gate only, before its bound, and with the last hold of another suite
-- that held requests a quiet period ago. If it is not cut short it has seen its suite's quiet too:
-- every serve in flight is abandoned, and the last one that counts ended a quiet period ago. If it
-- is cut short, it is at its cut.
pub phase_b_commits_sound :
    (g : Gate) (e h now : ℕ) (cut_short : Bool)
    → phase_b g e h now ≡ commits cut_short
    → (g.closed ≡ false)
      × (now < (g.hold_at h).start + hold_max)
      × IsPast g.quiet now (other_end g e)
      × (if cut_short
          then (g.hold_at h).start + hold_max - commit_margin ≤ now
          else All (IsAbandoned now) (g.entry_at e).inflight
            × IsPast g.quiet now (g.entry_at e).last_done)
phase_b_commits_sound g e h now true p =
    let (open_gate, early, others, own, late) = commits_parts g e h now true p in
    (open_gate, early, other_holds_quiet_sound g e now others, late refl)
phase_b_commits_sound g e h now false p =
    let (open_gate, early, others, own, late) = commits_parts g e h now false p in
    (
      open_gate,
      early,
      other_holds_quiet_sound g e now others,
      local_quiet_sound g (g.entry_at e) now own,
    )

-- While a hold waits, its next look lies ahead, at the cut at the latest, if the quiet period is at
-- most 15 s and the last other hold that held requests ended by this hold's start.
pub phase_b_waits :
    (g : Gate) (e h now t : ℕ)
    → g.quiet ≤ max_quiet
    → other_end g e ≤ (g.hold_at h).start
    → phase_b g e h now ≡ PhaseB.waits_until t
    → (now < t) × (t ≤ (g.hold_at h).start + hold_max - commit_margin)
phase_b_waits g e h now t q o p =
    let (why, early, at_cut) = waits_parts g e h now t p in
    let before : now < (g.hold_at h).start + hold_max - commit_margin =
      ground (arith, why, other_holds_quiet_by g e (g.hold_at h).start now q o) in
    rw (at_cut before) (
      wake_at_bounds (local_quiet g (g.entry_at e) now).1 (other_holds_quiet g e now).1
        ((g.hold_at h).start + hold_max - commit_margin) now
        (local_quiet-Ahead g (g.entry_at e) now) (other_holds_quiet-Ahead g e now) before)
